-- ===== src/Control/Transition/Laws.antt =====
-- What one call of `transition` does to the live call and to its row.
use open_voip.Base.{
  String, ◌≡◌, refl, sym, ap, ◌∙◌, inl, inr, Bool-cases, true, false, not, ◌&&◌, Option, none, some,
  arith,
}
use mathlib.Core.Option.{some-injective}
use open_voip.Errs.{Err, api, conflict_error, not_found_error}
use open_voip.Ports.{CallRecord, CallState}
use open_voip.CallStore.{put_row, update_call, written_row}
use open_voip.Control.State.{Cell, Env, Result, RuntimeCall, ok, err}
use open_voip.Control.Exec.{
  Exec, pure, fail, gets, with_live, with_option, with_result, ignore, attempt, modify, when, now,
  continue, perform, from_reply, ◌>>=◌,
}
use open_voip.Control.Exec.Keeps.{
  Keeps, Keeps-modify, Keeps-bind, Keeps-when, Keeps-ignore, Keeps-perform,
}
use open_voip.Control.Frame.{IsQuiet, Keeps-begin_recording_if_needed}
use open_voip.Control.Transition.{
  is_ended, next_record, record_state, guarded_state, write_state, after_transition, transition,
}

-- The live call is `rt` up to its recording, and the row is `row`.
pub record Settled (rt : RuntimeCall) (row : Option CallRecord) (c : Cell) : Type 0 where
  pub id : String
  pub note : String
  pub live : c.live ≡ some (record rt { recording_id = id; notify = note })
  pub stored : c.row ≡ row

module _ (rt : RuntimeCall) (row : Option CallRecord) where
  pub Settled-IsQuiet : IsQuiet (Settled rt row)
  Settled-IsQuiet = record {
    logs = record {
      logs = λ c l h. record { id = h.id; note = h.note; live = h.live; stored = h.stored };
    };
    notes = λ id note. Keeps-modify _ λ c x e h. record {
      id = id;
      note = note;
      live =
          ap {A = RuntimeCall} (λ r. some (record r { recording_id = id; notify = note }))
            (some-injective _ _ (sym e ∙ h.live));
      stored = h.stored;
    };
  }

  pub Settled-now : (c : Cell) → c.live ≡ some rt → c.row ≡ row → Settled rt row c
  Settled-now c e s = record { id = rt.recording_id; note = rt.notify; live = e; stored = s }

module _ {P : Cell → Type 0} (k : IsQuiet P) (env : Env) where
  pub Keeps-after_transition : (prev state : CallState) → Keeps P (after_transition env prev state)
  unfolding after_transition
  Keeps-after_transition prev state =
      Keeps-bind _ _ (Keeps-when _ _ (Keeps-ignore _ (Keeps-begin_recording_if_needed k env)))
        (λ _. Keeps-when _ _ (Keeps-ignore _ (Keeps-perform env _ k.logs)))

-- What a proof about the write of a state looks through.
abbrev pub record_steps : Unit {0}
unfolding record_state update_call put_row written_row next_record modify attempt with_result now
    perform pure from_reply fail gets with_option ◌>>=◌
record_steps = tt

module _ (env : Env) (rt : RuntimeCall) (state : CallState) (c : Cell) where
  after_transition_ok : (prev : CallState) → (after_transition env prev state c).0 ≡ ok tt
  unfolding after_transition when ignore pure ◌>>=◌
  after_transition_ok prev = ground arith

  record_state_undone :
      {e : Err}
      → c.live ≡ some rt
      → (record_state env rt state c).0 ≡ err e
      → let c' = (record_state env rt state c).1 in (c'.live ≡ c.live) × (c'.row ≡ c.row)
  unfolding record_steps
  record_state_undone l h = ground arith

  record_state_done :
      c.live ≡ some rt
      → (record_state env rt state c).0 ≡ ok tt
      → let c' = (record_state env rt state c).1 in
        let rec = next_record rt state (env.now c.log) in
        (row : CallRecord) × (c.row ≡ some row)
        × (c'.live ≡ some (record rt { rec = rec }))
        × (c'.row ≡ some (written_row rec row))
  unfolding record_steps
  record_state_done l h = ground arith

  transition_live : c.live ≡ some rt → transition env state c ≡ write_state env state rt c
  unfolding transition with_live
  transition_live l = rw l

  refused :
      (is_ended rt.rec.state && not (is_ended state)) ≡ true
      → guarded_state env rt state c ≡ (err (api (conflict_error "通话已结束" "")), c)
  unfolding guarded_state fail
  refused h = rw h

  passed :
      (is_ended rt.rec.state && not (is_ended state)) ≡ false
      → guarded_state env rt state c ≡ record_state env rt state c
  unfolding guarded_state
  passed h = rw h

  guarded_state_undone :
      {e : Err}
      → c.live ≡ some rt
      → (guarded_state env rt state c).0 ≡ err e
      → let c' = (guarded_state env rt state c).1 in (c'.live ≡ c.live) × (c'.row ≡ c.row)
  guarded_state_undone l h = elim (Bool-cases (is_ended rt.rec.state && not (is_ended state))) [
    | inl r ↦ rw (refused r) (refl, refl)
    | inr p ↦ rw (passed p) (record_state_undone l (rw (passed p) at h))
  ]

  guarded_state_done :
      c.live ≡ some rt
      → (guarded_state env rt state c).0 ≡ ok tt
      → let c' = (guarded_state env rt state c).1 in
        let rec = next_record rt state (env.now c.log) in
        (row : CallRecord) × (c.row ≡ some row)
        × (c'.live ≡ some (record rt { rec = rec }))
        × (c'.row ≡ some (written_row rec row))
  guarded_state_done l h = elim (Bool-cases (is_ended rt.rec.state && not (is_ended state))) [
    | inl r ↦ cc (ap (λ (x : Result (Unit {0}) × Cell). x.0) (refused r), h)
    | inr p ↦ rw (passed p) (record_state_done l (rw (passed p) at h))
  ]

-- A sequence that succeeds has succeeded in both parts; one that fails, with a rest that does not,
-- has failed in its first part and stopped there.
module _ {A B : Type 0} (m : Exec A) (f : A → Exec B) (c : Cell) where
  pub bind_ok :
      {b : B}
      → ((m >>= f) c).0 ≡ ok b
      → (a : A) × ((m c).0 ≡ ok a) × ((f a (m c).1).0 ≡ ok b) × (((m >>= f) c).1 ≡ (f a (m c).1).1)
  unfolding ◌>>=◌
  bind_ok h = ground arith

  pub bind_err :
      {e : Err}
      → ((x : A) (d : Cell) → (y : B) × ((f x d).0 ≡ ok y))
      → ((m >>= f) c).0 ≡ err e
      → ((m c).0 ≡ err e) × (((m >>= f) c).1 ≡ (m c).1)
  unfolding ◌>>=◌
  bind_err {e} rest h = go (m c).0 refl h
    where
      go :
          (r : Result A)
          → (m c).0 ≡ r
          → (continue (m c).0 f (m c).1).0 ≡ err e
          → ((m c).0 ≡ err e) × ((continue (m c).0 f (m c).1).1 ≡ (m c).1)
      go (ok a) q h' =
          let (y, z) = rest a (m c).1 in
          absurd (cc (ap {B = Result B} (λ r. (continue r f (m c).1).0) q, z))
      go (err x) q h' = ground (arith, q)

module _ (env : Env) (rt : RuntimeCall) (state : CallState) (c : Cell) (l : c.live ≡ some rt) where
  -- A transition that fails, refused by its guard or by the database, leaves the live call and its
  -- row exactly as they were.
  pub transition_atomic :
      {e : Err}
      → (transition env state c).0 ≡ err e
      → let c' = (transition env state c).1 in (c'.live ≡ c.live) × (c'.row ≡ c.row)
  unfolding write_state
  transition_atomic {e} h =
      rw (transition_live env rt state c l)
        (rw stopped.1 (guarded_state_undone env rt state c l stopped.0))
    where
      stopped :
          ((guarded_state env rt state c).0 ≡ err e)
          × ((write_state env state rt c).1 ≡ (guarded_state env rt state c).1)
      stopped =
          bind_err (guarded_state env rt state) (λ _. after_transition env rt.rec.state state) c
            (λ x d. (tt, after_transition_ok env rt state d rt.rec.state))
            (rw (transition_live env rt state c l) at h)

  -- A transition that succeeds was written: the row it had takes the state and the live call's own
  -- fields at one version more, and the live call is otherwise the same but for its recording.
  pub transition_done :
      (transition env state c).0 ≡ ok tt
      → let rec = next_record rt state (env.now c.log) in
        (row : CallRecord) × (c.row ≡ some row)
        × Settled (record rt { rec = rec }) (some (written_row rec row)) (transition env state c).1
  unfolding write_state
  transition_done h =
      let (a, g, _, e) =
        bind_ok (guarded_state env rt state) (λ _. after_transition env rt.rec.state state) c
          (rw (transition_live env rt state c l) at h) in
      let (row, had, live, stored) = guarded_state_done env rt state c l g in
      (
        row,
        had,
        rw (transition_live env rt state c l) (
            rw e (
              (Keeps-after_transition (Settled-IsQuiet _ _) env _ _).at _
                (Settled-now _ _ _ live stored))),
      )

-- Without a live call there is no transition.
pub transition_nobody :
    (env : Env) (state : CallState) (c : Cell)
    → c.live ≡ none
    → transition env state c ≡ (err (api (not_found_error "通话不存在")), c)
unfolding transition with_live fail
transition_nobody env state c e = rw e
