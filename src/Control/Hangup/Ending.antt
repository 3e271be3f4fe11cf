-- ===== src/Control/Hangup/Ending.antt =====
-- What a hangup does: it releases every agent once, ends the row and forgets the live call.
use open_voip.Base.{
  String, ◌==◌, eq_iff, contains, IsDistinct, ◌≡◌, ◌≢◌, refl, ap, inl, inr, false, not, ◌||◌, ◌&&◌,
  Bool-cases, Option, none, some, List, [], ◌∷◌, ◌++◌, arith,
}
use open_voip.Ports.{CallRecord, CallState, HangupReason, ended}
use open_voip.Control.State.{Cell, Env, Result, RuntimeCall, ok}
use open_voip.Control.Exec.{Exec, gets, pure, with_live, with_option, ◌>>=◌}
use open_voip.Control.Events.{leg_agents}
use open_voip.Control.Events.Recipients.{contains-fresh_ids, fresh_ids-IsDistinct}
use open_voip.CallStore.{get_call, written_row}
use open_voip.Control.Exec.Keeps.{Keeps, Keeps-bind, Keeps-modify, Keeps-pure, keeps_rules}
use open_voip.Control.Frame.{IsQuiet, Keeps-publish_call}
use open_voip.Control.Transition.{is_ended, next_record, transition}
use open_voip.Control.Transition.Laws.{bind_ok, transition_done, transition_nobody}
use open_voip.Control.Hangup.{
  close_ended, delete_live, do_hangup, end_persisted, end_bridges, end_live, report_bridges,
  released_legs, seen_offered,
}

-- The agents that a hangup releases, in the order in which it does.
pub released : RuntimeCall → List String
released rt = seen_offered rt ++ released_legs rt

module _ (rt : RuntimeCall) where
  -- Every agent of the call, offered or on a leg, is released, no other is, and none twice.
  pub released_exact :
      IsDistinct (released rt)
      × ((a : String)
          → contains a (released rt)
            ≡ ((rt.offered_agent == a || contains a (leg_agents rt.legs)) && not (a == "")))
  unfolding released seen_offered released_legs
  released_exact = (
    elim (Bool-cases (rt.offered_agent == "")) [
      | inl nobody ↦ rw nobody (fresh_ids-IsDistinct [] (leg_agents rt.legs))
      | inr somebody ↦ rw somebody (
        ground (
          arith,
          contains-fresh_ids rt.offered_agent (rt.offered_agent ∷ []) (leg_agents rt.legs),
          eq_iff rt.offered_agent rt.offered_agent,
        ),
        fresh_ids-IsDistinct (rt.offered_agent ∷ []) (leg_agents rt.legs),
      )
    ],
    λ a. ground (
      arith,
      contains-fresh_ids a (rt.offered_agent ∷ []) (leg_agents rt.legs),
      contains-fresh_ids a [] (leg_agents rt.legs),
      eq_iff rt.offered_agent a,
      eq_iff rt.offered_agent "",
      eq_iff a "",
    ),
  )

unended : (rt : RuntimeCall) → rt.rec.state ≢ ended → is_ended rt.rec.state ≡ false
unfolding is_ended
unended rt h = ground arith

-- The row is there, in a state.
pub record HasRow (state : CallState) (c : Cell) : Type 0 where
  pub row : CallRecord
  pub stored : c.row ≡ some row
  pub state_is : row.state ≡ state

HasRow-IsQuiet : (state : CallState) → IsQuiet (HasRow state)
HasRow-IsQuiet state = record {
  logs = record {
    logs = λ c l h. record { row = h.row; stored = h.stored; state_is = h.state_is };
  };
  notes = λ id note.
      Keeps-modify _ (λ c rt e h. record { row = h.row; stored = h.stored; state_is = h.state_is });
}

module _ {P : Cell → Type 0} (env : Env) (k : IsQuiet P) (forgets : Keeps P delete_live) where
  Keeps-report_bridges : (ids : List String) → Keeps P (report_bridges env ids)
  unfolding report_bridges
  Keeps-report_bridges [] = Keeps-pure tt
  Keeps-report_bridges (b ∷ bs) =
      Keeps-bind _ _ (search (keeps_rules, Keeps-publish_call k env)) λ _. Keeps-report_bridges bs

  Keeps-end_bridges : Keeps P (end_bridges env)
  unfolding end_bridges
  Keeps-end_bridges = search (keeps_rules, k.logs, Keeps-report_bridges) depth 12

  pub Keeps-close_ended :
      (agent : String) (reason : HangupReason) (result : String)
      → Keeps P (close_ended env agent reason result)
  unfolding close_ended
  Keeps-close_ended agent reason result = Keeps-bind _ _ Keeps-end_bridges λ _.
      Keeps-bind _ _ (search (keeps_rules, k.logs))
        λ _. Keeps-bind _ _ (search (keeps_rules, Keeps-publish_call k env)) λ _. forgets

-- What holds of every cell in which an action succeeds.
pub record Ensures {A : Type 0} (Q : Cell → Type 0) (m : Exec A) : Type 0 where
  pub upon : (c : Cell) (a : A) → (m c).0 ≡ ok a → Q (m c).1

pub Ensures-bind :
    {A B : Type 0} {Q : Cell → Type 0} (m : Exec A) (f : A → Exec B)
    → ((a : A) → Ensures Q (f a))
    → Ensures Q (m >>= f)
Ensures-bind m f q = record {
  upon = λ c b h. let (a, _, good, e) = bind_ok m f c h in rw e ((q a).upon (m c).1 b good);
}

module _ (env : Env) where
  transition-HasRow : (state : CallState) → Ensures (HasRow state) (transition env state)
  transition-HasRow state = record { upon = λ c a h. go c c.live refl a h }
    where
      go :
          (c : Cell) (o : Option RuntimeCall)
          → c.live ≡ o
          → (a : Unit {0}) → (transition env state c).0 ≡ ok a
          → HasRow state (transition env state c).1
      go c none e a h =
          absurd
            (cc (ap (λ (x : Result (Unit {0}) × Cell). x.0) (transition_nobody env state c e), h))
      go c (some rt) e a h =
          let (row, _, s) = transition_done env rt state c e h in
          record { row = _; stored = s.stored; state_is = unfold written_row next_record in refl }

-- The row has ended and nothing is live.
pub record IsGone (c : Cell) : Type 0 where
  pub absent : c.live ≡ none
  pub row : CallRecord
  pub stored : c.row ≡ some row
  pub state_is : row.state ≡ ended

abbrev Absent : Cell → Type 0
Absent c = c.live ≡ none

module _ (env : Env) (reason : HangupReason) where
  Ensures-delete_live : Ensures Absent delete_live
  unfolding delete_live
  Ensures-delete_live = record { upon = λ c a h. refl }

  close_ended-Absent :
      (agent result : String) → Ensures Absent (close_ended env agent reason result)
  unfolding close_ended
  close_ended-Absent agent result = search (Ensures-bind, Ensures-delete_live) depth 8

  HasRow-forgets : Keeps (HasRow ended) delete_live
  unfolding delete_live
  HasRow-forgets = record {
    at = λ c h. record { row = h.row; stored = h.stored; state_is = h.state_is };
  }

  ended_row :
      (agent result : String)
      → Ensures (HasRow ended) (transition env ended >>= λ _. close_ended env agent reason result)
  ended_row agent result = record {
    upon = λ c a h.
        let (b, moved, _, e) = bind_ok (transition env ended) _ c h in
        rw e (
          (Keeps-close_ended env (HasRow-IsQuiet ended) HasRow-forgets agent reason result).at _
            ((transition-HasRow env ended).upon c b moved));
  }

  module _ (meta : CallRecord → String → String → String → String) (rt : RuntimeCall) where
    end_live-HasRow : Ensures (HasRow ended) (end_live env meta reason rt)
    unfolding end_live
    end_live-HasRow = search (Ensures-bind, ended_row) depth 20

    end_live-Absent : Ensures Absent (end_live env meta reason rt)
    unfolding end_live
    end_live-Absent = search (Ensures-bind, close_ended-Absent) depth 20

    do_hangup_live :
        (c : Cell)
        → c.live ≡ some rt
        → is_ended rt.rec.state ≡ false
        → do_hangup env meta reason c ≡ end_live env meta reason rt c
    unfolding do_hangup with_live
    do_hangup_live c l e = simp (l, e)

    -- A hangup of a live call that reports success has ended the call's row and has left no live
    -- entry of it.
    pub do_hangup_ends :
        (c : Cell)
        → c.live ≡ some rt
        → is_ended rt.rec.state ≡ false
        → (do_hangup env meta reason c).0 ≡ ok tt
        → IsGone (do_hangup env meta reason c).1
    do_hangup_ends c l e h =
        let same = do_hangup_live c l e in
        let done : (end_live env meta reason rt c).0 ≡ ok tt = rw same at h in
        let held = end_live-HasRow.upon c tt done in
        rw same (record {
          absent = end_live-Absent.upon c tt done;
          row = held.row;
          stored = held.stored;
          state_is = held.state_is;
        })

-- A hangup of a call that is gone, while its row can be read.
hangup_of_gone :
    (env : Env) (meta : CallRecord → String → String → String → String) (reason : HangupReason)
    (c : Cell)
    → IsGone c
    → env.read_fault c.log ≡ none
    → do_hangup env meta reason c ≡ (ok tt, c)
unfolding do_hangup end_persisted get_call gets with_option pure with_live is_ended ◌>>=◌
hangup_of_gone env meta reason c g f = simp (g.absent, f, g.stored, g.state_is)

-- After a hangup of a live call that succeeded, a second one, for any reason and under other answers of
-- the ports, succeeds, changes nothing and calls no port, if the row of the call can be read then.
pub do_hangup-twice :
    (env later : Env) (meta : CallRecord → String → String → String → String)
    (reason other : HangupReason) (rt : RuntimeCall) (c : Cell)
    → c.live ≡ some rt
    → rt.rec.state ≢ ended
    → (do_hangup env meta reason c).0 ≡ ok tt
    → let c' = (do_hangup env meta reason c).1 in
      later.read_fault c'.log ≡ none → do_hangup later meta other c' ≡ (ok tt, c')
do_hangup-twice env later meta reason other rt c l going done readable =
    hangup_of_gone later meta other _
      (do_hangup_ends env reason meta rt c l (unended rt going) done) readable
