-- ===== src/Control/Offer/Answering.antt =====
-- Who may answer a call, and what an answer leaves behind.
use open_voip.Base.{
  ℕ, ◌+◌, String, ◌==◌, eq_iff, ◌≡◌, refl, ap, ◌⊎◌, inl, inr, true, false, not, ◌||◌, ◌&&◌,
  if◌then◌else◌, Bool-cases, is_some, some, List, [], ◌∷◌, ◌++◌, arith,
}
use open_voip.Errs.{Err, api, conflict_error, forbidden_error}
use open_voip.Ports.{CallLegRecord, CallRecord, CallState, Value, active, held}
use open_voip.CallStore.{insert_leg, put_leg_rows, written_row}
use open_voip.Control.State.{Cell, Ctx, Env, Result, RuntimeCall, ok, err}
use open_voip.Control.Exec.{Exec, fail, fresh_id, modify, now, pure, with_live, ◌>>=◌}
use open_voip.Control.Events.{cdr_upsert, publish_call, set_agent_state}
use open_voip.Control.Exec.Keeps.{Keeps, IgnoresLog, Keeps-bind, keeps_rules}
use open_voip.Control.Frame.{Keeps-cdr_upsert, Keeps-publish_call}
use open_voip.Control.Transition.{next_record, transition}
use open_voip.Control.Transition.Laws.{Settled, Settled-IsQuiet, bind_ok, transition_done}
use open_voip.Control.Offer.{
  accept_offer, agent_leg, already_answered, answer_checked, answered_call, consulting, do_answer,
  finish_answer, is_active, is_ringing, not_ringing, prepare_answer, switch_audio,
}

-- The offer that an answer takes up.
pub record IsOffered (ctx : Ctx) (agent_id : String) (rt : RuntimeCall) : Type 0 where
  pub to_agent : rt.offered_agent ≡ agent_id
  pub rings : (is_ringing rt.rec.state || is_active rt.rec.state) ≡ true
  pub device : (rt.sip_offer_leg == "" || ctx.sip_answer) ≡ true

-- What the checks come to: the agent has the call already, or the answer is refused with nothing
-- changed, or the offer is taken up.
data Verdict (env : Env) (ctx : Ctx) (agent_id : String) (rt : RuntimeCall) (c : Cell)
    : Type 0 where
  had :
      already_answered rt agent_id ≡ true
      → answer_checked env ctx agent_id rt c ≡ (ok tt, c)
      → Verdict env ctx agent_id rt c
  refused :
      (e : Err) → answer_checked env ctx agent_id rt c ≡ (err e, c) → Verdict env ctx agent_id rt c
  taken :
      IsOffered ctx agent_id rt
      → answer_checked env ctx agent_id rt c ≡ accept_offer env rt agent_id c
      → Verdict env ctx agent_id rt c

module _ (env : Env) (ctx : Ctx) (agent_id : String) (rt : RuntimeCall) (c : Cell) where
  IsOffered-when :
      not_ringing rt agent_id ≡ false
      → not (rt.offered_agent == agent_id) ≡ false
      → (not (rt.sip_offer_leg == "") && not ctx.sip_answer) ≡ false
      → IsOffered ctx agent_id rt
  unfolding not_ringing
  IsOffered-when n o d = record {
    to_agent = ground (arith, eq_iff rt.offered_agent agent_id);
    rings = ground arith;
    device = ground arith;
  }

  checks : Verdict env ctx agent_id rt c
  unfolding answer_checked pure fail
  checks = elim (Bool-cases (already_answered rt agent_id)) [
    | inl done ↦ had done (simp done)
    | inr other ↦ elim (Bool-cases (not_ringing rt agent_id)) [
      | inl n ↦ refused (api (conflict_error "当前不是振铃状态" "CALL_NOT_RINGING")) (simp (other, n))
      | inr n ↦ elim (Bool-cases (not (rt.offered_agent == agent_id))) [
        | inl o ↦ refused (api (forbidden_error "不是当前振铃坐席")) (simp (other, n, o))
        | inr o ↦ elim (Bool-cases (not (rt.sip_offer_leg == "") && not ctx.sip_answer)) [
          | inl d ↦ refused (api (conflict_error "请在 SIP 话机接听" "")) (simp (other, n, o, d))
          | inr d ↦ taken (IsOffered-when n o d) (simp (other, n, o, d))
        ]
      ]
    ]
  ]

  do_answer_live :
      c.live ≡ some rt → do_answer env ctx agent_id c ≡ answer_checked env ctx agent_id rt c
  unfolding do_answer with_live
  do_answer_live l = simp l

  -- Without an offer to this agent that its device may take, an answer changes nothing at all: it
  -- is successful where the agent has the call already, and else it is refused with an error.
  pub answer_guarded :
      c.live ≡ some rt
      → ¬ IsOffered ctx agent_id rt
      → ((already_answered rt agent_id ≡ true) × (do_answer env ctx agent_id c ≡ (ok tt, c)))
        ⊎ ((e : Err) × (do_answer env ctx agent_id c ≡ (err e, c)))
  answer_guarded l n = rw (do_answer_live l) (elim checks [
    | had done same ↦ inl (done, same)
    | refused e same ↦ inr (e, same)
    | taken o same ↦ absurd (n o)
  ])

record LiveIs (rt : RuntimeCall) (c : Cell) : Type 0 where
  live : c.live ≡ some rt

module _ (env : Env) (rt : RuntimeCall) where
  LiveIs-logs : IgnoresLog (LiveIs rt)
  LiveIs-logs = record { logs = λ c l h. record { live = h.live } }

  LiveIs-legs : (legs : List CallLegRecord) → Keeps (LiveIs rt) (put_leg_rows legs)
  unfolding put_leg_rows
  LiveIs-legs legs = record { at = λ c h. record { live = h.live } }

  LiveIs-prepare :
      (x : RuntimeCall) (leg : CallLegRecord) (agent_id : String)
      → Keeps (LiveIs rt) (prepare_answer env x leg agent_id)
  unfolding prepare_answer switch_audio insert_leg set_agent_state
  LiveIs-prepare x leg agent_id = search (keeps_rules, LiveIs-logs, LiveIs-legs) depth 20

-- A call as an answer leaves it: the agent has it and its offer is gone, it is connected, or held for
-- the one who consults, the agent's leg is its last, and the row says the same, one version on.
pub record IsAnswered (agent_id : String) (rt : RuntimeCall) (c : Cell) : Type 0 where
  pub call : RuntimeCall
  pub row : CallRecord
  pub leg : CallLegRecord
  pub live : c.live ≡ some call
  pub stored : c.row ≡ some row
  pub has : call.active_agent ≡ agent_id
  pub withdrawn : call.offered_agent ≡ ""
  pub state : call.rec.state ≡ (if consulting rt agent_id then held else active)
  pub answered : is_some call.answered_at ≡ true
  pub joined : call.legs ≡ rt.legs ++ leg ∷ []
  pub joins : leg.agent_id ≡ some agent_id
  pub next_version : call.rec.version ≡ rt.rec.version + 1
  pub row_state : row.state ≡ call.rec.state
  pub row_agent : row.agent_id ≡ agent_id

module _ (env : Env) (rt : RuntimeCall) (agent_id : String) (leg : CallLegRecord) (t : ℕ) where
  private_call : RuntimeCall
  private_call = answered_call rt leg agent_id t

  answered_at-some : is_some private_call.answered_at ≡ true
  unfolding private_call answered_call
  answered_at-some = ground arith

  Settled-IsAnswered :
      (state : CallState) (moved : ℕ) (row : CallRecord) (c : Cell)
      → leg.agent_id ≡ some agent_id
      → state ≡ (if consulting rt agent_id then held else active)
      → Settled
          (record private_call { rec = next_record private_call state moved })
          (some (written_row (next_record private_call state moved) row))
          c
      → IsAnswered agent_id rt c
  unfolding private_call answered_call next_record written_row
  Settled-IsAnswered state moved row c j s h = record {
    call = record private_call {
      rec = next_record private_call state moved;
      recording_id = h.id;
      notify = h.note;
    };
    row = written_row (next_record private_call state moved) row;
    leg = leg;
    live = h.live;
    stored = h.stored;
    has = refl;
    withdrawn = refl;
    state = s;
    answered = answered_at-some;
    joined = refl;
    joins = j;
    next_version = refl;
    row_state = refl;
    row_agent = refl;
  }

  -- The end of an answer: a transition, the billing record and the event.
  connected :
      (state : CallState) (typ : String) (payload : List (String × Value)) (c : Cell)
      → c.live ≡ some private_call
      → leg.agent_id ≡ some agent_id
      → state ≡ (if consulting rt agent_id then held else active)
      → ((transition env state >>= λ _.
            cdr_upsert env "answered" >>= λ _. publish_call env typ agent_id payload)
          c).0
        ≡ ok tt
      → IsAnswered agent_id rt
          ((transition env state >>= λ _.
              cdr_upsert env "answered" >>= λ _. publish_call env typ agent_id payload)
            c).1
  connected state typ payload c l j s h =
      let (a, moved, _, e) = bind_ok (transition env state) _ c h in
      let (row, _, settled) = transition_done env private_call state c l moved in
      let quiet = Settled-IsQuiet _ _ in
      Settled-IsAnswered state (env.now c.log) row _ j s (
        rw e (
          (Keeps-bind _ _ (Keeps-cdr_upsert quiet env "answered")
              (λ _. Keeps-publish_call quiet env typ agent_id payload)).at
            _ settled))

module _ (env : Env) (ctx : Ctx) (agent_id : String) (rt : RuntimeCall) (c : Cell) where
  finish_answer-IsAnswered :
      (leg : CallLegRecord) (t : ℕ) (d : Cell)
      → d.live ≡ some (answered_call rt leg agent_id t)
      → leg.agent_id ≡ some agent_id
      → (finish_answer env (consulting rt agent_id) agent_id t d).0 ≡ ok tt
      → IsAnswered agent_id rt (finish_answer env (consulting rt agent_id) agent_id t d).1
  unfolding finish_answer private_call
  finish_answer-IsAnswered leg t d l j h = elim (Bool-cases (consulting rt agent_id)) [
    | inl yes' ↦
        simp yes' (connected env rt agent_id leg t held _ _ d l j (simp yes') (simp yes' at h))
    | inr no' ↦
        simp no' (connected env rt agent_id leg t active _ _ d l j (simp no') (simp no' at h))
  ]

  modify_then :
      (f : RuntimeCall → RuntimeCall) (k : Exec (Unit {0})) (d : Cell)
      → d.live ≡ some rt
      → (modify f >>= λ _. k) d ≡ k (record d { live = some (f rt) })
  unfolding modify ◌>>=◌
  modify_then f k d l = simp l

  module _ (t : ℕ) (fresh : String) where
    abbrev taken_by : CallLegRecord
    taken_by = agent_leg env rt fresh agent_id t

    abbrev last_steps : Exec (Unit {0})
    last_steps = modify (λ r. answered_call r taken_by agent_id t) >>= λ _.
        finish_answer env (consulting rt agent_id) agent_id t

    joins_agent : taken_by.agent_id ≡ some agent_id
    unfolding agent_leg
    joins_agent = refl

    last_steps-IsAnswered :
        (d : Cell)
        → LiveIs rt d
        → (last_steps d).0 ≡ ok tt
        → IsAnswered agent_id rt (last_steps d).1
    last_steps-IsAnswered d k h =
        let same =
          modify_then (λ r. answered_call r taken_by agent_id t)
            (finish_answer env (consulting rt agent_id) agent_id t) d k.live in
        rw same (finish_answer-IsAnswered taken_by t _ refl joins_agent (rw same at h))

    prepared-IsAnswered :
        (d : Cell)
        → LiveIs rt d
        → ((prepare_answer env rt taken_by agent_id >>= λ _. last_steps) d).0 ≡ ok tt
        → IsAnswered agent_id rt ((prepare_answer env rt taken_by agent_id >>= λ _. last_steps) d).1
    prepared-IsAnswered d k h =
        let (_, _, good, e) =
          bind_ok (prepare_answer env rt taken_by agent_id) (λ _. last_steps) d h in
        rw e (last_steps-IsAnswered _ ((LiveIs-prepare env rt rt taken_by agent_id).at d k) good)

  accept_offer-IsAnswered :
      c.live ≡ some rt
      → (accept_offer env rt agent_id c).0 ≡ ok tt
      → IsAnswered agent_id rt (accept_offer env rt agent_id c).1
  unfolding accept_offer now fresh_id ◌>>=◌
  accept_offer-IsAnswered l h =
      prepared-IsAnswered (env.now c.log) (env.fresh_id c.log) c (record { live = l }) h

  -- An answer that reports success, of a call that the agent did not have already, was offered to
  -- this agent, and leaves the call connected with it, or held for the one who consults, in memory
  -- and in the row.
  pub answer_connects :
      c.live ≡ some rt
      → already_answered rt agent_id ≡ false
      → (do_answer env ctx agent_id c).0 ≡ ok tt
      → IsOffered ctx agent_id rt × IsAnswered agent_id rt (do_answer env ctx agent_id c).1
  answer_connects l other h =
      rw (do_answer_live env ctx agent_id rt c l) (elim (checks env ctx agent_id rt c) [
        | had done same ↦ absurd (cc (done, other))
        | refused e same ↦ absurd (
            cc (
              rw (do_answer_live env ctx agent_id rt c l) at h,
              ap {A = Result (Unit {0}) × Cell} (λ x. x.0) same,
            ))
        | taken o same ↦ rw same (
          o,
          accept_offer-IsAnswered l (rw same at (rw (do_answer_live env ctx agent_id rt c l) at h)),
        )
      ])
