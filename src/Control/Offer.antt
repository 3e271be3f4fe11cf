-- ===== src/Control/Offer.antt =====
-- An offered agent's reply: `doAnswer` and `doDecline` of control/service.go.
pub mod Answering
use open_voip.Base.{
  ℕ, String, ◌==◌, ◌++◌, if◌then◌else◌, Bool, true, false, not, ◌||◌, ◌&&◌, is_some, Option, none,
  some, List, [], ◌∷◌,
}
use open_voip.Errs.{Err, api, conflict_error, forbidden_error, not_found_error}
use open_voip.Ports.{
  CallLegRecord, CallState, SessionType, active, agent_ringing, held, idle, on_call, queued,
  ringing, text, time,
}
use open_voip.Ports
use open_voip.CallStore.{insert_leg}
use open_voip.Control.State.{Ctx, Effect, Env, RuntimeCall}
use open_voip.Control.Exec.{
  Exec, pure, fail, gets, with_live, ignore, modify, when, perform, now, fresh_id, ◌>>=◌, ◌>>◌,
}
use open_voip.Control.Events.{
  customer_leg, publish_call, call_id_pair, set_agent_state, cdr_upsert, emit_acd_offer_failed,
}
use open_voip.Control.Transition.{transition}
use open_voip.Control.Dispatch.{is_audio, try_dispatch}

unfoldable pub is_talking : CallState → Bool
is_talking active = true
is_talking held = true
is_talking _ = false

unfoldable pub is_active : CallState → Bool
is_active active = true
is_active _ = false

unfoldable pub is_ringing : CallState → Bool
is_ringing ringing = true
is_ringing _ = false

-- The agent already has the call.
unfoldable pub already_answered : RuntimeCall → String → Bool
unfolding is_talking
already_answered rt agent_id =
    is_talking rt.rec.state && rt.offered_agent == "" && rt.active_agent == agent_id

-- The call does not ring: neither as a queued or direct call nor as a conference invitation.
unfoldable pub not_ringing : RuntimeCall → String → Bool
unfolding is_ringing is_active
not_ringing rt agent_id =
    not (is_ringing rt.rec.state)
    && (not (is_active rt.rec.state) || not (rt.offered_agent == agent_id))

-- Another agent than the one who asked for the consultation answers.
unfoldable pub consulting : RuntimeCall → String → Bool
consulting rt agent_id = not (rt.consult_from == "") && not (rt.consult_from == agent_id)

unfoldable pub answered_call : RuntimeCall → CallLegRecord → String → ℕ → RuntimeCall
unfolding is_audio
answered_call rt leg agent_id t = record rt {
  legs = rt.legs ++ leg ∷ [];
  answered_at = elim rt.answered_at [ none ↦ some t | some s ↦ some s ];
  video_started_at = if is_audio rt.rec.session_type then rt.video_started_at else some t;
  active_agent = agent_id;
  sip_offer_cancel = false;
  offered_agent = "";
}

module _ (env : Env) where
  unfoldable pub agent_leg : RuntimeCall → String → String → ℕ → CallLegRecord
  agent_leg rt fresh agent_id t = record {
    kind = "";
    leg_state = "";
    participant_ref = "";
    id = if rt.sip_offer_leg == "" then fresh else rt.sip_offer_leg;
    call_id = env.call_id;
    role = Ports.agent;
    agent_id = some agent_id;
    created_at = t;
  }

  -- The waiting sound stops; after a queue the mixer takes the agent in at once.
  unfoldable pub switch_audio : RuntimeCall → String → Exec (Unit {0})
  switch_audio rt agent_id =
      if consulting rt agent_id
      then perform env Effect.stop_injected_audio
      else if is_some rt.rec.queue_id
      then (do
        ignore (perform env Effect.stop_injected_audio)
        perform env Effect.begin_queue_answer_handoff)
      else perform env Effect.stop_injected_audio

  -- The calls of ports that come before the live call is changed.
  unfoldable pub prepare_answer : RuntimeCall → CallLegRecord → String → Exec (Unit {0})
  prepare_answer rt leg agent_id = do
    insert_leg env leg
    perform env (Effect.create_room rt.rec.session_type (not (is_audio rt.rec.session_type)))
    switch_audio rt agent_id
    set_agent_state env agent_id agent_ringing on_call "answer"

  unfoldable pub finish_answer : Bool → String → ℕ → Exec (Unit {0})
  finish_answer consult agent_id t =
      if consult
      then (do
        transition env held
        cdr_upsert env "answered"
        publish_call env "call.consulting" agent_id
            (call_id_pair env ∷ ("agent_id", text agent_id) ∷ []))
      else (do
        transition env active
        cdr_upsert env "answered"
        publish_call env "call.answered" agent_id
            (call_id_pair env ∷ ("agent_id", text agent_id) ∷ ("answered_at", time t) ∷ []))

  unfoldable pub accept_offer : RuntimeCall → String → Exec (Unit {0})
  accept_offer rt agent_id = do
    t ← now env
    fresh ← fresh_id env
    prepare_answer rt (agent_leg rt fresh agent_id t) agent_id
    modify (λ r. answered_call r (agent_leg rt fresh agent_id t) agent_id t)
    finish_answer (consulting rt agent_id) agent_id t

  unfoldable pub answer_checked : Ctx → String → RuntimeCall → Exec (Unit {0})
  answer_checked ctx agent_id rt =
      if already_answered rt agent_id
      then pure tt
      else if not_ringing rt agent_id
      then fail (api (conflict_error "当前不是振铃状态" "CALL_NOT_RINGING"))
      else if not (rt.offered_agent == agent_id)
      then fail (api (forbidden_error "不是当前振铃坐席"))
      else if not (rt.sip_offer_leg == "") && not ctx.sip_answer
      then fail (api (conflict_error "请在 SIP 话机接听" ""))
      else accept_offer rt agent_id

  unfoldable pub do_answer : Ctx → String → Exec (Unit {0})
  do_answer ctx agent_id =
      with_live (fail (api (not_found_error "通话不存在"))) (answer_checked ctx agent_id)

  -- A consultation that the target does not take goes back to the call as it was.
  unfoldable pub resume_from_consult : RuntimeCall → String → Exec (Unit {0})
  resume_from_consult rt reason = do
    ignore (perform env (Effect.set_hold (customer_leg rt) false))
    modify (λ r. record r { consult_from = ""; transfer_mode = ""; held = false })
    ignore (transition env active)
    publish_call env "call.unhold" rt.consult_from (call_id_pair env ∷ ("reason", text reason) ∷ [])

  unfoldable pub decline_offered : ℕ → String → RuntimeCall → Exec (Unit {0})
  decline_offered fuel agent_id rt = do
    ignore (set_agent_state env agent_id agent_ringing idle "decline")
    emit_acd_offer_failed env agent_id rt.rec.queue_id "decline"
    modify (λ r. record r { offered_agent = "" })
    if not (rt.consult_from == "")
        then resume_from_consult rt "consult_declined"
        else (do transition env queued; try_dispatch env fuel)

  unfoldable pub do_decline : ℕ → String → Exec (Unit {0})
  do_decline fuel agent_id = with_live (fail (api (not_found_error "通话不存在"))) λ rt.
      if not (is_ringing rt.rec.state) || not (rt.offered_agent == agent_id)
      then fail (api (conflict_error "当前不是该坐席的振铃" "CALL_NOT_RINGING"))
      else decline_offered fuel agent_id rt
