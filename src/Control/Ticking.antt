-- ===== src/Control/Ticking.antt =====
-- The clock of a call: `tickCall` of control/service_tick.go, and the end of a SIP device's ringing, the
-- goroutine of control/sip_device.go.
pub mod Keeping
use open_voip.Base.{
  ℕ, ◌-◌, ◌*◌, ◌=?◌, ltb, String, ◌==◌, if◌then◌else◌, Bool, true, false, not, ◌&&◌, is_some, none,
  some, [], ◌∷◌,
}
use open_voip.Errs.{Err}
use open_voip.Ports.{
  CallRecord, active, agent_ringing, any, busy, error, idle, queued, text, timeout,
}
use open_voip.Control.State.{Effect, Env, Result, RuntimeCall, err}
use open_voip.Control.Exec.{
  Exec, attempt, ignore, modify, perform, pure, when, with_live, with_result, ◌>>=◌, ◌>>◌,
}
use open_voip.Control.Dispatch.{is_queued, try_dispatch}
use open_voip.Control.Events.{
  call_id_pair, customer_leg, emit_acd_offer_failed, publish_call, remove_live_leg, set_agent_state,
}
use open_voip.Control.Failure.{apply_failure_detail, fail_call}
use open_voip.Control.Hangup.{do_hangup}
use open_voip.Control.Ivr.Inputs.{is_ivr_state, tick_ivr}
use open_voip.Control.Mutation.{answer}
use open_voip.Control.Offer.{is_ringing, resume_from_consult}
use open_voip.Control.Queueing.{overflow, publish_position}
use open_voip.Control.Transition.{transition}

-- `offerTimeout`, in milliseconds.
abbrev pub offer_timeout : ℕ
offer_timeout = 30 * 1000

-- The order in which `tick` serves the queued calls, the comparison of its `sort.Slice`.
unfoldable pub served_before : RuntimeCall → RuntimeCall → Bool
served_before a b =
    if a.rec.priority =? b.rec.priority
    then ltb a.queued_at b.queued_at
    else ltb b.rec.priority a.rec.priority

unfoldable pub rings_too_long : ℕ → RuntimeCall → Bool
rings_too_long t rt = elim rt.offer_at [ none ↦ false | some since ↦ ltb offer_timeout (t - since) ]

-- The offer of the device that was dialled still stands.
unfoldable pub device_offered : String → String → RuntimeCall → Bool
device_offered agent_id leg_id rt =
    is_ringing rt.rec.state && rt.offered_agent == agent_id && rt.sip_offer_leg == leg_id

module _ (env : Env) (meta : CallRecord → String → String → String → String) (fuel : ℕ) where
  unfoldable pub tick_queued : ℕ → RuntimeCall → Exec (Unit {0})
  tick_queued t rt =
      if ltb rt.max_wait (t - rt.queued_at)
      then (do
        taken ← overflow env fuel
        if taken then pure tt else ignore (do_hangup env meta timeout))
      else (do publish_position env; ignore (try_dispatch env fuel))

  -- The offer has rung too long.
  unfoldable pub withdraw_offer : RuntimeCall → Exec (Unit {0})
  withdraw_offer rt = do
    when (not (rt.offered_agent == "")) do
      ignore (set_agent_state env rt.offered_agent agent_ringing idle "offer_timeout")
      emit_acd_offer_failed env rt.offered_agent rt.rec.queue_id "offer_timeout"
    modify (λ r. record r { offered_agent = "" })
    if not (rt.consult_from == "")
        then ignore (resume_from_consult env rt "consult_timeout")
        else do ignore (transition env queued); ignore (try_dispatch env fuel)

  -- A device is told to stop, and its goroutine goes on from there.
  unfoldable pub tick_ringing : ℕ → RuntimeCall → Exec (Unit {0})
  unfolding rings_too_long
  tick_ringing t rt = if not (rings_too_long t rt) then pure tt else do
    when rt.sip_offer_cancel (ignore (perform env Effect.cancel_sip_offer))
    if rt.sip_offer_cancel && not (rt.sip_offer_leg == "") then pure tt else withdraw_offer rt

  -- `tickCall`, with the time that the tick began.
  unfoldable pub tick_call : ℕ → Exec (Unit {0})
  tick_call t = with_live (pure tt) λ rt.
      if is_queued rt.rec.state
      then tick_queued t rt
      else if is_ivr_state rt.rec.state
      then tick_ivr env meta fuel
      else if is_ringing rt.rec.state
      then tick_ringing t rt
      else pure tt

  unfoldable pub device_answer : String → Exec (Unit {0})
  device_answer agent_id =
      answer env (record { expected_version = 0; idempotency = ""; sip_answer = true }) agent_id

  unfoldable pub back_to_caller : String → RuntimeCall → Exec (Unit {0})
  back_to_caller leg_id rt = do
    ignore (perform env (Effect.set_hold (customer_leg rt) false))
    remove_live_leg leg_id
    modify (λ r. record r {
      active_agent = rt.consult_from;
      consult_from = "";
      transfer_mode = "";
      held = false;
    })
    ignore (transition env active)
    ignore (
        publish_call env "call.unhold" rt.consult_from
          (call_id_pair env ∷ ("reason", text "consult_device_failed") ∷ []))

  unfoldable pub after_device_failure : String → RuntimeCall → Exec (Unit {0})
  after_device_failure leg_id rt =
      if not (rt.consult_from == "")
      then back_to_caller leg_id rt
      else if is_some rt.rec.queue_id
      then ignore (transition env queued)
      else ignore (fail_call env meta error "SIP_DEVICE_UNAVAILABLE" "SIP 话机不可用或未注册")

  unfoldable pub device_failed : String → String → Err → Exec (Unit {0})
  device_failed agent_id leg_id e = do
    apply_failure_detail e
    ignore (perform env (Effect.leave_room leg_id))
    ignore (set_agent_state env agent_id any busy "sip_unavailable")
    modify (λ r. record r { offered_agent = ""; sip_offer_leg = ""; sip_offer_cancel = false })
    with_live (pure tt) (after_device_failure leg_id)
    ignore (publish_call env "call.device_failed" agent_id (call_id_pair env ∷ []))

  -- The goroutine of `ringDevice`, from the answer of `OriginateSIP` on.
  unfoldable pub device_done : String → String → Result (Unit {0}) → Exec (Unit {0})
  unfolding device_offered
  device_done agent_id leg_id outcome = do
    valid ← with_live (pure false) λ rt. pure (device_offered agent_id leg_id rt)
    if not valid then ignore (perform env (Effect.leave_room leg_id)) else do
      answered ← with_result outcome (λ e. pure (err e)) (λ _. attempt (device_answer agent_id))
      with_result answered (device_failed agent_id leg_id) λ _. pure tt
