-- ===== src/Control/Ticking/Keeping.antt =====
-- The clock of a call and the answer of a SIP device keep every invariant of `Control.Invariant`:
-- control/service_tick.go and control/sip_device.go.
use open_voip.Base.{ℕ, String}
use open_voip.Errs.{Err}
use open_voip.Ports.{CallRecord}
use open_voip.Control.State.{Cell, Env, Result, RuntimeCall}
use open_voip.Control.Exec.Keeps.{Keeps, keeps_rules}
use open_voip.Control.Invariant.{IsServed}
use open_voip.Control.Ivr.InputKeeping.{Keeps-tick_ivr}
use open_voip.Control.Ivr.Keeping.{Keeps-apply_failure_detail, Keeps-fail_call}
use open_voip.Control.Keeping.{
  Keeps-do_answer, Keeps-overflow, Keeps-publish_position, Keeps-resume_from_consult,
  Keeps-try_dispatch, agents, failed_offers, leaves, publish,
}
use open_voip.Control.Queueing.{publish_position}
use open_voip.Control.Ivr.Inputs.{tick_ivr}
use open_voip.Control.Mutation.{answer}
use open_voip.Control.Mutation.Keeps.{Keeps-guarded}
use open_voip.Control.Ticking.{
  after_device_failure, back_to_caller, device_answer, device_done, device_failed, tick_call,
  tick_queued, tick_ringing, withdraw_offer,
}

module _ {P : Cell → Type 0} (env : Env) (s : IsServed env P)
    (meta : CallRecord → String → String → String → String) (fuel : ℕ) where
  positions : Keeps P (publish_position env)
  positions = Keeps-publish_position env s.kept

  ivr_ticks : Keeps P (tick_ivr env meta fuel)
  ivr_ticks = Keeps-tick_ivr env s meta fuel

  Keeps-tick_queued : (t : ℕ) (rt : RuntimeCall) → Keeps P (tick_queued env meta fuel t rt)
  unfolding tick_queued
  Keeps-tick_queued t rt =
      search
        (keeps_rules, s.ends, Keeps-overflow env s.kept, positions, Keeps-try_dispatch env s.kept)
        depth 20

  Keeps-withdraw_offer : (rt : RuntimeCall) → Keeps P (withdraw_offer env meta fuel rt)
  unfolding withdraw_offer
  Keeps-withdraw_offer rt =
      search
        (
          keeps_rules,
          s.kept.framed.mods,
          s.kept.transitions,
          agents env s.kept,
          failed_offers env s.kept,
          Keeps-resume_from_consult env s.kept,
          Keeps-try_dispatch env s.kept,
        )
        depth 20

  Keeps-tick_ringing : (t : ℕ) (rt : RuntimeCall) → Keeps P (tick_ringing env meta fuel t rt)
  unfolding tick_ringing
  Keeps-tick_ringing t rt = search (keeps_rules, s.kept.framed.logs, Keeps-withdraw_offer) depth 12

  pub Keeps-tick_call : (t : ℕ) → Keeps P (tick_call env meta fuel t)
  unfolding tick_call
  Keeps-tick_call t =
      search (keeps_rules, Keeps-tick_queued, ivr_ticks, Keeps-tick_ringing) depth 12

  Keeps-device_answer : (agent_id : String) → Keeps P (device_answer env meta fuel agent_id)
  unfolding device_answer answer
  Keeps-device_answer agent_id =
      Keeps-guarded env s.kept.framed.logs s.tables _ (Keeps-do_answer env s.kept _ agent_id) _ _ _

  Keeps-back_to_caller :
      (leg_id : String) (rt : RuntimeCall) → Keeps P (back_to_caller env meta fuel leg_id rt)
  unfolding back_to_caller
  Keeps-back_to_caller leg_id rt =
      search
        (
          keeps_rules,
          s.kept.framed.logs,
          s.kept.framed.mods,
          s.kept.transitions,
          publish env s.kept,
          leaves env s.kept,
        )
        depth 20

  Keeps-after_device_failure :
      (leg_id : String) (rt : RuntimeCall) → Keeps P (after_device_failure env meta fuel leg_id rt)
  unfolding after_device_failure
  Keeps-after_device_failure leg_id rt =
      search (keeps_rules, s.kept.transitions, Keeps-back_to_caller, Keeps-fail_call env s meta)
        depth 12

  Keeps-device_failed :
      (agent_id leg_id : String) (e : Err) → Keeps P (device_failed env meta fuel agent_id leg_id e)
  unfolding device_failed
  Keeps-device_failed agent_id leg_id e =
      search
        (
          keeps_rules,
          s.kept.framed.logs,
          s.kept.framed.mods,
          publish env s.kept,
          agents env s.kept,
          Keeps-after_device_failure,
          Keeps-apply_failure_detail env s meta,
        )
        depth 30 fits 8000

  pub Keeps-device_done :
      (agent_id leg_id : String) (outcome : Result (Unit {0}))
      → Keeps P (device_done env meta fuel agent_id leg_id outcome)
  unfolding device_done
  Keeps-device_done agent_id leg_id outcome =
      search (keeps_rules, s.kept.framed.logs, Keeps-device_answer, Keeps-device_failed) depth 20
