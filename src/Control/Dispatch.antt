-- ===== src/Control/Dispatch.antt =====
-- Ringing an agent: `ringDevice` of control/sip_device.go up to the goroutine it starts, and
-- `tryDispatch` of control/service_tick.go.
use open_voip.Base.{
  ℕ, zero, suc, String, ◌==◌, if◌then◌else◌, Bool, true, false, not, some, List, [], ◌∷◌,
}
use open_voip.Errs.{other}
use open_voip.Ports.{
  CallState, SessionType, Value, agent_ringing, audio, idle, queued, ringing, text, video,
}
use open_voip.Control.State.{Effect, Env, Result, RuntimeCall}
use open_voip.Control.Exec.{
  Exec, pure, fail, asks, with_live, with_option, with_result, ignore, attempt, modify, perform,
  request, now, fresh_id, ◌>>=◌, ◌>>◌,
}
use open_voip.Control.Events.{
  deref, publish_call, call_id_pair, set_agent_state, emit_acd_offer_failed,
}
use open_voip.Control.Transition.{transition}

unfoldable pub session_text : SessionType → String
session_text audio = "audio"
session_text video = "video"
session_text SessionType.mixed = "mixed"

unfoldable pub is_video : SessionType → Bool
is_video video = true
is_video _ = false

unfoldable pub is_audio : SessionType → Bool
is_audio audio = true
is_audio _ = false

unfoldable pub is_queued : CallState → Bool
is_queued queued = true
is_queued _ = false

module _ (env : Env) where
  -- A browser agent rings by event alone; a SIP device is dialled on a thread of its own, whose start
  -- cannot fail and whose outcome is not waited for.
  unfoldable pub ring_device : String → Exec (Unit {0})
  ring_device agent_id = do
    info ← asks (λ l. env.agent_by_id l agent_id)
    if not (info.terminal_type == "sip") then pure tt else do
      perform env Effect.prepare_sip
      perform env (Effect.create_room audio false)
      perform env (Effect.preflight_originate_sip info.sip_username "@device")
      leg_id ← fresh_id env
      modify (λ rt. record rt { sip_offer_leg = leg_id; sip_offer_cancel = true })
      ignore (perform env (Effect.originate_sip leg_id info.sip_username))

  ring_payload : RuntimeCall → String → List (String × Value)
  unfolding session_text deref
  ring_payload rt agent_id =
      call_id_pair env
      ∷ ("queue_id", text (deref rt.rec.queue_id))
      ∷ ("queue_name", text rt.queue_name)
      ∷ ("caller", text rt.caller)
      ∷ ("session_type", text (session_text rt.rec.session_type))
      ∷ ("agent_id", text agent_id)
      ∷ []

  unfoldable pub announce_ringing : String → Exec (Unit {0})
  unfolding ring_payload
  announce_ringing agent_id = with_live (pure tt) λ rt. do
    ignore (publish_call env "call.ringing" agent_id (ring_payload rt agent_id))
    ignore (publish_call env "leg.ringing" agent_id (ring_payload rt agent_id))

  -- The device could not be rung: the agent is free again and the call waits on.
  unfoldable pub ring_failed : String → Exec (Unit {0})
  ring_failed agent_id = with_live (pure tt) λ rt. do
    ignore (set_agent_state env agent_id agent_ringing idle "ring_failed")
    emit_acd_offer_failed env agent_id rt.rec.queue_id "ring_failed"
    ignore (transition env queued)

  -- The agent was chosen while the call still waits: it is offered and rings.
  unfoldable pub offer : String → Exec (Result (Unit {0}))
  offer agent_id = do
    t ← now env
    modify (λ rt. record rt { offered_agent = agent_id; offer_at = some t })
    transition env ringing
    attempt (ring_device agent_id)

  -- The answer of the dispatcher, for a call that it may have lost meanwhile; `again` is the
  -- dispatch that follows a device that could not be rung.
  unfoldable pub offered : Exec (Unit {0}) → String → Exec (Unit {0})
  offered again agent_id =
      if agent_id == ""
      then pure tt
      else (let stale = ignore (set_agent_state env agent_id agent_ringing idle "stale_offer") in
          with_live stale λ rt. if not (is_queued rt.rec.state) then stale else (do
            rung ← offer agent_id
            with_result rung (λ _. do ring_failed agent_id; again) λ _. announce_ringing agent_id))

  -- `tryDispatch` calls itself as long as the dispatcher names agents whose devices cannot be rung:
  -- one unit of fuel for each such agent. A dispatch that ends needs only as much.
  unfoldable pub try_dispatch : ℕ → Exec (Unit {0})
  try_dispatch zero = fail (other "fuel")
  try_dispatch (suc fuel) = with_live (pure tt) λ rt.
      if not (is_queued rt.rec.state)
      then pure tt
      else with_option rt.rec.queue_id (pure tt) λ queue. do
        agent_id ←
            request env (Effect.request_agent queue (is_video rt.rec.session_type))
              env.requested_agent
        offered (try_dispatch fuel) agent_id
