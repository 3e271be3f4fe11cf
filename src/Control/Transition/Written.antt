-- ===== src/Control/Transition/Written.antt =====
-- What a transition that succeeds has written, field by field.
use open_voip.Base.{ℕ, ◌+◌, ◌≡◌}
use open_voip.Ports.{CallRecord, CallState}
use open_voip.Control.State.{RuntimeCall}

-- The row `new` in place of `old`, for the live call `rt`: the state that is asked for, one version on, and
-- the fields that the live call has.
pub record IsWritten (rt : RuntimeCall) (state : CallState) (t : ℕ) (old new : CallRecord)
    : Type 0 where
  pub state_is : new.state ≡ state
  pub version_is : new.version ≡ old.version + 1
  pub caller_is : new.caller ≡ rt.caller
  pub callee_is : new.callee ≡ rt.callee
  pub agent_is : new.agent_id ≡ rt.active_agent
  pub offered_is : new.offered_agent ≡ rt.offered_agent
  pub answered_is : new.answered_at ≡ rt.answered_at
  pub queue_is : new.queue_id ≡ rt.rec.queue_id
  pub priority_is : new.priority ≡ rt.rec.priority
  pub session_is : new.session_type ≡ rt.rec.session_type
  pub updated_is : new.updated_at ≡ t
  pub ended_is : new.ended_at ≡ rt.rec.ended_at
  pub same_id : new.id ≡ old.id
  pub same_created : new.created_at ≡ old.created_at
  pub same_config : new.config_version ≡ old.config_version

-- The live call after it: as it was, but for its state and its version.
pub record IsMoved (rt : RuntimeCall) (state : CallState) (new : RuntimeCall) : Type 0 where
  pub state_is : new.rec.state ≡ state
  pub version_is : new.rec.version ≡ rt.rec.version + 1
  pub answered_is : new.answered_at ≡ rt.answered_at
  pub legs_are : new.legs ≡ rt.legs
  pub agent_is : new.active_agent ≡ rt.active_agent
  pub offered_is : new.offered_agent ≡ rt.offered_agent
  pub offer_is : new.offer_at ≡ rt.offer_at
  pub queued_is : new.queued_at ≡ rt.queued_at
  pub flow_is : new.ivr ≡ rt.ivr
  pub held_is : new.held ≡ rt.held
  pub consult_is : new.consult_from ≡ rt.consult_from
