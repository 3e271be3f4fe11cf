-- ===== src/Control/Transition.antt =====
-- `transition` of control/service.go: the one way in which the state of a call changes.

pub mod Laws
pub mod Written
use open_voip.Base.{ℕ, ◌+◌, String, if◌then◌else◌, Bool, true, false, not, ◌||◌, ◌&&◌}
use open_voip.Errs.{Err, api, conflict_error, not_found_error}
use open_voip.Ports.{CallRecord, CallState, active, ivr, queued, ended}
use open_voip.CallStore.{update_call}
use open_voip.Control.State.{Effect, Env, Result, RuntimeCall}
use open_voip.Control.Exec.{
  Exec, pure, fail, with_live, with_result, ignore, attempt, modify, when, perform, now, ◌>>=◌,
  ◌>>◌,
}
use open_voip.Control.Recording.{begin_recording_if_needed}

unfoldable pub is_ended : CallState → Bool
is_ended ended = true
is_ended _ = false

-- The states that a recording may begin in.
records : CallState → Bool
records active = true
records ivr = true
records queued = true
records _ = false

is_active : CallState → Bool
is_active active = true
is_active _ = false

-- `prev != state`.
unfoldable pub same_state : CallState → CallState → Bool
same_state CallState.created CallState.created = true
same_state ivr ivr = true
same_state queued queued = true
same_state CallState.ringing CallState.ringing = true
same_state active active = true
same_state CallState.held CallState.held = true
same_state CallState.transferring CallState.transferring = true
same_state ended ended = true
same_state _ _ = false

-- The record that a transition writes: the live call's own fields, one version on.
unfoldable pub next_record : RuntimeCall → CallState → ℕ → CallRecord
next_record rt state t = record rt.rec {
  caller = rt.caller;
  callee = rt.callee;
  agent_id = rt.active_agent;
  offered_agent = rt.offered_agent;
  answered_at = rt.answered_at;
  state = state;
  version = rt.rec.version + 1;
  updated_at = t;
}

module _ (env : Env) where
  -- What follows a transition that was written.
  unfoldable pub after_transition : CallState → CallState → Exec (Unit {0})
  unfolding same_state records is_active
  after_transition prev state = do
    when (not (same_state prev state) && records state) (ignore (begin_recording_if_needed env))
    when (not (same_state prev state) && is_active state)
        (ignore (perform env (Effect.set_recording_mix_inbound true)))

  -- The memory is written first, and is put back if the database refuses.
  unfoldable pub record_state : RuntimeCall → CallState → Exec (Unit {0})
  record_state rt state = do
    t ← now env
    modify (λ r. record r { rec = next_record rt state t })
    written ← attempt (update_call env (next_record rt state t))
    with_result written (λ e. do modify (λ r. record r { rec = rt.rec }); fail e) λ _. pure tt

  unfoldable pub guarded_state : RuntimeCall → CallState → Exec (Unit {0})
  unfolding is_ended
  guarded_state rt state =
      if is_ended rt.rec.state && not (is_ended state)
      then fail (api (conflict_error "通话已结束" ""))
      else record_state rt state

  unfoldable pub write_state : CallState → RuntimeCall → Exec (Unit {0})
  write_state state rt = do guarded_state rt state; after_transition rt.rec.state state

  unfoldable pub transition : CallState → Exec (Unit {0})
  unfolding write_state
  transition state = with_live (fail (api (not_found_error "通话不存在"))) (write_state state)
