-- ===== src/Control/Hangup.antt =====
-- Ending a call: `Hangup` of control/service.go, `hangupPersistOnly` of control/recovery.go, and the
-- payloads of the events that they send.
pub mod Ending
pub mod Releasing
use open_voip.Base.{
  ℕ, ◌+◌, ◌-◌, String, ◌==◌, ◌=?◌, if◌then◌else◌, Bool, true, false, not, ◌||◌, ◌&&◌, is_some,
  Option, none, some, List, [], ◌∷◌, ◌++◌,
}
use open_voip.Errs.{Err, api, as_api_error, not_found_error}
use open_voip.Ports.{
  AgentState, CallRecord, CallState, CdrWriteRequest, HangupReason, RecordingMeta, Value, acw,
  agent_ringing, ended, error, idle, num, on_call, ringing, text, texts, timeout, abandon,
}
use open_voip.CallStore.{get_call, update_call}
use open_voip.Control.State.{Cell, Effect, Env, Result, RuntimeCall}
use open_voip.Control.State
use open_voip.Control.Exec.{
  Exec, pure, fail, gets, asks, request, with_live, with_option, with_result, ignore, attempt,
  modify, when, perform, now, ◌>>=◌, ◌>>◌,
}
use open_voip.Control.Events.{
  deref, fresh_ids, leg_agents, publish_call, call_id_pair, set_agent_state, cdr_upsert,
  set_call_end_detail,
}
use open_voip.Control.Recording.{stop_recording}
use open_voip.Control.Transition.{is_ended, transition}
use open_voip.Control.Offer.{is_ringing, is_talking}

unfoldable pub is_error : HangupReason → Bool
is_error error = true
is_error _ = false

unfoldable pub reason_text : HangupReason → String
reason_text HangupReason.normal = "normal"
reason_text timeout = "timeout"
reason_text abandon = "abandon"
reason_text error = "error"
reason_text HangupReason.transfer = "transfer"

unfoldable pub is_transferring : CallState → Bool
is_transferring CallState.transferring = true
is_transferring _ = false

-- The agents of the call go to their after-call work.
unfoldable pub to_acw : RuntimeCall → Bool
unfolding is_talking is_transferring
to_acw rt = is_talking rt.rec.state || is_transferring rt.rec.state || not (rt.consult_from == "")

-- The state that an offered agent is released from, and the state that it is released to.
unfoldable pub offered_states : RuntimeCall → AgentState × AgentState
unfolding is_ringing to_acw
offered_states rt =
    if is_ringing rt.rec.state
    then (agent_ringing, idle)
    else (on_call, if to_acw rt then acw else idle)

unfoldable pub seen_offered : RuntimeCall → List String
seen_offered rt = if rt.offered_agent == "" then [] else rt.offered_agent ∷ []

-- The agents that the loop over the legs releases.
unfoldable pub released_legs : RuntimeCall → List String
unfolding fresh_ids leg_agents seen_offered
released_legs rt = fresh_ids (seen_offered rt) (leg_agents rt.legs)

-- An unanswered call is abandoned, or failed where an error ended it.
unfoldable pub hangup_result : Option ℕ → HangupReason → String
unfolding is_error
hangup_result (some _) reason = "answered"
hangup_result none reason = if is_error reason then "failed" else "abandoned"

unfoldable pub delete_live : Exec (Unit {0})
delete_live c = (State.ok tt, record c { live = none })

module _ (env : Env) where
  unfoldable pub release_each : AgentState → List String → Exec (Unit {0})
  release_each to [] = pure tt
  release_each to (a ∷ as') = do
    ignore (set_agent_state env a on_call to "hangup")
    release_each to as'

  unfoldable pub release_agents : RuntimeCall → Exec (Unit {0})
  release_agents rt = do
    when (not (rt.offered_agent == "")) (
        ignore (
          set_agent_state env rt.offered_agent (offered_states rt).0 (offered_states rt).1
            "hangup"))
    release_each (if to_acw rt then acw else idle) (released_legs rt)

  unfoldable pub stopped_payload : String → RecordingMeta → List (String × Value)
  stopped_payload id meta =
      (call_id_pair env
        ∷ ("recording_id", text id)
        ∷ ("file_path", text meta.file_path)
        ∷ ("file_size", num meta.file_size)
        ∷ ("recording_semantics", text meta.recording_semantics)
        ∷ ("channels", num meta.channels)
        ∷ ("duration_samples", num meta.duration_samples)
        ∷ ("status", text meta.status)
        ∷ ("failure_reason", text meta.failure_reason)
        ∷ [])
      ++ (if meta.sample_rate_hz =? 0 then [] else ("sample_rate_hz", num meta.sample_rate_hz) ∷ [])
      ++ elim meta.leg_paths [ [] ↦ [] | p ∷ ps ↦ ("leg_paths", texts (p ∷ ps)) ∷ [] ]

  unfoldable pub report_recording : Exec (Unit {0})
  unfolding stopped_payload
  report_recording = with_live (pure tt) λ rt. if rt.recording_id == "" then pure tt else do
    meta ← attempt (asks (λ l. env.recording_info l rt.recording_id))
    with_result meta (λ _. pure tt)
        λ m. ignore (publish_call env "recording.stopped" "" (stopped_payload rt.recording_id m))

  unfoldable pub report_bridges : List String → Exec (Unit {0})
  report_bridges [] = pure tt
  report_bridges (b ∷ bs) = do
    ignore (publish_call env "bridge.ended" "" (call_id_pair env ∷ ("bridge_id", text b) ∷ []))
    report_bridges bs

  unfoldable pub end_bridges : Exec (Unit {0})
  end_bridges = when env.has_bridges do
    ids ← attempt (request env Effect.end_bridges env.ended_bridges)
    with_result ids (λ _. pure tt) report_bridges

  ended_payload : RuntimeCall → HangupReason → String → List (String × Value)
  unfolding reason_text
  ended_payload rt reason result =
      (call_id_pair env ∷ ("reason", text (reason_text reason)) ∷ ("result", text result) ∷ [])
      ++ (if rt.end_message == "" then [] else ("message", text rt.end_message) ∷ [])
      ++ (if rt.end_code == "" then [] else ("error_code", text rt.end_code) ∷ [])

  -- The call is over in the database: the rest only tells the others, and forgets it.
  unfoldable pub close_ended : String → HangupReason → String → Exec (Unit {0})
  unfolding ended_payload
  close_ended offered reason result = do
    end_bridges
    ignore (perform env Effect.close_room)
    with_live (pure tt)
        λ rt. ignore (publish_call env "call.ended" offered (ended_payload rt reason result))
    delete_live

  -- `meta` is `mergeCallEndIntoMetadata`, whose JSON is the standard library's.
  unfoldable pub end_live :
      (CallRecord → String → String → String → String)
      → HangupReason
      → RuntimeCall
      → Exec (Unit {0})
  end_live meta reason rt = do
    when rt.sip_offer_cancel do
      ignore (perform env Effect.cancel_sip_offer)
      modify (λ r. record r { sip_offer_cancel = false })
    release_agents rt
    stop_recording env
    report_recording
    t ← now env
    modify (λ r. record r { rec = record r.rec { ended_at = some t } })
    cdr_upsert env (hangup_result rt.answered_at reason)
    modify (λ r. record r {
      cdr_result = hangup_result rt.answered_at reason;
      rec = record r.rec {
        metadata = meta r.rec r.end_message r.end_code (hangup_result rt.answered_at reason);
      };
    })
    transition env ended
    close_ended rt.offered_agent reason (hangup_result rt.answered_at reason)

  -- The record of a call that has no live entry, as it is written when the call ends.
  unfoldable pub ended_record : CallRecord → ℕ → CallRecord
  ended_record rec t = record rec { state = ended; ended_at = some t; updated_at = t }

  persisted_cdr : CallRecord → String → CdrWriteRequest
  persisted_cdr rec result = record {
    call_id = env.call_id;
    direction = rec.direction;
    queue_id = deref rec.queue_id;
    agent_id = rec.agent_id;
    caller = rec.caller;
    callee = rec.callee;
    session_type = rec.session_type;
    result = result;
    started_at = rec.created_at;
    answered_at = rec.answered_at;
    ended_at = rec.ended_at;
    video_started_at = none;
    video_upgrade_ok = false;
    screen_share_count = 0;
  }

  persisted_payload : HangupReason → String → List (String × Value)
  unfolding reason_text is_error
  persisted_payload reason result =
      (call_id_pair env ∷ ("reason", text (reason_text reason)) ∷ ("result", text result) ∷ [])
      ++ (if result == "failed" && is_error reason
          then ("message", text "通话异常结束") ∷ ("error_code", text "CALL_STATE_ERROR") ∷ []
          else [])

  unfoldable pub release_persisted : CallRecord → Exec (Unit {0})
  release_persisted rec = do
    when (not (rec.agent_id == "")) (
        ignore (
          set_agent_state env rec.agent_id
            (if is_some rec.answered_at then on_call else agent_ringing) idle "hangup"))
    when (not (rec.offered_agent == "") && not (rec.offered_agent == rec.agent_id))
        (ignore (set_agent_state env rec.offered_agent agent_ringing idle "hangup"))

  -- `hangupPersistOnly`, with the agents, the billing and the media ports there.
  unfoldable pub hangup_persist_only : CallRecord → HangupReason → Exec (Unit {0})
  unfolding persisted_cdr persisted_payload
  hangup_persist_only rec reason = if is_ended rec.state then pure tt else do
    t ← now env
    release_persisted rec
    update_call env (ended_record rec t)
    ignore (
        perform env (
          Effect.upsert_cdr
            (persisted_cdr (ended_record rec t) (hangup_result rec.answered_at reason))))
    ignore (perform env Effect.close_room)
    ignore (
        publish_call env "call.ended" rec.agent_id
          (persisted_payload reason (hangup_result rec.answered_at reason)))

  -- A call without a live entry is ended in the database alone.
  unfoldable pub end_persisted : HangupReason → Exec (Unit {0})
  end_persisted reason = do
    rec ← get_call env
    if is_ended rec.state then pure tt else hangup_persist_only rec reason

  -- `Hangup` behind its version check and its command.
  unfoldable pub do_hangup :
      (CallRecord → String → String → String → String) → HangupReason → Exec (Unit {0})
  do_hangup meta reason =
      with_live (end_persisted reason)
        λ rt. if is_ended rt.rec.state then pure tt else end_live meta reason rt
