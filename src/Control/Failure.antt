-- ===== src/Control/Failure.antt =====
-- A call that fails: `failCall`, `hangupWithFailure` and their helpers of control/failure.go. They run
-- inside another command, where the hangup meets neither a version nor an idempotency key.
use open_voip.Base.{String, ◌==◌, if◌then◌else◌, not, ◌||◌, [], ◌∷◌, ◌++◌}
use open_voip.Errs.{Err, as_api_error}
use open_voip.Ports.{CallRecord, HangupReason, abandon, error, text, timeout}
use open_voip.Control.State.{Env}
use open_voip.Control.Exec.{Exec, ignore, pure, when, with_live, ◌>>◌}
use open_voip.Control.Events.{call_id_pair, publish_call, set_call_end_detail}
use open_voip.Control.Hangup.{do_hangup, is_error}

unfoldable pub default_end_message : HangupReason → String
default_end_message error = "通话异常结束"
default_end_message timeout = "等待超时"
default_end_message abandon = "呼叫已放弃"
default_end_message _ = ""

-- `applyFailureDetail` of an error that is there.
unfoldable pub apply_failure_detail : Err → Exec (Unit {0})
apply_failure_detail e = set_call_end_detail (as_api_error e).message (as_api_error e).code

-- The detail of an error that has none of its own.
unfoldable pub default_detail : HangupReason → Exec (Unit {0})
default_detail reason =
    when (is_error reason) (set_call_end_detail (default_end_message reason) "CALL_STATE_ERROR")

unfoldable pub ensure_end_message : HangupReason → Exec (Unit {0})
ensure_end_message reason =
    with_live (pure tt) λ rt. if not (rt.end_message == "") then pure tt else default_detail reason

module _ (env : Env) (meta : CallRecord → String → String → String → String) where
  unfoldable pub fail_call : HangupReason → String → String → Exec (Unit {0})
  fail_call reason code message = do
    if not (message == "") || not (code == "")
        then set_call_end_detail message code
        else default_detail reason
    do_hangup env meta reason

  unfoldable pub hangup_with_failure : HangupReason → Err → Exec (Unit {0})
  hangup_with_failure reason e = do
    apply_failure_detail e
    ensure_end_message reason
    do_hangup env meta reason

module _ (env : Env) where
  unfoldable pub emit_command_failed : String → String → String → Exec (Unit {0})
  emit_command_failed code message reason = ignore (
      publish_call env "command.failed" "" (
        (call_id_pair env ∷ ("message", text message) ∷ ("error_code", text code) ∷ [])
        ++ (if reason == "" then [] else ("reason", text reason) ∷ [])))
