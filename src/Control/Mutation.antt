-- ===== src/Control/Mutation.antt =====
-- A request to the control service: `runIdempotentMutation` of control/command_idempotency.go,
-- `guardExpectedVersion` of control/version_guard.go, and the public methods that they stand before.
pub mod Keeps
pub mod Retry
use Prim.Native.String.{◌++◌ as str_append}
use open_voip.Base.{
  ℕ, zero, ◌=?◌, ltb, String, ◌==◌, if◌then◌else◌, Bool, true, false, not, ◌||◌, ◌&&◌, Option, none,
  some, List, [], ◌∷◌,
}
use open_voip.Errs.{Err, api, as_api_error, conflict_error, version_conflict_error}
use open_voip.Ports.{CallRecord, CallState, HangupReason, TransferRequest}
use open_voip.CallStore.{get_call}
use open_voip.Commands.{accept, mark_running, complete}
use open_voip.Control.State.{
  Cell, CommandRow, CommandStatus, Ctx, Effect, Env, Result, accepted, failed, running, succeeded,
  unknown,
}
use open_voip.Control.Exec.{
  Exec, pure, fail, gets, with_live, with_option, with_result, ignore, attempt, perform, ◌>>=◌,
  ◌>>◌,
}
use open_voip.Control.Offer.{do_answer, do_decline}
use open_voip.Control.Features.{do_hold, downgrade_video}
use open_voip.Control.Transfer.{do_transfer, complete_consult}
use open_voip.Control.Hangup.{do_hangup, reason_text}

unfoldable pub is_status : CommandStatus → CommandStatus → Bool
is_status succeeded succeeded = true
is_status failed failed = true
is_status _ _ = false

module _ (env : Env) where
  -- The answer to a key that is known: the command is not run again.
  unfoldable pub replayed : CommandRow → Exec (Unit {0})
  replayed row =
      if is_status succeeded row.status
      then pure tt
      else if is_status failed row.status
      then (if row.error_code == ""
          then fail (api (conflict_error "命令此前已失败" ""))
          else fail (api (conflict_error row.error_code row.error_code)))
      else fail (api (conflict_error "命令仍在执行" ""))

  error_code : Err → String
  error_code e = (as_api_error e).code

  unfoldable pub run_command : CommandRow → Exec (Unit {0}) → Exec (Unit {0})
  unfolding error_code
  run_command row run = do
    mark_running env row.id
    done ← attempt run
    with_result done (λ e. do ignore (complete env row.id failed (error_code e)); fail e)
        λ _. ignore (complete env row.id succeeded "")

  unfoldable pub accepted_command : Exec (Unit {0}) → CommandRow × Bool → Exec (Unit {0})
  accepted_command run (row, true) = replayed row
  accepted_command run (row, false) = run_command row run

  unfoldable pub run_idempotent : Ctx → String → String → Exec (Unit {0}) → Exec (Unit {0})
  run_idempotent ctx typ hash run =
      if ctx.idempotency == "" || not env.has_commands
      then run
      else (do command ← accept env ctx.idempotency hash typ; accepted_command run command)

  -- The version that `GetCall` shows: the live call's, or the row's.
  unfoldable pub view_version : Exec ℕ
  view_version = with_live (do rec ← get_call env; pure rec.version) λ rt. pure rt.rec.version

  unfoldable pub guard_expected_version : Ctx → Exec (Unit {0})
  guard_expected_version ctx = if ctx.expected_version =? 0 then pure tt else do
    version ← view_version
    if version =? ctx.expected_version
        then pure tt
        else fail (api (version_conflict_error "通话版本已变化，请刷新后重试"))

  -- The public methods, under the lock of the call.
  unfoldable pub answer : Ctx → String → Exec (Unit {0})
  answer ctx agent_id = do
    guard_expected_version ctx
    run_idempotent ctx "answer" (str_append "answer|" agent_id) (do_answer env ctx agent_id)

  unfoldable pub decline : ℕ → Ctx → String → Exec (Unit {0})
  decline fuel ctx agent_id = do
    guard_expected_version ctx
    run_idempotent ctx "decline" (str_append "decline|" agent_id) (do_decline env fuel agent_id)

  unfoldable pub hold : Ctx → Bool → Exec (Unit {0})
  hold ctx on = do
    guard_expected_version ctx
    run_idempotent ctx "hold" (if on then "hold|true" else "hold|false") (do_hold env on)

  -- `transferRequestHash` is the digest of the standard library: an argument.
  unfoldable pub transfer : ℕ → (TransferRequest → String) → Ctx → TransferRequest → Exec (Unit {0})
  transfer fuel digest ctx req = do
    guard_expected_version ctx
    run_idempotent ctx "transfer" (digest req) (do_transfer env fuel req)

  unfoldable pub complete_transfer : Ctx → Exec (Unit {0})
  complete_transfer ctx = do guard_expected_version ctx; complete_consult env

  -- `DowngradeVideo` with its version check.
  unfoldable pub downgrade : Ctx → Exec (Unit {0})
  downgrade ctx = do guard_expected_version ctx; downgrade_video env

  is_replay : CommandRow × Bool → Bool
  is_replay (row, known) = known && is_status succeeded row.status

  -- `Hangup` keeps its command running where it fails, so that it may be tried again.
  unfoldable pub hangup :
      (CallRecord → String → String → String → String) → Ctx → HangupReason → Exec (Unit {0})
  unfolding is_replay
  hangup meta ctx reason = do
    guard_expected_version ctx
    if ctx.idempotency == "" || not env.has_commands then do_hangup env meta reason else do
      command ← accept env ctx.idempotency (str_append "hangup|" (reason_text reason)) "hangup"
      if is_replay command then pure tt else do
        ignore (mark_running env command.0.id)
        do_hangup env meta reason
        ignore (complete env command.0.id succeeded "")
