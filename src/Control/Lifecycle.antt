-- ===== src/Control/Lifecycle.antt =====
-- A call over any history of requests: which operation comes when, and what the ports answer, is
-- arbitrary.
mod Hangups
use open_voip.Base.{
  Option-cases, inl, inr, ℕ, String, Bool, true, false, ◌≡◌, refl, sym, subst, if◌then◌else◌,
  Option, none, some, List, [], ◌∷◌,
}
use open_voip.Ports.{
  CallRecord, HangupReason, InboundRequest, RecordingPolicy, TransferRequest, ended,
}
use open_voip.CallStore.{get_call, put_row, update_call}
use open_voip.Commands.{
  tell_result, accept, accept_key, add_row, put_commands, mark_running, complete,
}
use open_voip.Control.State.{Cell, CommandRow, CommandStatus, Ctx, Env, Result, RuntimeCall}
use open_voip.Control.Exec.{Exec, fail, gets, ignore, pure, with_option, ◌>>=◌, ◌>>◌}
use open_voip.Control.Exec.Keeps.{
  Keeps, IgnoresLog, Keeps-bind, Keeps-modify, Keeps-pure, Keeps-attempt, Keeps-with_result,
  Keeps-if, Keeps-ignore, Keeps-without_live, keeps_rules,
}
use open_voip.Control.Direct.{
  DirectLegRequest, add_direct_leg, bridge_direct, end_bridge, leave_direct_leg, replace_bridge,
  start_direct_recording, stop_direct_recording,
}
use open_voip.Control.Direct.Keeping.{
  Keeps-add_direct_leg, Keeps-bridge_direct, Keeps-end_bridge, Keeps-leave_direct_leg,
  Keeps-replace_bridge, Keeps-start_direct_recording, Keeps-stop_direct_recording,
}
use open_voip.Control.Frame.{IsQuiet, Keeps-publish_call, Keeps-set_agent_state}
use open_voip.Control.Invariant.{
  IsKept, IsServed, IsOver, IsSynced, IsOver-IsKept, IsSynced-IsKept, Agree, Over,
}
use open_voip.Control.Dispatch.{try_dispatch}
use open_voip.Control.Features.{
  conference_invite, request_video, respond_video, screen_share, supervisor_listen,
}
use open_voip.Control.Ivr.Inputs.{
  begin_ivr, complete_business_action, enter_ivr, on_dtmf, prompt_finished,
}
use open_voip.Control.Ivr.InputKeeping.{
  Keeps-begin_ivr, Keeps-complete_business_action, Keeps-enter_ivr, Keeps-on_dtmf,
  Keeps-prompt_finished,
}
use open_voip.Control.Ticking.{device_done, tick_call}
use open_voip.Control.Ticking.Keeping.{Keeps-device_done, Keeps-tick_call}
use open_voip.Control.Inbound.{start_inbound}
use open_voip.Control.Inbound.Keeping.{Keeps-start_inbound}
use open_voip.Control.Queueing.{overflow}
use open_voip.Control.Hangup.{
  do_hangup, end_live, end_persisted, hangup_persist_only, release_persisted,
}
use open_voip.Control.Transition.{is_ended}
use open_voip.Control.Mutation.{
  accepted_command, answer, complete_transfer, decline, downgrade, guard_expected_version, hangup,
  hold, replayed, run_command, run_idempotent, transfer, view_version,
}
use open_voip.Control.Keeping.{
  Keeps-do_answer, Keeps-do_decline, Keeps-do_hold, Keeps-do_transfer, Keeps-complete_consult,
  Keeps-conference_invite, Keeps-overflow, Keeps-request_video, Keeps-respond_video,
  Keeps-screen_share, Keeps-supervisor_listen, Keeps-try_dispatch, Keeps-end_live,
}
use open_voip.Control.Lifecycle.Hangups.{IsSynced-IsServed, IsOver-IsServed}
use open_voip.Control.Mutation.Keeps.{
  Keeps-accept, Keeps-complete, Keeps-guard, Keeps-guarded, Keeps-mark_running,
  Keeps-run_idempotent,
}

-- The arrival of the call or a request on it, a turn of the clock or of the dispatcher, an event of the media layer, or the
-- answer of a SIP device.
pub data Request : Type 0 where
  arrives : (CallRecord → String → String → String → String) → ℕ → InboundRequest → Request
  answers : Ctx → String → Request
  declines : ℕ → Ctx → String → Request
  holds : Ctx → Bool → Request
  transfers : ℕ → (TransferRequest → String) → Ctx → TransferRequest → Request
  completes_transfer : Ctx → Request
  invites : String → Request
  hangs_up : (CallRecord → String → String → String → String) → Ctx → HangupReason → Request
  dispatches : ℕ → Request
  overflows : ℕ → Request
  requests_video : String → Request
  responds_video : Bool → Request
  downgrades : Ctx → Request
  shares_screen : String → Bool → Request
  listens : String → Request
  adds_leg : DirectLegRequest → Request
  bridges : Ctx → String → String → Request
  replaces_bridge : Ctx → String → String → String → Request
  ends_bridge : String → Request
  leaves_leg : Ctx → String → Request
  starts_recording : RecordingPolicy → Request
  stops_recording : Request
  ticks : (CallRecord → String → String → String → String) → ℕ → ℕ → Request
  presses : (CallRecord → String → String → String → String) → ℕ → String → Request
  ends_prompt : (CallRecord → String → String → String → String) → ℕ → Bool → Request
  begins_flow : (CallRecord → String → String → String → String) → ℕ → Request
  reports_action : (CallRecord → String → String → String → String) → ℕ → String → String → Request
  enters_flow : (CallRecord → String → String → String → String) → ℕ → Ctx → String → Request
  device_ends :
      (CallRecord → String → String → String → String)
      → ℕ
      → String
      → String
      → Result (Unit {0})
      → Request

unfoldable pub serve : Env → Request → Exec (Unit {0})
serve env (arrives meta fuel req) = ignore (start_inbound env meta fuel req)
serve env (answers ctx agent_id) = answer env ctx agent_id
serve env (declines fuel ctx agent_id) = decline env fuel ctx agent_id
serve env (holds ctx on) = hold env ctx on
serve env (transfers fuel digest ctx req) = transfer env fuel digest ctx req
serve env (completes_transfer ctx) = complete_transfer env ctx
serve env (invites target) = conference_invite env target
serve env (hangs_up meta ctx reason) = hangup env meta ctx reason
serve env (dispatches fuel) = try_dispatch env fuel
serve env (overflows fuel) = ignore (overflow env fuel)
serve env (requests_video leg_id) = request_video env leg_id
serve env (responds_video accept) = respond_video env accept
serve env (downgrades ctx) = downgrade env ctx
serve env (shares_screen leg_id on) = screen_share env leg_id on
serve env (listens supervisor) = ignore (supervisor_listen env supervisor)
serve env (adds_leg req) = add_direct_leg env req
serve env (bridges ctx a b) = bridge_direct env ctx a b
serve env (replaces_bridge ctx id a b) = replace_bridge env ctx id a b
serve env (ends_bridge id) = end_bridge env id
serve env (leaves_leg ctx leg_id) = leave_direct_leg env ctx leg_id
serve env (starts_recording policy) = ignore (start_direct_recording env policy)
serve env stops_recording = ignore (stop_direct_recording env)
serve env (ticks meta fuel t) = tick_call env meta fuel t
serve env (presses meta fuel digit) = on_dtmf env meta fuel digit
serve env (ends_prompt meta fuel loop) = prompt_finished env meta fuel loop
serve env (begins_flow meta fuel) = begin_ivr env meta fuel
serve env (reports_action meta fuel action_id outcome) =
    complete_business_action env meta fuel action_id outcome
serve env (enters_flow meta fuel ctx flow_id) = enter_ivr env meta fuel ctx flow_id
serve env (device_ends meta fuel agent_id leg_id outcome) =
    device_done env meta fuel agent_id leg_id outcome

-- Each request meets ports of its own.
unfoldable pub run : List (Env × Request) → Cell → Cell
run [] c = c
run ((env, r) ∷ rs) c = run rs (serve env r c).1

module _ {P : Cell → Type 0} (served : (env : Env) → IsServed env P) where
  Keeps-serve : (env : Env) (r : Request) → Keeps P (serve env r)
  unfolding serve downgrade answer decline hold transfer complete_transfer hangup
  Keeps-serve env (arrives meta fuel req) =
      Keeps-ignore _ (Keeps-start_inbound env (served env) meta fuel req)
  Keeps-serve env (answers ctx agent_id) =
      Keeps-guarded env (served env).kept.framed.logs (served env).tables _
        (Keeps-do_answer env (served env).kept ctx agent_id) ctx _ _
  Keeps-serve env (declines fuel ctx agent_id) =
      Keeps-guarded env (served env).kept.framed.logs (served env).tables _
        (Keeps-do_decline env (served env).kept fuel agent_id) ctx _ _
  Keeps-serve env (holds ctx on) =
      Keeps-guarded env (served env).kept.framed.logs (served env).tables _
        (Keeps-do_hold env (served env).kept on) ctx _ _
  Keeps-serve env (transfers fuel digest ctx req) =
      Keeps-guarded env (served env).kept.framed.logs (served env).tables _
        (Keeps-do_transfer env (served env).kept fuel req) ctx _ _
  Keeps-serve env (completes_transfer ctx) =
      Keeps-bind _ _ (Keeps-guard env (served env).kept.framed.logs (served env).tables ctx)
        (λ _. Keeps-complete_consult env (served env).kept)
  Keeps-serve env (invites target) = Keeps-conference_invite env (served env).kept target
  Keeps-serve env (hangs_up meta ctx reason) =
      Keeps-bind _ _ (Keeps-guard env (served env).kept.framed.logs (served env).tables ctx) λ _.
        search
          (
            keeps_rules,
            (served env).ends,
            Keeps-accept env (served env).kept.framed.logs (served env).tables,
            Keeps-mark_running env (served env).kept.framed.logs (served env).tables,
            Keeps-complete env (served env).kept.framed.logs (served env).tables,
          )
          depth 12
  Keeps-serve env (dispatches fuel) = Keeps-try_dispatch env (served env).kept fuel
  Keeps-serve env (overflows fuel) = Keeps-ignore _ (Keeps-overflow env (served env).kept fuel)
  Keeps-serve env (requests_video leg_id) = Keeps-request_video env (served env).kept leg_id
  Keeps-serve env (responds_video accept) = Keeps-respond_video env (served env).kept accept
  Keeps-serve env (downgrades ctx) =
      Keeps-bind _ _ (Keeps-guard env (served env).kept.framed.logs (served env).tables ctx)
        (λ _. (served env).downgrades)
  Keeps-serve env (shares_screen leg_id on) = Keeps-screen_share env (served env).kept leg_id on
  Keeps-serve env (listens supervisor) =
      Keeps-ignore _ (Keeps-supervisor_listen env (served env).kept supervisor)
  Keeps-serve env (adds_leg req) = Keeps-add_direct_leg env (served env) req
  Keeps-serve env (bridges ctx a b) = Keeps-bridge_direct env (served env) ctx a b
  Keeps-serve env (replaces_bridge ctx id a b) = Keeps-replace_bridge env (served env) ctx id a b
  Keeps-serve env (ends_bridge id) = Keeps-end_bridge env (served env) id
  Keeps-serve env (leaves_leg ctx leg_id) = Keeps-leave_direct_leg env (served env) ctx leg_id
  Keeps-serve env (starts_recording policy) =
      Keeps-ignore _ (Keeps-start_direct_recording env (served env) policy)
  Keeps-serve env stops_recording = Keeps-ignore _ (Keeps-stop_direct_recording env (served env))
  Keeps-serve env (ticks meta fuel t) = Keeps-tick_call env (served env) meta fuel t
  Keeps-serve env (presses meta fuel digit) = Keeps-on_dtmf env (served env) meta fuel digit
  Keeps-serve env (ends_prompt meta fuel loop) =
      Keeps-prompt_finished env (served env) meta fuel loop
  Keeps-serve env (begins_flow meta fuel) = Keeps-begin_ivr env (served env) meta fuel
  Keeps-serve env (reports_action meta fuel action_id outcome) =
      Keeps-complete_business_action env (served env) meta fuel action_id outcome
  Keeps-serve env (enters_flow meta fuel ctx flow_id) =
      Keeps-enter_ivr env (served env) meta fuel ctx flow_id
  Keeps-serve env (device_ends meta fuel agent_id leg_id outcome) =
      Keeps-device_done env (served env) meta fuel agent_id leg_id outcome

  keep_run : (rs : List (Env × Request)) (c : Cell) → P c → P (run rs c)
  unfolding run
  keep_run [] c h = h
  keep_run ((env, r) ∷ rs) c h = keep_run rs _ ((Keeps-serve env r).at c h)

-- From a call whose memory and row agree, no history of requests makes them disagree: as long as the
-- call is live its row is there, in the same state and at the same version.
pub run-IsSynced : (rs : List (Env × Request)) (c : Cell) → IsSynced c → IsSynced (run rs c)
run-IsSynced = keep_run IsSynced-IsServed

-- A call that has ended stays ended, whatever is asked of it later and whatever the ports answer:
-- its row is there in the state `ended`, and so is its live entry while it has one.
pub run-IsOver : (rs : List (Env × Request)) (c : Cell) → IsOver c → IsOver (run rs c)
run-IsOver = keep_run IsOver-IsServed
