-- ===== src/CcCore/Agents/States.antt =====
-- `setState` of layers/cccore/runtime.go, and `CheckOut` and `SetPresence`, which call it.
use open_voip.Base.{
  String, Bool, true, false, ◌&&◌, not, Option, none, some, List, [], ◌∷◌, ◌==◌, if◌then◌else◌,
}
use open_voip.Errs.{conflict_error, invalid_request_error, api}
use open_voip.Ports.{AgentState, any, idle, agent_ringing, on_call, acw, busy, offline}
use open_voip.CcCore.Agents.{
  AgentSession, Attempt, AttemptState, Tx, World, attempt_ended, change_session, connected,
  delete_links, delete_session, fail, find_session, is_engaged, is_offline, is_releasing, log_state,
  publish_agent, return, statement, write, ◌>>=◌, ◌>>◌,
}

-- `fromState`, where `any` is the empty text, against the state of the session.
unfoldable pub is_from : AgentState → AgentState → Bool
is_from any _ = true
is_from idle idle = true
is_from agent_ringing agent_ringing = true
is_from on_call on_call = true
is_from acw acw = true
is_from busy busy = true
is_from offline offline = true
is_from _ _ = false

unfoldable pub is_open_attempt : AttemptState → Bool
is_open_attempt attempt_ended = false
is_open_attempt _ = true

-- `UPDATE os_acd_attempts` of `setState`.
unfoldable pub close_attempts :
    String → String → AttemptState → String → List Attempt → List Attempt
close_attempts call agent state reason [] = []
close_attempts call agent state reason (r ∷ rows) =
    (if r.call_id == call && (r.agent_id == agent && is_open_attempt r.state)
      then record r { state = state; failure_reason = reason }
      else r)
    ∷ close_attempts call agent state reason rows

unfoldable pub next_call : String → AgentSession → String
next_call call s = if call == "" then s.current_call_id else call

unfoldable pub kept_call : String → AgentState → String
kept_call call to = if is_releasing to then "" else call

unfoldable pub next_state : String → AgentState → AgentSession → AgentState
next_state current to s = if s.pending_checkout && current == "" then offline else to

unfoldable pub attempt_state : AgentState → AttemptState
attempt_state on_call = connected
attempt_state _ = attempt_ended

unfoldable pub is_presence : AgentState → Bool
is_presence idle = true
is_presence busy = true
is_presence acw = true
is_presence _ = false

module _ (w : World) where
  -- The session as it goes on where the command belongs to another call: `none` is the early return.
  unfoldable pub settle : String → AgentState → AgentSession → Tx (Option AgentSession)
  settle call to s =
      if not (call == "") && (not (s.current_call_id == "") && not (s.current_call_id == call))
      then if w.call_over s.current_call_id
        then (do
          change_session w "clear call" s.agent_id (λ r. record r { current_call_id = "" })
          return (some (record s { current_call_id = "" })))
        else if is_releasing to
        then return none
        else fail (api (conflict_error "坐席正在处理另一通话" "AGENT_BUSY"))
      else return (some s)

  -- `offline` deletes the session with its queues, every other state updates it.
  unfoldable pub store_state : String → AgentState → String → AgentSession → Tx (Unit {0})
  store_state current to reason s =
      if is_offline to
      then (do
        write w "delete queues"
            (λ db. record db { session_queues = delete_links s.agent_id db.session_queues })
        write w "delete session"
            (λ db. record db { sessions = delete_session s.agent_id db.sessions }))
      else change_session w "update session" s.agent_id (λ r. record r {
        state = to;
        current_call_id = current;
        busy_reason = reason;
        pending_checkout = false;
        updated_at = w.now;
      })

  unfoldable pub end_attempts : String → String → AgentState → String → Tx (Unit {0})
  end_attempts call agent to reason =
      if call == ""
      then return tt
      else write w "update attempts" (λ db. record db {
        attempts = close_attempts call agent (attempt_state to) reason db.attempts;
      })

  -- What `setState` does with a session that the command may change.
  unfoldable pub enter_state :
      String → AgentState → AgentState → String → AgentSession → Tx (Unit {0})
  enter_state call from to reason s =
      let call' = next_call call s in
      let current = kept_call call' to in
      let to' = next_state current to s in
      if not (is_from from s.state)
      then fail (api (conflict_error "坐席状态已变更" "AGENT_NOT_IDLE"))
      else (do
        store_state current to' reason s
        log_state w (record {
          agent_id = s.agent_id;
          from_state = if is_offline to' then s.state else w.written_back s.state to';
          to_state = to';
          reason = reason;
          call_id = call';
        })
        end_attempts call' s.agent_id to' reason
        publish_agent w call' s.agent_id to' reason)

  unfoldable pub settled :
      String → AgentState → AgentState → String → Option AgentSession → Tx (Unit {0})
  settled call from to reason none = return tt
  settled call from to reason (some s) = enter_state call from to reason s

  unfoldable pub change_state :
      String → AgentState → AgentState → String → Option AgentSession → Tx (Unit {0})
  change_state call from to reason none = fail (api (conflict_error "坐席未签入" "AGENT_NOT_IDLE"))
  change_state call from to reason (some s) =
      if reason == "force-check-out" && (is_offline to && not (s.current_call_id == ""))
      then change_session w "pending checkout" s.agent_id
          (λ r. record r { pending_checkout = true })
      else settle call to s >>= settled call from to reason

  -- `setState`, and `SetCallState`, which calls it.
  unfoldable pub set_state : String → String → AgentState → AgentState → String → Tx (Unit {0})
  set_state call agent from to reason =
      statement w "session" (λ db. (find_session agent db.sessions, db))
      >>= change_state call from to reason

  unfoldable pub check_out_found : Option AgentSession → Tx (Unit {0})
  check_out_found none = return tt
  check_out_found (some s) =
      if is_engaged s.state
      then fail (api (conflict_error "振铃或通话中不能签出" "AGENT_BUSY"))
      else set_state "" s.agent_id s.state offline "check-out"

  -- `CheckOut`.
  unfoldable pub check_out : String → Tx (Unit {0})
  check_out agent =
      statement w "session" (λ db. (find_session agent db.sessions, db)) >>= check_out_found

  unfoldable pub set_presence_found : AgentState → String → Option AgentSession → Tx (Unit {0})
  set_presence_found state reason none = fail (api (conflict_error "请先签入" "AGENT_NOT_IDLE"))
  set_presence_found state reason (some s) =
      if is_engaged s.state
      then fail (api (conflict_error "振铃或通话中不能切换状态" "AGENT_BUSY"))
      else set_state "" s.agent_id s.state state reason

  -- `SetPresence`, up to the view that it returns.
  unfoldable pub set_presence : String → AgentState → String → Tx (Unit {0})
  set_presence agent state reason =
      if is_presence state
      then statement w "session" (λ db. (find_session agent db.sessions, db))
        >>= set_presence_found state reason
      else fail (api (invalid_request_error "只允许设置 idle、busy 或 acw"))
