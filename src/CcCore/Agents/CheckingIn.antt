-- ===== src/CcCore/Agents/CheckingIn.antt =====
-- `CheckIn` and `RecoverReservations` of layers/cccore/runtime.go.
use open_voip.Base.{
  ℕ, String, Bool, false, ◌&&◌, not, Option, none, some, List, [], ◌∷◌, ◌++◌, contains, ◌==◌,
  if◌then◌else◌,
}
use open_voip.Control.State.{Result, ok, err}
use open_voip.Errs.{Err, conflict_error, forbidden_error, invalid_request_error, api}
use open_voip.Ports.{AgentState, idle, on_call, acw, offline}
use open_voip.CcCore.Agents.{
  AgentRow, AgentSession, Db, Tx, World, change_session, commit, delete_links, fail, find_session,
  is_engaged, log_state, publish_agent, statement, write, ◌>>=◌, ◌>>◌,
}
use open_voip.CcCore.Agents.States.{set_state}

unfoldable pub link_each : String → List String → List (String × String)
link_each agent [] = []
link_each agent (queue ∷ queues) = (agent, queue) ∷ link_each agent queues

unfoldable pub is_engaged_session : Option AgentSession → Bool
is_engaged_session none = false
is_engaged_session (some s) = is_engaged s.state

unfoldable pub or_bound : List String → List String → List String
or_bound [] bound = bound
or_bound (queue ∷ queues) bound = queue ∷ queues

unfoldable pub after_call : AgentState → AgentState
after_call on_call = acw
after_call _ = idle

module _ (w : World) where
  -- The loop over the queues of `CheckIn`: none twice, and each bound to the agent.
  unfoldable pub queues_error : ℕ → String → List String → List String → Option Err
  queues_error version agent seen [] = none
  queues_error version agent seen (queue ∷ queues) =
      let rest = queues_error version agent (queue ∷ seen) queues in
      if contains queue seen
      then some (api (invalid_request_error "队列重复"))
      else if contains agent (w.queue_agents version queue)
      then rest
      else some (api (forbidden_error "坐席未绑定该队列"))

  unfoldable pub fresh_session : String → AgentSession
  fresh_session agent = record {
    agent_id = agent;
    state = idle;
    busy_reason = "";
    current_call_id = "";
    pending_checkout = false;
    updated_at = w.now;
  }

  -- The session of an agent that checks in: a new row, or the old one made idle.
  unfoldable pub open_session : String → Option AgentSession → Tx (Unit {0})
  open_session agent none =
      write w "create session"
        (λ db. record db { sessions = db.sessions ++ fresh_session agent ∷ [] })
  open_session agent (some s) = change_session w "update session" agent (λ r. record r {
    state = idle;
    busy_reason = "";
    current_call_id = "";
    pending_checkout = false;
    updated_at = w.now;
  })

  unfoldable pub enter_queues : String → List String → Option AgentSession → Tx (Unit {0})
  enter_queues agent queues found =
      if is_engaged_session found
      then fail (api (conflict_error "振铃或通话中不能重新签入" "AGENT_BUSY"))
      else (do
        write w "delete queues"
            (λ db. record db { session_queues = delete_links agent db.session_queues })
        open_session agent found
        write w "create queues"
            (λ db. record db { session_queues = db.session_queues ++ link_each agent queues })
        log_state w (record {
          agent_id = agent;
          from_state = offline;
          to_state = idle;
          reason = "check-in";
          call_id = "";
        })
        publish_agent w "" agent idle "check-in")

  unfoldable pub check_in_checked : String → List String → Option Err → Tx (Unit {0})
  check_in_checked agent queues (some e) = fail e
  check_in_checked agent queues none =
      statement w "session" (λ db. (find_session agent db.sessions, db))
      >>= enter_queues agent queues

  unfoldable pub check_in_queues : ℕ → String → List String → Tx (Unit {0})
  check_in_queues version agent [] = fail (api (invalid_request_error "没有可签入的队列"))
  check_in_queues version agent (queue ∷ queues) =
      check_in_checked agent (queue ∷ queues) (queues_error version agent [] (queue ∷ queues))

  unfoldable pub check_in_row : ℕ → String → List String → Result AgentRow → Tx (Unit {0})
  check_in_row version agent queues (err e) = fail e
  check_in_row version agent queues (ok row) =
      if row.enabled
      then check_in_queues version agent (or_bound queues (w.agent_queues version agent))
      else fail (api (forbidden_error "坐席已禁用"))

  unfoldable pub check_in_version : String → List String → Result ℕ → Tx (Unit {0})
  check_in_version agent queues (err e) = fail e
  check_in_version agent queues (ok version) =
      check_in_row version agent queues (w.agent_row version agent)

  -- `CheckIn`, up to the view that it returns.
  unfoldable pub check_in : String → List String → Tx (Unit {0})
  check_in agent queues = check_in_version agent queues w.version

  -- `RecoverReservations`: one transaction for each agent whose call is over, until one fails.
  unfoldable pub reserved_over : List AgentSession → List AgentSession
  reserved_over [] = []
  reserved_over (s ∷ rows) =
      let rest = reserved_over rows in
      if not (s.current_call_id == "") && w.call_over s.current_call_id then s ∷ rest else rest

  unfoldable pub recover_each : List AgentSession → Db → Result (Unit {0}) × Db
  recover_each [] db = (ok tt, db)
  recover_each (s ∷ rows) db =
      let done =
        commit
          (set_state w s.current_call_id s.agent_id s.state (after_call s.state) "process_recovery")
          db in
      let rest = recover_each rows done.1 in elim done.0 [ ok _ ↦ rest | err e ↦ (err e, done.1) ]

  unfoldable pub recover_reservations : Db → Result (Unit {0}) × Db
  recover_reservations db = recover_each (reserved_over db.sessions) db
