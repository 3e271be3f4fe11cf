-- ===== src/CcCore/Agents.antt =====
-- The agents at work, layers/cccore/runtime.go: `CheckIn`, `CheckOut`, `SetPresence`, `setState`,
-- `AgentSession` and `RecoverReservations` over the tables of the database; Dispatching has
-- `RequestAgent`. A transaction is a function of the tables that fails as a whole: what a failed one
-- wrote is gone. Any statement may fail, as `fault` says; the ids of rows and the times of logs are
-- left out, and so are the reads of the configuration, which are functions of its version.
pub mod Dispatching
pub mod States
pub mod CheckingIn
pub mod Keeps
pub mod History
use open_voip.Base.{
  ℕ, String, Bool, true, false, ◌&&◌, ◌||◌, not, Option, none, some, List, [], ◌∷◌, ◌++◌, contains,
  map, ◌==◌, if◌then◌else◌,
}
use open_voip.Control.State.{Result, ok, err}
use open_voip.Errs.{Err, conflict_error, forbidden_error, invalid_request_error, api}
use open_voip.Ports.{AgentState, any, idle, agent_ringing, on_call, acw, busy, offline}

-- `models.AgentSession`.
pub record AgentSession : Type 0 where
  pub agent_id : String
  pub state : AgentState
  pub busy_reason : String
  pub current_call_id : String
  pub pending_checkout : Bool
  pub updated_at : ℕ

-- `models.AgentStateLog` and a row of `os_acd_attempts`.
pub record StateLog : Type 0 where
  pub agent_id : String
  pub from_state : AgentState
  pub to_state : AgentState
  pub reason : String
  pub call_id : String

pub data AttemptState : Type 0 where
  offering connected attempt_ended : AttemptState

pub record Attempt : Type 0 where
  pub call_id : String
  pub queue_id : String
  pub agent_id : String
  pub attempt : ℕ
  pub state : AttemptState
  pub failure_reason : String

pub data Notice : Type 0 where
  routing_state_changed : String → String → AgentState → String → Notice
  agent_reserved : String → String → String → Notice

-- The tables that the service writes, and the events that a transaction publishes.
pub record Db : Type 0 where
  pub sessions : List AgentSession
  pub session_queues : List (String × String)
  pub state_logs : List StateLog
  pub attempts : List Attempt
  pub cursors : List (String × Option String)
  pub notices : List Notice

pub record AgentRow : Type 0 where
  pub enabled : Bool
  pub video_capable : Bool

-- What an operation finds: the time, the active version and the configuration of a version, the calls
-- that are missing or ended, the rows that others have locked, the order of agent ids, and which
-- statements fail.
pub record World : Type 0 where
  pub now : ℕ
  pub version : Result ℕ
  pub agent_row : ℕ → String → Result AgentRow
  pub dispatch_strategy : ℕ → String → Result String
  pub queue_agents : ℕ → String → List String
  pub agent_queues : ℕ → String → List String
  pub queue_skills : ℕ → String → List String
  pub agent_skills : ℕ → String → List String
  pub call_over : String → Bool
  pub locked : String → Bool
  pub id_before : String → String → Bool
  pub fault : String → Option Err
  -- What the scan of a NULL into a Go string reports.
  pub null_scanned : Err
  -- What the state of the session that was read is after GORM's `Updates` with a new state.
  pub written_back : AgentState → AgentState → AgentState

abbrev pub Tx : Type 0 → Type 0
Tx A = Db → Result (A × Db)

infixl 5 ◌>>=◌ ◌>>◌
unfoldable pub ◌>>=◌ : {A B : Type 0} → Tx A → (A → Tx B) → Tx B
◌>>=◌ m f db = elim (m db) [ ok (a, db') ↦ f a db' | err e ↦ err e ]

abbrev pub ◌>>◌ : {B : Type 0} → Tx (Unit {0}) → Tx B → Tx B
m >> k = m >>= λ _. k

unfoldable pub return : {A : Type 0} → A → Tx A
return a db = ok (a, db)

unfoldable pub fail : {A : Type 0} → Err → Tx A
fail e db = err e

-- A statement of the database.
unfoldable pub on_fault : {A : Type 0} → Option Err → (Db → A × Db) → Tx A
on_fault none f db = ok (f db)
on_fault (some e) f db = err e

-- `ringing` or `on_call`: the agent is engaged in a call.
unfoldable pub is_engaged : AgentState → Bool
is_engaged agent_ringing = true
is_engaged on_call = true
is_engaged _ = false

unfoldable pub is_offline : AgentState → Bool
is_offline offline = true
is_offline _ = false

-- The states that leave a call: `idle`, `acw`, `busy` and `offline`.
unfoldable pub is_releasing : AgentState → Bool
is_releasing idle = true
is_releasing acw = true
is_releasing busy = true
is_releasing offline = true
is_releasing _ = false

unfoldable pub find_session : String → List AgentSession → Option AgentSession
find_session a [] = none
find_session a (s ∷ rows) = if s.agent_id == a then some s else find_session a rows

unfoldable pub update_session :
    String → (AgentSession → AgentSession) → List AgentSession → List AgentSession
update_session a f [] = []
update_session a f (s ∷ rows) = (if s.agent_id == a then f s else s) ∷ update_session a f rows

unfoldable pub delete_session : String → List AgentSession → List AgentSession
delete_session a [] = []
delete_session a (s ∷ rows) =
    let rest = delete_session a rows in if s.agent_id == a then rest else s ∷ rest

unfoldable pub delete_links : String → List (String × String) → List (String × String)
delete_links a [] = []
delete_links a ((b, queue) ∷ rows) =
    let rest = delete_links a rows in if b == a then rest else (b, queue) ∷ rest

-- A transaction, or a chain of statements, on the tables: a failed one leaves them alone.
unfoldable pub commit : {A : Type 0} → Tx A → Db → Result A × Db
commit m db = elim (m db) [ ok (a, db') ↦ (ok a, db') | err e ↦ (err e, db) ]

module _ (w : World) where
  unfoldable pub statement : {A : Type 0} → String → (Db → A × Db) → Tx A
  statement name f = on_fault (w.fault name) f

  unfoldable pub write : String → (Db → Db) → Tx (Unit {0})
  write name f = statement name (λ db. (tt, f db))

  unfoldable pub change_session : String → String → (AgentSession → AgentSession) → Tx (Unit {0})
  change_session name a f =
      write name (λ db. record db { sessions = update_session a f db.sessions })

  unfoldable pub publish_agent : String → String → AgentState → String → Tx (Unit {0})
  publish_agent call agent state reason = write "publish" (λ db. record db {
    notices = db.notices ++ routing_state_changed call agent state reason ∷ [];
  })

  unfoldable pub log_state : StateLog → Tx (Unit {0})
  log_state l = write "create log" (λ db. record db { state_logs = db.state_logs ++ l ∷ [] })
