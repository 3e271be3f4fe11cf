-- ===== src/Tests/Agents.antt =====
-- Concrete agents at work, and the theorems applied to them.
use open_voip.Base.{String, true, false, ◌≡◌, refl, none, [], ◌∷◌, inl, inr, Has, subst, ◌&&◌, ◌==◌}
use open_voip.Control.State.{ok, err}
use open_voip.Errs.{api, conflict_error}
use open_voip.Ports.{AgentState, idle, on_call}
use open_voip.CcCore.Agents.{AgentSession, Db, World, commit, is_engaged, is_offline, is_releasing}
use open_voip.CcCore.Agents.Dispatching.{DispatchRequest, request_agent}
use open_voip.CcCore.Agents.History.{checks_out, is_requested, run, run-SoundDb}
use open_voip.CcCore.Agents.Keeps.{SoundDb}
use open_voip.CcCore.Agents.Dispatching.Serving.{
  IsFree, IsPosed, request_again, round_robin_unserved,
}

abbrev agent_session : String → AgentState → String → AgentSession
agent_session agent state call = record {
  agent_id = agent;
  state = state;
  busy_reason = "";
  current_call_id = call;
  pending_checkout = false;
  updated_at = 5;
}

-- ada is idle in the queue for sales, bob is in a call.
abbrev db : Db
db = record {
  sessions = agent_session "ada" idle "" ∷ agent_session "bob" on_call "call-7" ∷ [];
  session_queues = ("ada", "sales") ∷ ("bob", "sales") ∷ [];
  state_logs = [];
  attempts = [];
  cursors = [];
  notices = [];
}

abbrev world : World
world = record {
  now = 9;
  version = ok 1;
  agent_row = λ v agent. ok (record { enabled = true; video_capable = false });
  dispatch_strategy = λ v queue. ok "longest_idle";
  queue_agents = λ v queue. "ada" ∷ "bob" ∷ [];
  agent_queues = λ v agent. "sales" ∷ [];
  queue_skills = λ v queue. "billing" ∷ [];
  agent_skills = λ v agent. "billing" ∷ [];
  call_over = λ call. false;
  locked = λ agent. false;
  id_before = λ a b. false;
  fault = λ name. none;
  null_scanned = api (conflict_error "NULL" "");
  written_back = λ old new. new;
}

abbrev request : DispatchRequest
request = record { call_id = "call-8"; queue_id = "sales"; require_video = false; skill_ids = [] }

db-SoundDb : SoundDb db
unfolding is_releasing is_offline
db-SoundDb = (
  record { free = λ _. refl; present = refl },
  (record { free = λ h. absurd (cc); present = refl }, tt),
)

run-SoundDb_example :
    SoundDb (run ((world, is_requested request) ∷ (world, checks_out "bob") ∷ []) db)
run-SoundDb_example =
    run-SoundDb ((world, is_requested request) ∷ (world, checks_out "bob") ∷ []) db db-SoundDb

db-IsFree : IsFree "call-8" db
unfolding is_engaged
db-IsFree s m = elim m [
  | inl e ↦ subst (λ r. (r.current_call_id == "call-8" && is_engaged r.state) ≡ false) e refl
  | inr (inl e) ↦ subst (λ r. (r.current_call_id == "call-8" && is_engaged r.state) ≡ false) e refl
  | inr (inr m) ↦ elim m [ ]
]

-- The call that bob talks in.
abbrev again : DispatchRequest
again = record request { call_id = "call-7" }

again-IsPosed : IsPosed world again 1 "longest_idle"
again-IsPosed = record {
  sound = λ n. refl;
  active = refl;
  call_given = refl;
  queue_given = refl;
  queue_read = refl;
}

request_again_example :
    (t : AgentSession) × Has t db.sessions
    × ((t.current_call_id == "call-7" && is_engaged t.state) ≡ true)
    × (request_agent world again db ≡ ok (t.agent_id, db))
unfolding is_engaged
request_again_example =
    request_again world again 1 "longest_idle" again-IsPosed db
      (agent_session "bob" on_call "call-7") (inr (inl refl)) refl
      (λ t m. elim m [
        | inl e ↦ subst (λ r. (r.agent_id == "") ≡ false) e refl
        | inr (inl e) ↦ subst (λ r. (r.agent_id == "") ≡ false) e refl
        | inr (inr m) ↦ elim m [ ]
      ])

abbrev in_turn : World
in_turn = record world { dispatch_strategy = λ v queue. ok "round_robin" }

in_turn-IsPosed : IsPosed in_turn request 1 "round_robin"
in_turn-IsPosed = record {
  sound = λ n. refl;
  active = refl;
  call_given = refl;
  queue_given = refl;
  queue_read = refl;
}

round_robin_unserved_example :
    commit (request_agent in_turn request) db ≡ (err in_turn.null_scanned, db)
round_robin_unserved_example =
    round_robin_unserved in_turn request 1 "round_robin" in_turn-IsPosed db db-IsFree refl
      (inr refl)
