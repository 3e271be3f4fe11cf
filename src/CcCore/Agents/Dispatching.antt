-- ===== src/CcCore/Agents/Dispatching.antt =====
-- `RequestAgent` of layers/cccore/runtime.go: the choice of an agent for a waiting call. The order of
-- agents is the `ORDER BY` of the query, `SKIP LOCKED` leaves out the rows that others hold.
pub mod Choosing
pub mod Serving
use open_voip.Base.{
  ℕ, suc, ◌+◌, String, Bool, true, false, ◌&&◌, ◌||◌, not, Option, none, some, List, [], ◌∷◌, ◌++◌,
  contains, ltb, ◌=?◌, ◌==◌, if◌then◌else◌, find,
}
use open_voip.Control.State.{Result, ok, err}
use open_voip.Errs.{Err, invalid_request_error, api}
use open_voip.Ports.{AgentState, idle, agent_ringing, on_call}
use open_voip.CcCore.Agents.{
  AgentRow, AgentSession, Attempt, AttemptState, offering, Db, Notice, agent_reserved, StateLog, Tx,
  World, ◌>>=◌, ◌>>◌, change_session, fail, is_engaged, log_state, publish_agent, return, statement,
  write,
}

-- `dto.DispatchRequest`.
pub record DispatchRequest : Type 0 where
  pub call_id : String
  pub queue_id : String
  pub require_video : Bool
  pub skill_ids : List String

-- The agent that is engaged in the call already.
unfoldable pub engaged_for : String → List AgentSession → String
engaged_for call [] = ""
engaged_for call (s ∷ rows) =
    if s.current_call_id == call && is_engaged s.state then s.agent_id else engaged_for call rows

unfoldable pub all_in : List String → List String → Bool
all_in [] owned = true
all_in (skill ∷ skills) owned = contains skill owned && all_in skills owned

unfoldable pub is_linked : String → String → List (String × String) → Bool
is_linked agent queue [] = false
is_linked agent queue ((a, q) ∷ rows) = (a == agent && q == queue) || is_linked agent queue rows

unfoldable pub is_idle : AgentState → Bool
is_idle idle = true
is_idle _ = false

-- `INSERT … ON CONFLICT DO NOTHING` and `UPDATE` of the cursor of a queue; a new cursor is NULL.
unfoldable pub add_cursor : String → List (String × Option String) → List (String × Option String)
add_cursor queue rows = elim (find queue rows) [ none ↦ rows ++ (queue, none) ∷ [] | some _ ↦ rows ]

unfoldable pub set_cursor :
    String → String → List (String × Option String) → List (String × Option String)
set_cursor queue agent [] = []
set_cursor queue agent ((q, last) ∷ rows) =
    (if q == queue then (q, some agent) else (q, last)) ∷ set_cursor queue agent rows

-- `COALESCE(MAX(attempt), 0)` over the attempts of a call.
unfoldable pub last_attempt : String → List Attempt → ℕ
last_attempt call [] = 0
last_attempt call (r ∷ rows) =
    let rest = last_attempt call rows in
    if r.call_id == call && ltb rest r.attempt then r.attempt else rest

module _ (w : World) (version : ℕ) (req : DispatchRequest) where
  unfoldable pub fits_row : Result AgentRow → Bool
  fits_row (err e) = false
  fits_row (ok row) = row.enabled && (not req.require_video || row.video_capable)

  -- The `WHERE` clause.
  unfoldable pub is_candidate : Db → AgentSession → Bool
  is_candidate db s =
      is_idle s.state
      && (not s.pending_checkout
          && (not (w.locked s.agent_id)
              && (is_linked s.agent_id req.queue_id db.session_queues
                  && (fits_row (w.agent_row version s.agent_id)
                      && (contains s.agent_id (w.queue_agents version req.queue_id)
                          && (all_in (w.queue_skills version req.queue_id)
                                (w.agent_skills version s.agent_id)
                              && all_in req.skill_ids (w.agent_skills version s.agent_id)))))))

  -- The `ORDER BY` clause: who waits longest, or whose id comes next after the last one's.
  unfoldable pub waits_longer : AgentSession → AgentSession → Bool
  waits_longer s t =
      ltb s.updated_at t.updated_at
      || (s.updated_at =? t.updated_at) && w.id_before s.agent_id t.agent_id

  unfoldable pub comes_next : String → AgentSession → AgentSession → Bool
  comes_next last s t =
      let past = w.id_before last s.agent_id in
      if w.id_before last t.agent_id
      then past && w.id_before s.agent_id t.agent_id
      else past || w.id_before s.agent_id t.agent_id

  unfoldable pub order : Option String → AgentSession → AgentSession → Bool
  order none = waits_longer
  order (some last) = comes_next last

  unfoldable pub better : Option String → AgentSession → Option AgentSession → Option AgentSession
  better last s none = some s
  better last s (some t) = if order last t s then some t else some s

  -- `ORDER BY … LIMIT 1` over the candidates.
  unfoldable pub first_candidate : Option String → Db → List AgentSession → Option AgentSession
  first_candidate last db [] = none
  first_candidate last db (s ∷ rows) =
      let rest = first_candidate last db rows in
      if is_candidate db s then better last s rest else rest

  unfoldable pub store_cursor : Option String → String → Tx (Unit {0})
  store_cursor none agent = return tt
  store_cursor (some last) agent =
      write w "update cursor"
        (λ db. record db { cursors = set_cursor req.queue_id agent db.cursors })

  unfoldable pub offer_attempt : String → Db → Attempt
  offer_attempt agent db = record {
    call_id = req.call_id;
    queue_id = req.queue_id;
    agent_id = agent;
    attempt = last_attempt req.call_id db.attempts + 1;
    state = offering;
    failure_reason = "";
  }

  unfoldable pub reserved : AgentSession → AgentSession
  reserved r = record r {
    state = agent_ringing;
    current_call_id = req.call_id;
    busy_reason = "";
    updated_at = w.now;
  }

  -- The reservation of the agent that was picked. Its row is locked since it was read, so that the
  -- `state = 'idle'` of the update still holds of it.
  unfoldable pub reserve : Option String → AgentSession → Tx String
  reserve last s = (do
    change_session w "reserve" s.agent_id reserved
    log_state w (record {
      agent_id = s.agent_id;
      from_state = idle;
      to_state = agent_ringing;
      reason = "acd";
      call_id = req.call_id;
    })
    store_cursor last s.agent_id
    write w "create attempt"
        (λ db. record db { attempts = db.attempts ++ offer_attempt s.agent_id db ∷ [] })
    publish_agent w req.call_id s.agent_id agent_ringing "acd"
    write w "publish reserved" (λ db. record db {
      notices = db.notices ++ agent_reserved req.call_id req.queue_id s.agent_id ∷ [];
    })
    return s.agent_id)

  unfoldable pub reserve_found : Option String → Option AgentSession → Tx String
  reserve_found last none = return ""
  reserve_found last (some s) = reserve last s

  unfoldable pub choose : Option String → Tx String
  choose last =
      statement w "candidates" (λ db. (first_candidate last db db.sessions, db))
      >>= reserve_found last

  -- `Scan(&last)`: no row leaves the empty text, a NULL is an error.
  unfoldable pub scan_cursor : Option (Option String) → Tx (Option String)
  scan_cursor none = return (some "")
  scan_cursor (some none) = fail w.null_scanned
  scan_cursor (some (some last)) = return (some last)

  unfoldable pub read_cursor : Tx (Option String)
  read_cursor = (do
    write w "create cursor" (λ db. record db { cursors = add_cursor req.queue_id db.cursors })
    cursor ← statement w "cursor" (λ db. (find req.queue_id db.cursors, db))
    scan_cursor cursor)

  unfoldable pub choose_by : String → Tx String
  choose_by strategy = if strategy == "round_robin" then read_cursor >>= choose else choose none

  unfoldable pub unless_engaged : String → String → Tx String
  unless_engaged strategy agent = if agent == "" then choose_by strategy else return agent

  unfoldable pub request_in : String → Tx String
  request_in strategy =
      statement w "engaged" (λ db. (engaged_for req.call_id db.sessions, db))
      >>= unless_engaged strategy

module _ (w : World) (req : DispatchRequest) where
  unfoldable pub with_strategy : ℕ → Result String → Tx String
  with_strategy version (err e) = fail e
  with_strategy version (ok strategy) = request_in w version req strategy

  unfoldable pub with_version : Result ℕ → Tx String
  with_version (err e) = fail e
  with_version (ok version) =
      if req.call_id == "" || req.queue_id == ""
      then fail (api (invalid_request_error "call_id/queue_id 必填"))
      else with_strategy version (w.dispatch_strategy version req.queue_id)

  -- `RequestAgent`: the id of the agent, or the empty text where there is none.
  unfoldable pub request_agent : Tx String
  request_agent = with_version w.version
