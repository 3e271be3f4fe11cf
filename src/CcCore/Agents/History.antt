-- ===== src/CcCore/Agents/History.antt =====
-- The sessions of agents over any history: who checks in and out, what the call control asks for, and
-- what the dispatcher reserves.
use open_voip.Base.{ℕ, String, ◌≡◌, refl, Option, none, some, List, [], ◌∷◌}
use open_voip.Control.State.{Result, ok, err}
use open_voip.Errs.{Err}
use open_voip.Ports.{AgentState, idle}
use open_voip.CcCore.Agents.{
  AgentRow, AgentSession, Db, Tx, World, commit, is_offline, is_releasing, log_state, write,
  publish_agent,
}
use open_voip.CcCore.Agents.CheckingIn.{
  check_in, check_in_checked, check_in_queues, check_in_row, check_in_version, enter_queues,
  fresh_session, open_session, recover_each, recover_reservations, after_call,
}
use open_voip.CcCore.Agents.States.{check_out, set_presence, set_state}
use open_voip.CcCore.Agents.Dispatching.{
  DispatchRequest, choose, choose_by, read_cursor, scan_cursor, request_agent, request_in, reserve,
  reserve_found, reserved, store_cursor, unless_engaged, with_strategy, with_version,
}
use open_voip.CcCore.Agents.Keeps.{
  All-add, IsSound, Keeps, Keeps-bind, Keeps-change_session, Keeps-check_out, Keeps-fail, Keeps-if,
  Keeps-return, Keeps-set_presence, Keeps-set_state, Keeps-statement, Keeps-write, Outcome, SoundDb,
}

-- One thing that happens, with what it finds.
pub data Event : Type 0 where
  checks_in : String → List String → Event
  checks_out : String → Event
  shows : String → AgentState → String → Event
  is_set : String → String → AgentState → AgentState → String → Event
  is_requested : DispatchRequest → Event
  recovers : Event

commit-SoundDb :
    {A : Type 0} (m : Tx A) (db : Db) → Keeps SoundDb m → SoundDb db → SoundDb (commit m db).1
unfolding commit
commit-SoundDb {A} m db k h = after (m db) (k.at db h)
  where
    after :
        (r : Result (A × Db))
        → Outcome SoundDb r
        → SoundDb (
            let c : Result A × Db = elim r [ ok (a, db') ↦ (ok a, db') | err e ↦ (err e, db) ] in
            c.1)
    after (ok (a, db')) g = g
    after (err e) g = h

module _ (w : World) where
  idle-IsSound : (r : AgentSession) → r.state ≡ idle → r.current_call_id ≡ "" → IsSound r
  unfolding is_offline
  idle-IsSound r s c = record { free = λ _. c; present = rw s }

  Keeps-open_session :
      (agent : String) (o : Option AgentSession) → Keeps SoundDb (open_session w agent o)
  unfolding open_session fresh_session write
  Keeps-open_session agent none =
      Keeps-statement SoundDb w "create session" _
        (λ db h. All-add db.sessions _ h (idle-IsSound _ refl refl))
  Keeps-open_session agent (some s) =
      Keeps-change_session w "update session" agent _ (λ r h. idle-IsSound _ refl refl)

  Keeps-enter_queues :
      (agent : String) (queues : List String) (o : Option AgentSession)
      → Keeps SoundDb (enter_queues w agent queues o)
  unfolding enter_queues log_state publish_agent
  Keeps-enter_queues agent queues o = Keeps-if SoundDb _ _ _ (Keeps-fail SoundDb _) (
      Keeps-bind SoundDb _ _ (Keeps-write w "delete queues" _ (λ db. refl)) λ _.
        Keeps-bind SoundDb _ _ (Keeps-open_session agent o) λ _.
          Keeps-bind SoundDb _ _ (Keeps-write w "create queues" _ (λ db. refl)) λ _.
            Keeps-bind SoundDb _ _ (Keeps-write w "create log" _ (λ db. refl))
              λ _. Keeps-write w "publish" _ (λ db. refl))

  Keeps-check_in_checked :
      (agent : String) (queues : List String) (o : Option Err)
      → Keeps SoundDb (check_in_checked w agent queues o)
  unfolding check_in_checked
  Keeps-check_in_checked agent queues (some e) = Keeps-fail SoundDb e
  Keeps-check_in_checked agent queues none =
      Keeps-bind SoundDb _ _ (Keeps-statement SoundDb w "session" _ (λ db h. h))
        (Keeps-enter_queues agent queues)

  Keeps-check_in_queues :
      (version : ℕ) (agent : String) (queues : List String)
      → Keeps SoundDb (check_in_queues w version agent queues)
  unfolding check_in_queues
  Keeps-check_in_queues version agent [] = Keeps-fail SoundDb _
  Keeps-check_in_queues version agent (queue ∷ queues) = Keeps-check_in_checked agent _ _

  Keeps-check_in_row :
      (version : ℕ) (agent : String) (queues : List String) (r : Result AgentRow)
      → Keeps SoundDb (check_in_row w version agent queues r)
  unfolding check_in_row
  Keeps-check_in_row version agent queues (err e) = Keeps-fail SoundDb e
  Keeps-check_in_row version agent queues (ok row) =
      Keeps-if SoundDb _ _ _ (Keeps-check_in_queues version agent _) (Keeps-fail SoundDb _)

  Keeps-check_in_version :
      (agent : String) (queues : List String) (v : Result ℕ)
      → Keeps SoundDb (check_in_version w agent queues v)
  unfolding check_in_version
  Keeps-check_in_version agent queues (err e) = Keeps-fail SoundDb e
  Keeps-check_in_version agent queues (ok version) = Keeps-check_in_row version agent queues _

  Keeps-check_in : (agent : String) (queues : List String) → Keeps SoundDb (check_in w agent queues)
  unfolding check_in
  Keeps-check_in agent queues = Keeps-check_in_version agent queues w.version

  Keeps-store_cursor :
      (version : ℕ) (req : DispatchRequest) (last : Option String) (agent : String)
      → Keeps SoundDb (store_cursor w version req last agent)
  unfolding store_cursor
  Keeps-store_cursor version req none agent = Keeps-return SoundDb tt
  Keeps-store_cursor version req (some last) agent = Keeps-write w "update cursor" _ (λ db. refl)

  Keeps-reserve :
      (version : ℕ) (req : DispatchRequest) (last : Option String) (s : AgentSession)
      → Keeps SoundDb (reserve w version req last s)
  unfolding reserve reserved log_state publish_agent is_releasing is_offline
  Keeps-reserve version req last s =
      Keeps-bind SoundDb _ _
        (Keeps-change_session w "reserve" s.agent_id _
          λ r h. record { free = λ e. absurd (cc); present = refl })
        λ _. Keeps-bind SoundDb _ _ (Keeps-write w "create log" _ (λ db. refl)) λ _.
          Keeps-bind SoundDb _ _ (Keeps-store_cursor version req last s.agent_id) λ _.
            Keeps-bind SoundDb _ _ (Keeps-write w "create attempt" _ (λ db. refl)) λ _.
              Keeps-bind SoundDb _ _ (Keeps-write w "publish" _ (λ db. refl)) λ _.
                Keeps-bind SoundDb _ _ (Keeps-write w "publish reserved" _ (λ db. refl))
                  λ _. Keeps-return SoundDb s.agent_id

  Keeps-reserve_found :
      (version : ℕ) (req : DispatchRequest) (last : Option String) (o : Option AgentSession)
      → Keeps SoundDb (reserve_found w version req last o)
  unfolding reserve_found
  Keeps-reserve_found version req last none = Keeps-return SoundDb ""
  Keeps-reserve_found version req last (some s) = Keeps-reserve version req last s

  Keeps-choose :
      (version : ℕ) (req : DispatchRequest) (last : Option String)
      → Keeps SoundDb (choose w version req last)
  unfolding choose
  Keeps-choose version req last =
      Keeps-bind SoundDb _ _ (Keeps-statement SoundDb w "candidates" _ (λ db h. h))
        (Keeps-reserve_found version req last)

  Keeps-scan_cursor :
      (version : ℕ) (req : DispatchRequest) (cursor : Option (Option String))
      → Keeps SoundDb (scan_cursor w version req cursor)
  unfolding scan_cursor
  Keeps-scan_cursor version req none = Keeps-return SoundDb _
  Keeps-scan_cursor version req (some none) = Keeps-fail SoundDb _
  Keeps-scan_cursor version req (some (some last)) = Keeps-return SoundDb _

  Keeps-request_in :
      (version : ℕ) (req : DispatchRequest) (strategy : String)
      → Keeps SoundDb (request_in w version req strategy)
  unfolding request_in unless_engaged choose_by read_cursor
  Keeps-request_in version req strategy =
      Keeps-bind SoundDb _ _ (Keeps-statement SoundDb w "engaged" _ (λ db h. h)) λ agent.
        Keeps-if SoundDb _ _ _
          (Keeps-if SoundDb _ _ _
            (Keeps-bind SoundDb _ _
              (Keeps-bind SoundDb _ _ (Keeps-write w "create cursor" _ (λ db. refl)) λ _.
                Keeps-bind SoundDb _ _ (Keeps-statement SoundDb w "cursor" _ (λ db h. h))
                  (Keeps-scan_cursor version req))
              (Keeps-choose version req))
            (Keeps-choose version req none))
          (Keeps-return SoundDb agent)

  Keeps-with_strategy :
      (version : ℕ) (req : DispatchRequest) (r : Result String)
      → Keeps SoundDb (with_strategy w req version r)
  unfolding with_strategy
  Keeps-with_strategy version req (err e) = Keeps-fail SoundDb e
  Keeps-with_strategy version req (ok strategy) = Keeps-request_in version req strategy

  Keeps-with_version : (req : DispatchRequest) (r : Result ℕ) → Keeps SoundDb (with_version w req r)
  unfolding with_version
  Keeps-with_version req (err e) = Keeps-fail SoundDb e
  Keeps-with_version req (ok version) =
      Keeps-if SoundDb _ _ _ (Keeps-fail SoundDb _) (Keeps-with_strategy version req _)

  Keeps-request_agent : (req : DispatchRequest) → Keeps SoundDb (request_agent w req)
  unfolding request_agent
  Keeps-request_agent req = Keeps-with_version req w.version

  recover-SoundDb :
      (rows : List AgentSession) (db : Db) → SoundDb db → SoundDb (recover_each w rows db).1
  unfolding recover_each
  recover-SoundDb [] db h = h
  recover-SoundDb (s ∷ rows) db h =
      let m =
        set_state w s.current_call_id s.agent_id s.state (after_call s.state) "process_recovery" in
      let first = commit-SoundDb m db (Keeps-set_state w _ _ _ _ _) h in
      either (commit m db).0 _ _ (recover-SoundDb rows (commit m db).1 first) first
    where
      either :
          (r : Result (Unit {0})) (x : Result (Unit {0}) × Db) (db' : Db)
          → SoundDb x.1
          → SoundDb db'
          → SoundDb
              (let c : Result (Unit {0}) × Db = elim r [ ok _ ↦ x | err e ↦ (err e, db') ] in c.1)
      either (ok _) x db' p q = p
      either (err e) x db' p q = q

-- An event on the tables, with what the operation finds.
unfoldable pub happen : World → Event → Db → Db
happen w (checks_in agent queues) db = (commit (check_in w agent queues) db).1
happen w (checks_out agent) db = (commit (check_out w agent) db).1
happen w (shows agent state reason) db = (commit (set_presence w agent state reason) db).1
happen w (is_set call agent from to reason) db =
    (commit (set_state w call agent from to reason) db).1
happen w (is_requested req) db = (commit (request_agent w req) db).1
happen w recovers db = (recover_reservations w db).1

unfoldable pub run : List (World × Event) → Db → Db
run [] db = db
run ((w, e) ∷ events) db = run events (happen w e db)

happen-SoundDb : (w : World) (e : Event) (db : Db) → SoundDb db → SoundDb (happen w e db)
unfolding happen recover_reservations
happen-SoundDb w (checks_in agent queues) db h =
    commit-SoundDb _ db (Keeps-check_in w agent queues) h
happen-SoundDb w (checks_out agent) db h = commit-SoundDb _ db (Keeps-check_out w agent) h
happen-SoundDb w (shows agent state reason) db h =
    commit-SoundDb _ db (Keeps-set_presence w agent state reason) h
happen-SoundDb w (is_set call agent from to reason) db h =
    commit-SoundDb _ db (Keeps-set_state w call agent from to reason) h
happen-SoundDb w (is_requested req) db h = commit-SoundDb _ db (Keeps-request_agent w req) h
happen-SoundDb w recovers db h = recover-SoundDb w _ db h

-- Over every history of check-ins, check-outs, presences, states set by the call control, requests of the
-- dispatcher and recoveries, whatever statements fail: if it held at first, an agent who is free (idle, in
-- after-call work or busy) holds no call, and no session is kept of an agent that is offline.
pub run-SoundDb : (events : List (World × Event)) (db : Db) → SoundDb db → SoundDb (run events db)
unfolding run
run-SoundDb [] db h = h
run-SoundDb ((w, e) ∷ events) db h = run-SoundDb events _ (happen-SoundDb w e db h)
