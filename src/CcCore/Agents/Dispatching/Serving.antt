-- ===== src/CcCore/Agents/Dispatching/Serving.antt =====
-- What a whole `RequestAgent` of layers/cccore/runtime.go does: it names the agent that the call has, or
-- reserves one by the strategy of the queue.
use open_voip.Base.{
  ℕ, String, true, false, ◌==◌, ◌&&◌, ◌≡◌, ◌∙◌, refl, ap, sym, Option, none, some, List, [], ◌∷◌,
  Bool-cases, inl, inr, ◌⊎◌, Has, find, eq_iff, ◌++◌, if_true, if_false,
}
use open_voip.Control.State.{ok, err}
use open_voip.Errs.{Err}
use open_voip.CcCore.Agents.{
  commit, AgentSession, Db, Tx, World, ◌>>=◌, fail, is_engaged, on_fault, return, statement, write,
}
use open_voip.CcCore.Agents.Dispatching.{
  DispatchRequest, add_cursor, choose, choose_by, engaged_for, read_cursor, request_agent,
  request_in, scan_cursor, unless_engaged, with_strategy, with_version,
}

-- A request that reaches the choice of an agent: nothing fails, the ids are given, and the active version
-- has the queue with its strategy.
pub record IsPosed (w : World) (req : DispatchRequest) (version : ℕ) (strategy : String)
    : Type 0 where
  pub sound : (n : String) → w.fault n ≡ none
  pub active : w.version ≡ ok version
  pub call_given : (req.call_id == "") ≡ false
  pub queue_given : (req.queue_id == "") ≡ false
  pub queue_read : w.dispatch_strategy version req.queue_id ≡ ok strategy

-- No agent rings for the call or talks in it.
abbrev pub IsFree : String → Db → Type 0
IsFree call db =
    (s : AgentSession)
    → Has s db.sessions
    → (s.current_call_id == call && is_engaged s.state) ≡ false

-- The order that the strategy asks for: after the last agent of the queue's cursor in turn, else by the time
-- that an agent waits.
abbrev pub Ranks : String → String → Db → Option String → Type 0
Ranks strategy queue db last =
    ((strategy ≡ "round_robin")
      × (l : String) × (find queue db.cursors ≡ some (some l))
      × (last ≡ some l))
    ⊎ (((strategy == "round_robin") ≡ false) × (last ≡ none))

engaged_for_nobody :
    (call : String) (rows : List AgentSession)
    → ((s : AgentSession) → Has s rows → (s.current_call_id == call && is_engaged s.state) ≡ false)
    → engaged_for call rows ≡ ""
unfolding engaged_for
engaged_for_nobody call [] free = refl
engaged_for_nobody call (s ∷ rows) free =
    if_false _ _ (free s (inl refl)) ∙ engaged_for_nobody call rows (λ t m. free t (inr m))

engaged_for_someone :
    (call : String) (rows : List AgentSession) (s : AgentSession)
    → Has s rows
    → (s.current_call_id == call && is_engaged s.state) ≡ true
    → (t : AgentSession) × Has t rows
      × ((t.current_call_id == call && is_engaged t.state) ≡ true)
      × (engaged_for call rows ≡ t.agent_id)
unfolding engaged_for
engaged_for_someone call [] s m h = elim m [ ]
engaged_for_someone call (r ∷ rows) s m h =
    elim (Bool-cases (r.current_call_id == call && is_engaged r.state)) [
      | inl e ↦ (r, inl refl, e, if_true _ _ e)
      | inr e ↦ elim m [
        | inl same ↦ absurd (cc (same, h, e))
        | inr m ↦
            let (t, listed, f, q) = engaged_for_someone call rows s m h in
            (t, inr listed, f, if_false _ _ e ∙ q)
      ]
    ]

stop :
    {A B : Type 0} (m : Tx A) (f : A → Tx B) (db : Db) {e : Err}
    → m db ≡ err e
    → (m >>= f) db ≡ err e
unfolding ◌>>=◌
stop m f db e = rw (◌>>=◌, e) refl

add_cursor_found :
    (queue : String) (rows : List (String × Option String)) {cursor : Option String}
    → find queue rows ≡ some cursor
    → add_cursor queue rows ≡ rows
unfolding add_cursor
add_cursor_found queue rows e = rw (add_cursor, e) refl

-- A new cursor is NULL.
add_cursor_new :
    (queue : String) (rows : List (String × Option String))
    → find queue rows ≡ none
    → find queue (add_cursor queue rows) ≡ some none
unfolding add_cursor
add_cursor_new queue rows e = rw (add_cursor, e) (find_last rows e)
  where
    find_last :
        (rows : List (String × Option String))
        → find queue rows ≡ none
        → find queue (rows ++ (queue, none) ∷ []) ≡ some none
    find_last [] e = if_true _ _ ((eq_iff queue queue).1 refl)
    find_last ((q, c) ∷ rows) e = elim (Bool-cases (q == queue)) [
      | inl same ↦ absurd (cc (sym (if_true _ _ same) ∙ e))
      | inr other ↦ if_false _ _ other ∙ find_last rows (sym (if_false _ _ other) ∙ e)
    ]

module _ (w : World) (req : DispatchRequest) (version : ℕ) (strategy : String)
    (posed : IsPosed w req version strategy) (db : Db) where
  asked : request_agent w req db ≡ request_in w version req strategy db
  unfolding request_agent with_version with_strategy
  asked = rw (posed.active, posed.call_given, posed.queue_given, posed.queue_read) refl

  chosen :
      (agent : String)
      → engaged_for req.call_id db.sessions ≡ agent
      → request_in w version req strategy db ≡ unless_engaged w version req strategy agent db
  unfolding request_in statement on_fault ◌>>=◌
  chosen agent e = rw (posed.sound "engaged", e) refl

  read_cursor_null :
      (find req.queue_id db.cursors ≡ some none) ⊎ (find req.queue_id db.cursors ≡ none)
      → read_cursor w version req db ≡ err w.null_scanned
  unfolding read_cursor write statement on_fault ◌>>=◌ scan_cursor fail
  read_cursor_null (inl e) =
      rw
        (
          posed.sound "create cursor",
          posed.sound "cursor",
          add_cursor_found req.queue_id db.cursors e,
        )
        (rw e refl)
  read_cursor_null (inr e) =
      rw
        (
          posed.sound "create cursor",
          posed.sound "cursor",
          add_cursor_new req.queue_id db.cursors e,
        )
        refl

  -- A call that an agent rings for or talks in gets no other: where no statement fails and agents have ids,
  -- `RequestAgent` names an agent that is engaged in the call and changes nothing.
  pub request_again :
      (s : AgentSession)
      → Has s db.sessions
      → (s.current_call_id == req.call_id && is_engaged s.state) ≡ true
      → ((t : AgentSession) → Has t db.sessions → (t.agent_id == "") ≡ false)
      → (t : AgentSession) × Has t db.sessions
        × ((t.current_call_id == req.call_id && is_engaged t.state) ≡ true)
        × (request_agent w req db ≡ ok (t.agent_id, db))
  unfolding unless_engaged return
  request_again s listed engaged named =
      let (t, m, h, e) = engaged_for_someone req.call_id db.sessions s listed engaged in
      (t, m, h, asked ∙ chosen t.agent_id e ∙ if_false' t (named t m))
    where
      if_false' :
          (t : AgentSession)
          → (t.agent_id == "") ≡ false
          → unless_engaged w version req strategy t.agent_id db ≡ ok (t.agent_id, db)
      if_false' t n = rw n refl

  -- A queue under `round_robin` whose cursor is NULL, as a new one is, is never served: for a call that no
  -- agent is engaged in `RequestAgent` fails, whoever is free, and leaves the cursor as it is.
  pub round_robin_unserved :
      IsFree req.call_id db
      → strategy ≡ "round_robin"
      → (find req.queue_id db.cursors ≡ some none) ⊎ (find req.queue_id db.cursors ≡ none)
      → commit (request_agent w req) db ≡ (err w.null_scanned, db)
  unfolding unless_engaged choose_by commit
  round_robin_unserved free turn cursor = rw (commit, failed) refl
    where
      failed : request_agent w req db ≡ err w.null_scanned
      failed =
          asked
          ∙ chosen "" (engaged_for_nobody req.call_id db.sessions free)
          ∙ ap (λ (m : Tx String). m db) (if_true _ _ ((eq_iff strategy "round_robin").1 turn))
          ∙ stop (read_cursor w version req) (choose w version req) db (read_cursor_null cursor)
