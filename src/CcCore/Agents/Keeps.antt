-- ===== src/CcCore/Agents/Keeps.antt =====
-- What a transaction keeps, for each way to build one, and the sessions that every operation keeps
-- sound.
use open_voip.Base.{
  arith, String, Bool, true, false, ◌≡◌, refl, sym, subst, Option, none, some, List, [], ◌∷◌, ◌++◌,
  All, Bool-cases, inl, inr, if◌then◌else◌, if_both, ◌==◌,
}
use open_voip.Control.State.{Result, ok, err}
use open_voip.Errs.{Err}
use open_voip.Ports.{AgentState, offline}
use open_voip.CcCore.Agents.{
  AgentSession, Db, Tx, World, ◌>>=◌, change_session, delete_session, fail, is_offline,
  is_releasing, log_state, on_fault, publish_agent, return, statement, update_session, write,
}
use open_voip.CcCore.Agents.States.{
  change_state, check_out, check_out_found, end_attempts, enter_state, set_presence,
  set_presence_found, set_state, settle, settled, kept_call, next_call, next_state, store_state,
}

abbrev pub Outcome : (Db → Type 0) → {A : Type 0} → Result (A × Db) → Type 0
Outcome P (ok (a, db)) = P db
Outcome P (err e) = Unit

-- A transaction that succeeds leaves tables of which `P` holds, if it held before.
pub record Keeps (P : Db → Type 0) {A : Type 0} (m : Tx A) : Type 0 where
  pub at : (db : Db) → P db → Outcome P (m db)

module _ (P : Db → Type 0) where
  pub Keeps-return : {A : Type 0} (a : A) → Keeps P (return a)
  unfolding return
  Keeps-return a = record { at = λ db h. h }

  pub Keeps-fail : {A : Type 0} (e : Err) → Keeps P (fail {A = A} e)
  unfolding fail
  Keeps-fail e = record { at = λ db h. tt }

  pub Keeps-bind :
      {A B : Type 0} (m : Tx A) (f : A → Tx B)
      → Keeps P m
      → ((a : A) → Keeps P (f a))
      → Keeps P (m >>= f)
  unfolding ◌>>=◌
  Keeps-bind {A = A} m f k l = record { at = λ db h. after (m db) (k.at db h) }
    where
      after :
          (r : Result (A × Db))
          → Outcome P r
          → Outcome P (elim r [ ok (a, db') ↦ f a db' | err e ↦ err e ])
      after (ok (a, db')) h = (l a).at db' h
      after (err e) h = tt

  pub Keeps-if :
      {A : Type 0} (t : Bool) (m n : Tx A) → Keeps P m → Keeps P n → Keeps P (if t then m else n)
  Keeps-if t m n k l = if_both (Keeps P) t k l

  module _ (w : World) where
    pub Keeps-statement :
        {A : Type 0} (name : String) (f : Db → A × Db)
        → ((db : Db) → P db → P (f db).1)
        → Keeps P (statement w name f)
    unfolding statement on_fault
    Keeps-statement name f k = record { at = λ db h. answer (w.fault name) db h }
      where
        answer : (o : Option Err) (db : Db) → P db → Outcome P (on_fault o f db)
        answer none db h = k db h
        answer (some e) db h = tt

-- An agent that is free holds no call, and no session is kept of an agent that is offline.
pub record IsSound (s : AgentSession) : Type 0 where
  pub free : is_releasing s.state ≡ true → s.current_call_id ≡ ""
  pub present : is_offline s.state ≡ false

abbrev pub SoundDb : Db → Type 0
SoundDb db = All IsSound db.sessions

All-update_session :
    (agent : String) (f : AgentSession → AgentSession) (rows : List AgentSession)
    → ((s : AgentSession) → IsSound s → IsSound (f s))
    → All IsSound rows
    → All IsSound (update_session agent f rows)
unfolding update_session
All-update_session agent f [] k h = tt
All-update_session agent f (s ∷ rows) k h =
    (if_both IsSound (s.agent_id == agent) (k s h.0) h.0, All-update_session agent f rows k h.1)

All-delete_session :
    (agent : String) (rows : List AgentSession)
    → All IsSound rows
    → All IsSound (delete_session agent rows)
unfolding delete_session
All-delete_session agent [] h = tt
All-delete_session agent (s ∷ rows) h =
    let rest = All-delete_session agent rows h.1 in
    if_both (All IsSound) (s.agent_id == agent) rest (h.0, rest)

pub All-add :
    (rows : List AgentSession) (s : AgentSession)
    → All IsSound rows
    → IsSound s
    → All IsSound (rows ++ s ∷ [])
All-add [] s h k = (k, tt)
All-add (r ∷ rows) s h k = (h.0, All-add rows s h.1 k)

-- What `setState` writes of a call goes with the state that it writes.
kept_call-next_state :
    (call : String) (to : AgentState) (s : AgentSession)
    → is_offline (next_state (kept_call call to) to s) ≡ false
    → is_releasing (next_state (kept_call call to) to s) ≡ true
    → kept_call call to ≡ ""
unfolding next_state kept_call is_offline is_releasing
kept_call-next_state call to s present h = ground arith

module _ (w : World) where
  pub Keeps-change_session :
      (name agent : String) (f : AgentSession → AgentSession)
      → ((s : AgentSession) → IsSound s → IsSound (f s))
      → Keeps SoundDb (change_session w name agent f)
  unfolding change_session write
  Keeps-change_session name agent f k =
      Keeps-statement SoundDb w name _ (λ db h. All-update_session agent f db.sessions k h)

  -- A statement on another table.
  pub Keeps-write :
      (name : String) (f : Db → Db)
      → ((db : Db) → (f db).sessions ≡ db.sessions)
      → Keeps SoundDb (write w name f)
  unfolding write
  Keeps-write name f k =
      Keeps-statement SoundDb w name _ (λ db h. subst (All IsSound) (sym (k db)) h)

  Keeps-store_state :
      (call : String) (to : AgentState) (reason : String) (s : AgentSession)
      → Keeps SoundDb
          (store_state w (kept_call call to) (next_state (kept_call call to) to s) reason s)
  unfolding store_state write change_session ◌>>=◌
  Keeps-store_state call to reason s =
      let to' = next_state (kept_call call to) to s in
      elim (Bool-cases (is_offline to')) [
        | inl gone ↦ rw gone (
            Keeps-bind SoundDb _ _ (Keeps-write "delete queues" _ (λ db. refl)) λ _.
              Keeps-statement SoundDb w "delete session" _
                (λ db h. All-delete_session s.agent_id db.sessions h))
        | inr stays ↦ rw stays (
            Keeps-change_session "update session" s.agent_id _
              λ r h. record { free = kept_call-next_state call to s stays; present = stays })
      ]

  Keeps-enter_state :
      (call : String) (from to : AgentState) (reason : String) (s : AgentSession)
      → Keeps SoundDb (enter_state w call from to reason s)
  unfolding enter_state log_state end_attempts publish_agent
  Keeps-enter_state call from to reason s = Keeps-if SoundDb _ _ _ (Keeps-fail SoundDb _) (
      Keeps-bind SoundDb _ _ (Keeps-store_state (next_call call s) to reason s) λ _.
        Keeps-bind SoundDb _ _ (Keeps-write "create log" _ (λ db. refl)) λ _.
          Keeps-bind SoundDb _ _
            (Keeps-if SoundDb _ _ _ (Keeps-return SoundDb tt)
              (Keeps-write "update attempts" _ (λ db. refl)))
            λ _. Keeps-write "publish" _ (λ db. refl))

  Keeps-settled :
      (call : String) (from to : AgentState) (reason : String) (o : Option AgentSession)
      → Keeps SoundDb (settled w call from to reason o)
  unfolding settled
  Keeps-settled call from to reason none = Keeps-return SoundDb tt
  Keeps-settled call from to reason (some s) = Keeps-enter_state call from to reason s

  Keeps-settle :
      (call : String) (to : AgentState) (s : AgentSession) → Keeps SoundDb (settle w call to s)
  unfolding settle
  Keeps-settle call to s =
      Keeps-if SoundDb _ _ _
        (Keeps-if SoundDb _ _ _
          (Keeps-bind SoundDb _ _
            (Keeps-change_session "clear call" s.agent_id _
              λ r h. record { free = λ _. refl; present = h.present })
            λ _. Keeps-return SoundDb _)
          (Keeps-if SoundDb _ _ _ (Keeps-return SoundDb _) (Keeps-fail SoundDb _)))
        (Keeps-return SoundDb _)

  Keeps-change_state :
      (call : String) (from to : AgentState) (reason : String) (o : Option AgentSession)
      → Keeps SoundDb (change_state w call from to reason o)
  unfolding change_state
  Keeps-change_state call from to reason none = Keeps-fail SoundDb _
  Keeps-change_state call from to reason (some s) =
      Keeps-if SoundDb _ _ _
        (Keeps-change_session "pending checkout" s.agent_id _
          λ r h. record { free = h.free; present = h.present })
        (Keeps-bind SoundDb _ _ (Keeps-settle call to s) (Keeps-settled call from to reason))

  pub Keeps-set_state :
      (call agent : String) (from to : AgentState) (reason : String)
      → Keeps SoundDb (set_state w call agent from to reason)
  unfolding set_state
  Keeps-set_state call agent from to reason =
      Keeps-bind SoundDb _ _ (Keeps-statement SoundDb w "session" _ (λ db h. h))
        (Keeps-change_state call from to reason)

  Keeps-check_out_found : (o : Option AgentSession) → Keeps SoundDb (check_out_found w o)
  unfolding check_out_found
  Keeps-check_out_found none = Keeps-return SoundDb tt
  Keeps-check_out_found (some s) =
      Keeps-if SoundDb _ _ _ (Keeps-fail SoundDb _)
        (Keeps-set_state "" s.agent_id s.state offline _)

  pub Keeps-check_out : (agent : String) → Keeps SoundDb (check_out w agent)
  unfolding check_out
  Keeps-check_out agent =
      Keeps-bind SoundDb _ _ (Keeps-statement SoundDb w "session" _ (λ db h. h))
        Keeps-check_out_found

  Keeps-set_presence_found :
      (state : AgentState) (reason : String) (o : Option AgentSession)
      → Keeps SoundDb (set_presence_found w state reason o)
  unfolding set_presence_found
  Keeps-set_presence_found state reason none = Keeps-fail SoundDb _
  Keeps-set_presence_found state reason (some s) =
      Keeps-if SoundDb _ _ _ (Keeps-fail SoundDb _)
        (Keeps-set_state "" s.agent_id s.state state reason)

  pub Keeps-set_presence :
      (agent : String) (state : AgentState) (reason : String)
      → Keeps SoundDb (set_presence w agent state reason)
  unfolding set_presence
  Keeps-set_presence agent state reason =
      Keeps-if SoundDb _ _ _
        (Keeps-bind SoundDb _ _ (Keeps-statement SoundDb w "session" _ (λ db h. h))
          (Keeps-set_presence_found state reason))
        (Keeps-fail SoundDb _)
