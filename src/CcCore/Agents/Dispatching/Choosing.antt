-- ===== src/CcCore/Agents/Dispatching/Choosing.antt =====
-- Whom the dispatcher reserves: the first candidate in the order of the query, and one whenever there is
-- one.
use open_voip.Base.{
  ℕ, String, Bool, true, false, ◌≡◌, ◌∙◌, refl, ap, subst, Option, none, some, List, [], ◌∷◌,
  Bool-cases, inl, inr, ◌⊎◌, Has, if_true, if_false, arith,
}
use open_voip.Control.State.{Result, ok, err}
use open_voip.CcCore.Agents.{
  AgentSession, Db, Tx, World, ◌>>=◌, change_session, log_state, on_fault, publish_agent, return,
  statement, update_session, write,
}
use open_voip.CcCore.Agents.Dispatching.{
  DispatchRequest, better, choose, comes_next, first_candidate, is_candidate, order, reserve,
  reserve_found, reserved, store_cursor, waits_longer,
}

-- A strict order in which two that do not stand apart stand alike to every third.
pub record IsWeakOrder {A : Type 0} (before : A → A → Bool) : Type 0 where
  pub asym : (a b : A) → before a b ≡ true → before b a ≡ false
  pub apart : (a b c : A) → before a b ≡ false → before b c ≡ false → before a c ≡ false

module _ (w : World) (version : ℕ) (req : DispatchRequest) (ids : IsWeakOrder w.id_before) where
  waits_longer-IsWeakOrder : IsWeakOrder (waits_longer w version req)
  unfolding waits_longer
  waits_longer-IsWeakOrder = record {
    asym = λ s t h. ground (arith, ids.asym s.agent_id t.agent_id);
    apart = λ s t u h k. ground (arith, ids.apart s.agent_id t.agent_id u.agent_id);
  }

  comes_next-IsWeakOrder : (last : String) → IsWeakOrder (comes_next w version req last)
  unfolding comes_next
  comes_next-IsWeakOrder last = record {
    asym = λ s t h. ground (arith, ids.asym s.agent_id t.agent_id);
    apart = λ s t u h k. ground (arith, ids.apart s.agent_id t.agent_id u.agent_id);
  }

  order-IsWeakOrder : (last : Option String) → IsWeakOrder (order w version req last)
  unfolding order
  order-IsWeakOrder none = waits_longer-IsWeakOrder
  order-IsWeakOrder (some last) = comes_next-IsWeakOrder last

  -- `s` is a candidate of the list, and no candidate of it stands before `s`.
  pub record IsFirst (last : Option String) (db : Db) (rows : List AgentSession) (s : AgentSession)
      : Type 0 where
    pub listed : Has s rows
    pub fit : is_candidate w version req db s ≡ true
    pub first :
        (t : AgentSession)
        → Has t rows
        → is_candidate w version req db t ≡ true
        → order w version req last t s ≡ false

  irreflexive : (last : Option String) (s : AgentSession) → order w version req last s s ≡ false
  irreflexive last s = elim (Bool-cases (order w version req last s s)) [
    | inl h ↦ (order-IsWeakOrder last).asym s s h
    | inr h ↦ h
  ]

  better-IsFirst :
      (last : Option String) (db : Db) (s : AgentSession) (rows : List AgentSession)
      → is_candidate w version req db s ≡ true
      → (t : AgentSession) → IsFirst last db rows t
      → (r : AgentSession) × (better w version req last s (some t) ≡ some r)
        × IsFirst last db (s ∷ rows) r
  unfolding better
  better-IsFirst last db s rows fit t h = elim (Bool-cases (order w version req last t s)) [
    | inl before ↦ (
      t,
      rw before,
      record {
        listed = inr h.listed;
        fit = h.fit;
        first = λ u m c. elim m [
          | inl e ↦
              subst (λ v. order w version req last v t ≡ false) e
                ((order-IsWeakOrder last).asym t s before)
          | inr m ↦ h.first u m c
        ];
      },
    )
    | inr after ↦ (
      s,
      rw after,
      record {
        listed = inl refl;
        fit = fit;
        first = λ u m c. elim m [
          | inl e ↦ subst (λ v. order w version req last v s ≡ false) e (irreflexive last s)
          | inr m ↦ (order-IsWeakOrder last).apart u t s (h.first u m c) after
        ];
      },
    )
  ]

  -- The first row of the query is the first candidate; there is none only if no session is a candidate.
  first_candidate_lem :
      (last : Option String) (db : Db) (rows : List AgentSession)
      → ((s : AgentSession) × (first_candidate w version req last db rows ≡ some s)
          × IsFirst last db rows s)
        ⊎ ((first_candidate w version req last db rows ≡ none)
            × ((t : AgentSession) → Has t rows → is_candidate w version req db t ≡ false))
  unfolding first_candidate better
  first_candidate_lem last db [] = inr (refl, λ t m. elim m [ ])
  first_candidate_lem last db (s ∷ rows) = elim (Bool-cases (is_candidate w version req db s)) [
    | inl fit ↦ elim (first_candidate_lem last db rows) [
      | inl (t, found, h) ↦
          let (r, e, k) = better-IsFirst last db s rows fit t h in
          inl (r, if_true _ _ fit ∙ ap (better w version req last s) found ∙ e, k)
      | inr (found, no_one) ↦ inl (
        s,
        if_true _ _ fit ∙ ap (better w version req last s) found,
        record {
          listed = inl refl;
          fit = fit;
          first = λ u m c. elim m [
            | inl e ↦ subst (λ v. order w version req last v s ≡ false) e (irreflexive last s)
            | inr m ↦ absurd (cc (c, no_one u m))
          ];
        },
      )
    ]
    | inr unfit ↦ elim (first_candidate_lem last db rows) [
      | inl (t, found, h) ↦ inl (
        t,
        if_false _ _ unfit ∙ found,
        record {
          listed = inr h.listed;
          fit = h.fit;
          first = λ u m c. elim m [ inl e ↦ absurd (cc) | inr m ↦ h.first u m c ];
        },
      )
      | inr (found, no_one) ↦ inr (
        if_false _ _ unfit ∙ found,
        λ u m. elim m [
          | inl e ↦ subst (λ v. is_candidate w version req db v ≡ false) e unfit
          | inr m ↦ no_one u m
        ],
      )
    ]
  ]

-- A transaction in which no statement fails: its result, and what becomes of the sessions.
record Yields {A : Type 0} (m : Tx A) (a : A) (g : List AgentSession → List AgentSession)
    : Type 0 where
  at : (db : Db) → (db' : Db) × (m db ≡ ok (a, db')) × (db'.sessions ≡ g db.sessions)

module _ (w : World) (sound : (n : String) → w.fault n ≡ none) where
  Yields-bind :
      {A B : Type 0} {m : Tx A} (f : A → Tx B) {a : A} {b : B}
      (g h : List AgentSession → List AgentSession)
      → Yields m a g
      → Yields (f a) b h
      → Yields (m >>= f) b (λ rows. h (g rows))
  unfolding ◌>>=◌
  Yields-bind {A = A} {B = B} f g h k l = record {
    at = λ db.
        let (db1, done, rows) = k.at db in
        let (db2, rest, rows') = l.at db1 in
        (
          db2,
          ap
                (λ (r : Result (A × Db)).
                  let x : Result (B × Db) = elim r [ ok (a, d) ↦ f a d | err e ↦ err e ] in x)
                done
              ∙ rest,
          rows' ∙ ap h rows,
        );
  }

  Yields-write :
      (name : String) (f : Db → Db)
      → ((db : Db) → (f db).sessions ≡ db.sessions)
      → Yields (write w name f) tt (λ rows. rows)
  unfolding write statement on_fault
  Yields-write name f same = record { at = λ db. (f db, rw (sound name), same db) }

  Yields-change_session :
      (name agent : String) (f : AgentSession → AgentSession)
      → Yields (change_session w name agent f) tt (update_session agent f)
  unfolding change_session write statement on_fault
  Yields-change_session name agent f = record {
    at = λ db. (record db { sessions = update_session agent f db.sessions }, rw (sound name), refl);
  }

  Yields-store_cursor :
      (version : ℕ) (req : DispatchRequest) (last : Option String) (agent : String)
      → Yields (store_cursor w version req last agent) tt (λ rows. rows)
  unfolding store_cursor return
  Yields-store_cursor version req none agent = record { at = λ db. (db, refl, refl) }
  Yields-store_cursor version req (some last) agent = Yields-write "update cursor" _ (λ db. refl)

  Yields-reserve :
      (version : ℕ) (req : DispatchRequest) (last : Option String) (s : AgentSession)
      → Yields
          (reserve w version req last s)
          s.agent_id
          (update_session s.agent_id (reserved w version req))
  unfolding reserve log_state publish_agent return
  Yields-reserve version req last s =
      let keep : List AgentSession → List AgentSession = λ rows. rows in
      Yields-bind _ (update_session s.agent_id (reserved w version req)) keep
        (Yields-change_session "reserve" s.agent_id (reserved w version req))
        (Yields-bind _ keep keep (Yields-write "create log" _ (λ db. refl)) (
          Yields-bind _ keep keep (Yields-store_cursor version req last s.agent_id) (
            Yields-bind _ keep keep (Yields-write "create attempt" _ (λ db. refl)) (
              Yields-bind _ keep keep (Yields-write "publish" _ (λ db. refl)) (
                Yields-bind _ keep keep (Yields-write "publish reserved" _ (λ db. refl))
                  (record { at = λ db. (db, refl, refl) }))))))

  -- Where no statement fails and some agent is a candidate, the dispatcher reserves an agent: a candidate
  -- before whom no other candidate stands, in the order of the queue's strategy. The agent then rings for
  -- the call, and no other session changes. The ids of agents are supposed to be ordered.
  pub choose_serves :
      (version : ℕ) (req : DispatchRequest) (ids : IsWeakOrder w.id_before) (last : Option String)
      (db : Db) (t : AgentSession)
      → Has t db.sessions
      → is_candidate w version req db t ≡ true
      → (s : AgentSession) × (db' : Db) × (choose w version req last db ≡ ok (s.agent_id, db'))
        × IsFirst w version req ids last db db.sessions s
        × (db'.sessions ≡ update_session s.agent_id (reserved w version req) db.sessions)
  unfolding choose ◌>>=◌ statement on_fault reserve_found
  choose_serves version req ids last db t listed fit =
      elim (first_candidate_lem w version req ids last db db.sessions) [
        | inl (s, found, h) ↦
            let (db', done, rows) = (Yields-reserve version req last s).at db in
            (s, db', rw (sound "candidates") (rw found done), h, rows)
        | inr (found, no_one) ↦ absurd (cc (fit, no_one t listed))
      ]
