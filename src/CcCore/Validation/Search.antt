-- ===== src/CcCore/Validation/Search.antt =====
-- The search of `validateIVR` finds the nodes that can be reached from the start, and ends.
use open_voip.Base.{
  ℕ, zero, suc, String, ◌==◌, eq_iff, eq_refl, ◌≡◌, refl, sym, subst, contains, Bool-cases, true,
  false, ◌||◌, inl, inr, ◌⊎◌, ◌↔◌, some, List, [], ◌∷◌, ◌++◌, arith,
}
use mathlib.Core.Option.{some-injective}
use open_voip.Ivr.{IvrDoc}
use open_voip.CcCore.Nodes.{edges_at}
use open_voip.CcCore.Validation.{discover, walk}

-- A node that a path of edges leads to, from the start.
pub data Reach (doc : IvrDoc) : String → Type 0 where
  at_start : Reach doc doc.start
  along :
      (id next : String)
      → Reach doc id
      → (next == "") ≡ false
      → contains next (edges_at doc id) ≡ true
      → Reach doc next

-- A text of the list has the property.
abbrev pub AllIn : (String → Type 0) → List String → Type 0
AllIn P xs = (x : String) → contains x xs ≡ true → P x

contains-append :
    (x : String) (xs ys : List String) → contains x (xs ++ ys) ≡ (contains x xs || contains x ys)
contains-append x [] ys = refl
contains-append x (y ∷ xs) ys = ground (arith, contains-append x xs ys)

pub contains_here : (x y : String) (xs : List String) → (x == y) ≡ true → contains y (x ∷ xs) ≡ true
contains_here x y xs e = ground arith

pub contains_there :
    (x y : String) (xs : List String) → contains y xs ≡ true → contains y (x ∷ xs) ≡ true
contains_there x y xs e = ground arith

pub contains_rest :
    (x y : String) (xs : List String)
    → (x == y) ≡ false
    → contains y (x ∷ xs) ≡ true
    → contains y xs ≡ true
contains_rest x y xs n e = ground arith

contains_last :
    (x y : String) (xs : List String)
    → contains y (xs ++ x ∷ []) ≡ true
    → (contains y xs ≡ true) ⊎ ((x == y) ≡ true)
contains_last x y xs h = ground (arith, contains-append y xs (x ∷ []))

contains_before :
    (x y : String) (xs : List String) → contains y xs ≡ true → contains y (xs ++ x ∷ []) ≡ true
contains_before x y xs h = ground (arith, contains-append y xs (x ∷ []))

contains_at_end :
    (x y : String) (xs : List String) → (x == y) ≡ true → contains y (xs ++ x ∷ []) ≡ true
contains_at_end x y xs h = ground (arith, contains-append y xs (x ∷ []))

module _ (P : String → Type 0) where
  AllIn-cons : (x : String) (xs : List String) → P x → AllIn P xs → AllIn P (x ∷ xs)
  AllIn-cons x xs p ps y h = elim (Bool-cases (x == y)) [
    | inl e ↦ subst P ((eq_iff x y).0 e) p
    | inr e ↦ ps y (contains_rest x y xs e h)
  ]

  AllIn-last : (x : String) (xs : List String) → P x → AllIn P xs → AllIn P (xs ++ x ∷ [])
  AllIn-last x xs p ps y h = elim (contains_last x y xs h) [
    | inl k ↦ ps y k
    | inr e ↦ subst P ((eq_iff x y).0 e) p
  ]

  -- What holds of the targets and of all that was found before, holds of all that is found.
  discover-AllIn :
      (targets seen queue : List String)
      → ((y : String) → contains y targets ≡ true → (y == "") ≡ false → P y)
      → AllIn P seen
      → AllIn P queue
      → let found = discover targets seen queue in AllIn P found.0 × AllIn P found.1
  unfolding discover
  discover-AllIn [] seen queue t s q = (s, q)
  discover-AllIn (x ∷ targets) seen queue t s q = elim (Bool-cases (x == "" || contains x seen)) [
    | inl known ↦
        rw known (discover-AllIn targets seen queue (λ y h. t y (contains_there x y targets h)) s q)
    | inr fresh ↦
        let p : P x = t x (contains_here x x targets (eq_refl x)) (ground arith) in
        rw fresh (
          discover-AllIn targets (x ∷ seen) (queue ++ x ∷ [])
            (λ y h. t y (contains_there x y targets h)) (AllIn-cons x seen p s)
            (AllIn-last x queue p q))
  ]

-- Nothing that was found is lost, and every target is found.
discover-keeps :
    (y : String) (targets seen queue : List String)
    → let found = discover targets seen queue in
      (contains y seen ≡ true → contains y found.0 ≡ true)
      × (contains y queue ≡ true → contains y found.1 ≡ true)
unfolding discover
discover-keeps y [] seen queue = (λ h. h, λ h. h)
discover-keeps y (x ∷ targets) seen queue = elim (Bool-cases (x == "" || contains x seen)) [
  | inl known ↦ rw known (discover-keeps y targets seen queue)
  | inr fresh ↦
      let rest = discover-keeps y targets (x ∷ seen) (queue ++ x ∷ []) in
      rw fresh (λ h. rest.0 (contains_there x y seen h), λ h. rest.1 (contains_before x y queue h))
]

known_seen :
    (x y : String) (seen : List String)
    → (x == y) ≡ true
    → (y == "") ≡ false
    → (x == "" || contains x seen) ≡ true
    → contains y seen ≡ true
known_seen x y seen e n known = ground (arith, eq_iff x y)

discover-covers :
    (y : String) (targets seen queue : List String)
    → contains y targets ≡ true
    → (y == "") ≡ false
    → contains y (discover targets seen queue).0 ≡ true
unfolding discover
discover-covers y [] seen queue h n = absurd (ground arith)
discover-covers y (x ∷ targets) seen queue h n = elim (Bool-cases (x == "" || contains x seen)) [
  | inl known ↦ rw known (elim (Bool-cases (x == y)) [
    | inl e ↦ (discover-keeps y targets seen queue).0 (known_seen x y seen e n known)
    | inr e ↦ discover-covers y targets seen queue (contains_rest x y targets e h) n
  ])
  | inr fresh ↦ rw fresh (elim (Bool-cases (x == y)) [
    | inl e ↦ (discover-keeps y targets (x ∷ seen) (queue ++ x ∷ [])).0 (contains_here x y seen e)
    | inr e ↦
        discover-covers y targets (x ∷ seen) (queue ++ x ∷ []) (contains_rest x y targets e h) n
  ])
]

-- What is found anew waits in the queue.
discover_new :
    (y : String) (targets seen queue : List String)
    → let found = discover targets seen queue in
      contains y found.0 ≡ true → (contains y seen ≡ true) ⊎ (contains y found.1 ≡ true)
unfolding discover
discover_new y [] seen queue = λ h. inl h
discover_new y (x ∷ targets) seen queue = elim (Bool-cases (x == "" || contains x seen)) [
  | inl known ↦ rw known (discover_new y targets seen queue)
  | inr fresh ↦ rw fresh λ h. elim (discover_new y targets (x ∷ seen) (queue ++ x ∷ []) h) [
    | inl s ↦ elim (Bool-cases (x == y)) [
      | inl e ↦
          inr (
            (discover-keeps y targets (x ∷ seen) (queue ++ x ∷ [])).1 (contains_at_end x y queue e))
      | inr e ↦ inl (contains_rest x y seen e s)
    ]
    | inr q ↦ inr q
  ]
]

module _ (doc : IvrDoc) where
  -- All that the search finds can be reached.
  walk-AllIn :
      (fuel : ℕ) (seen queue result : List String)
      → walk doc fuel seen queue ≡ some result
      → AllIn (Reach doc) seen
      → AllIn (Reach doc) queue
      → AllIn (Reach doc) result
  unfolding walk
  walk-AllIn fuel seen [] result e s q = subst (AllIn (Reach doc)) (some-injective _ _ e) s
  walk-AllIn zero seen (id ∷ queue) result e s q = cc
  walk-AllIn (suc fuel) seen (id ∷ queue) result e s q =
      let sound =
        discover-AllIn (Reach doc) (edges_at doc id) seen queue
          (λ y h n. along id y (q id (contains_here id id queue (eq_refl id))) n h) s
          (λ y h. q y (contains_there id y queue h)) in
      walk-AllIn fuel _ _ result e sound.0 sound.1

  -- All targets of the node were found.
  abbrev Expanded : List String → String → Type 0
  Expanded seen x =
      (y : String) → contains y (edges_at doc x) ≡ true → (y == "") ≡ false → contains y seen ≡ true

  -- What was found waits in the queue, or its targets were found.
  abbrev Done : List String → List String → Type 0
  Done seen queue =
      (x : String) → contains x seen ≡ true → (contains x queue ≡ true) ⊎ Expanded seen x

  discover-Done :
      (id : String) (seen queue : List String)
      → Done seen (id ∷ queue)
      → let found = discover (edges_at doc id) seen queue in Done found.0 found.1
  discover-Done id seen queue done x h = elim (discover_new x (edges_at doc id) seen queue h) [
    | inr q ↦ inl q
    | inl s ↦ elim (done x s) [
      | inr expanded ↦
          inr (λ y e n. (discover-keeps y (edges_at doc id) seen queue).0 (expanded y e n))
      | inl waits ↦ elim (Bool-cases (id == x)) [
        | inl e ↦ inr (λ y h n.
            discover-covers y (edges_at doc id) seen queue
              (subst (λ z. contains y (edges_at doc z) ≡ true) (sym ((eq_iff id x).0 e)) h) n)
        | inr e ↦
            inl
              ((discover-keeps x (edges_at doc id) seen queue).1 (contains_rest id x queue e waits))
      ]
    ]
  ]

  -- The result of the search holds what was found before, and the targets of all that it holds.
  walk-Done :
      (fuel : ℕ) (seen queue result : List String)
      → walk doc fuel seen queue ≡ some result
      → Done seen queue
      → ((y : String) → contains y seen ≡ true → contains y result ≡ true)
        × AllIn (Expanded result) result
  unfolding walk
  walk-Done fuel seen [] result e done =
      subst
        (λ r. ((y : String) → contains y seen ≡ true → contains y r ≡ true) × AllIn (Expanded r) r)
        (some-injective _ _ e)
        (
          λ y h. h,
          λ x h. elim (done x h) [ inl waits ↦ absurd (cc waits) | inr expanded ↦ expanded ],
        )
  walk-Done zero seen (id ∷ queue) result e done = cc
  walk-Done (suc fuel) seen (id ∷ queue) result e done =
      let rest = walk-Done fuel _ _ result e (discover-Done id seen queue done) in
      (λ y h. rest.0 y ((discover-keeps y (edges_at doc id) seen queue).0 h), rest.1)

  Reach-found :
      (result : List String)
      → contains doc.start result ≡ true
      → AllIn (Expanded result) result
      → (x : String) → Reach doc x
      → contains x result ≡ true
  Reach-found result s closed x at_start = s
  Reach-found result s closed x (along id y r n h) =
      closed id (Reach-found result s closed id r) y h n

  -- The search that ends has found exactly what can be reached.
  pub walk_exact :
      (fuel : ℕ) (result : List String)
      → walk doc fuel (doc.start ∷ []) (doc.start ∷ []) ≡ some result
      → (x : String) → (contains x result ≡ true) ↔ Reach doc x
  walk_exact fuel result e x =
      let found = walk-Done fuel _ _ result e (λ y h. inl h) in
      (
        walk-AllIn fuel _ _ result e (AllIn-cons (Reach doc) _ [] at_start (λ y h. absurd (cc h)))
            (AllIn-cons (Reach doc) _ [] at_start (λ y h. absurd (cc h))) x,
        Reach-found result
            (found.0 doc.start (contains_here doc.start doc.start [] (eq_refl doc.start))) found.1
            x,
      )
