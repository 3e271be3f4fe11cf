-- ===== src/CcCore/Validation/Fuel.antt =====
-- The search of `validateIVR` ends: a node enters the queue once.
use open_voip.Base.{
  ℕ, zero, suc, ◌+◌, ◌≤◌, String, ◌==◌, eq_iff, ◌≡◌, refl, subst, contains, find, length,
  if◌then◌else◌, Bool-cases, true, false, ◌||◌, inl, inr, is_some, some, List, [], ◌∷◌, ◌++◌, arith,
  length-append,
}
use open_voip.Ivr.{IvrDoc, IvrNode, node_at}
use open_voip.CcCore.Nodes.{edges_at, has_missing}
use open_voip.CcCore.Validation.{discover, walk, walk_fuel}

-- How many nodes were not found yet.
unseen : List String → List (String × IvrNode) → ℕ
unseen seen [] = 0
unseen seen ((id, node) ∷ rest) =
    let later = unseen seen rest in if contains id seen then later else suc later

module _ (x : String) (seen : List String) where
  unseen-more : (nodes : List (String × IvrNode)) → unseen (x ∷ seen) nodes ≤ unseen seen nodes
  unfolding unseen
  unseen-more [] = omega arith
  unseen-more ((id, node) ∷ rest) = ground (arith, unseen-more rest)

  -- A node that is found anew is one less to find.
  unseen-found :
      (nodes : List (String × IvrNode))
      → contains x seen ≡ false
      → is_some (find x nodes) ≡ true
      → suc (unseen (x ∷ seen) nodes) ≤ unseen seen nodes
  unfolding unseen
  unseen-found [] n h = absurd (cc h)
  unseen-found ((id, node) ∷ rest) n h = elim (Bool-cases (id == x)) [
    | inl e ↦ ground (arith, eq_iff id x, unseen-more rest)
    | inr e ↦ ground (arith, unseen-found rest n (unfound e h))
  ]
    where
      unfound :
          (id == x) ≡ false
          → is_some (find x ((id, node) ∷ rest)) ≡ true
          → is_some (find x rest) ≡ true
      unfound e h = subst (λ b. is_some (if b then some node else find x rest) ≡ true) e h

module _ (doc : IvrDoc) where
  discover-unseen :
      (targets seen queue : List String)
      → has_missing doc targets ≡ false
      → let found = discover targets seen queue in
        unseen found.0 doc.nodes + length found.1 ≤ unseen seen doc.nodes + length queue
  unfolding discover has_missing node_at
  discover-unseen [] seen queue h = omega arith
  discover-unseen (x ∷ targets) seen queue h = elim (Bool-cases (x == "" || contains x seen)) [
    | inl known ↦ rw known (discover-unseen targets seen queue (ground arith))
    | inr fresh ↦
        let more = unseen-found x seen doc.nodes (ground arith) (ground arith) in
        rw fresh (
          omega (
            arith,
            more,
            length-append queue (x ∷ []),
            discover-unseen targets (x ∷ seen) (queue ++ x ∷ []) (ground arith),
          ))
  ]

  walk-Ends :
      (fuel : ℕ) (seen queue : List String)
      → ((id : String) → has_missing doc (edges_at doc id) ≡ false)
      → unseen seen doc.nodes + length queue ≤ fuel
      → is_some (walk doc fuel seen queue) ≡ true
  unfolding walk
  walk-Ends fuel seen [] closed enough = refl
  walk-Ends zero seen (id ∷ queue) closed enough = absurd (omega arith)
  walk-Ends (suc fuel) seen (id ∷ queue) closed enough =
      walk-Ends fuel _ _ closed
        (omega (arith, discover-unseen (edges_at doc id) seen queue (closed id)))

  unseen-all :
      (seen : List String) (nodes : List (String × IvrNode)) → unseen seen nodes ≤ length nodes
  unfolding unseen
  unseen-all seen [] = omega arith
  unseen-all seen ((id, node) ∷ rest) = ground (arith, unseen-all seen rest)

  -- The fuel of `reach_fault` is enough where every edge leads to a node.
  pub walk_fuel_suffices :
      ((id : String) → has_missing doc (edges_at doc id) ≡ false)
      → is_some (walk doc (walk_fuel doc) (doc.start ∷ []) (doc.start ∷ [])) ≡ true
  walk_fuel_suffices closed =
      walk-Ends (walk_fuel doc) _ _ closed (omega (arith, unseen-all (doc.start ∷ []) doc.nodes))
