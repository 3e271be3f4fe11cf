-- ===== src/CcCore/Validation/Exact.antt =====
-- What `validateIVR` accepts, said without its loops: an independent description of a flow that may be
-- published.
use mathlib.Core.Option.{some-injective}
use open_voip.Base.{
  ◌=?◌, ◌≤◌, ltb, All, String, ◌==◌, eq_iff, eq_refl, ◌≡◌, refl, subst, contains, find, length,
  if◌then◌else◌, Bool, Bool-cases, true, false, not, ◌||◌, inl, inr, ◌↔◌, is_some, Option, none,
  some, List, [], ◌∷◌, arith,
}
use open_voip.Ivr.{IvrDoc, IvrNode, node_at}
use open_voip.CcCore.{Library}
use open_voip.CcCore.Nodes.{
  edges_at, edges_of, edges_of_found, flow_node_fault, has_missing, node_fault, nodes_fault,
}
use open_voip.CcCore.Faults.{fault, first_fault-none, guard-none}
use open_voip.CcCore.Validation.{
  doc_fault, has_unseen, reach_fault, unreached_fault, walk, walk_fuel,
}
use open_voip.CcCore.Validation.Fuel.{walk_fuel_suffices}
use open_voip.CcCore.Validation.Search.{
  AllIn, Reach, contains_here, contains_there, contains_rest, walk_exact,
}

-- Every target that is named is a node.
abbrev pub IsClosed : IvrDoc → List String → Type 0
IsClosed doc targets = AllIn (λ y. (y == "") ≡ false → is_some (node_at doc y) ≡ true) targets

pub record IsPublishable (lib : Library) (queues : String → Bool) (doc : IvrDoc) : Type 0 where
  pub start_named : (doc.start == "") ≡ false
  pub starts : is_some (node_at doc doc.start) ≡ true
  pub some_node : 1 ≤ length doc.nodes
  pub not_many : length doc.nodes ≤ 100
  pub nodes_pass : All (λ n. node_fault lib queues n.1 ≡ none) doc.nodes
  pub edges_lead : All (λ n. IsClosed doc (edges_of n.1)) doc.nodes
  pub all_reached : All (λ n. Reach doc n.0) doc.nodes

module _ (doc : IvrDoc) where
  missing-IsClosed :
      (targets : List String) → has_missing doc targets ≡ false → IsClosed doc targets
  unfolding has_missing
  missing-IsClosed [] h y k n = absurd (cc k)
  missing-IsClosed (x ∷ targets) h y k n = elim (Bool-cases (x == y)) [
    | inl e ↦
        subst (λ z. is_some (node_at doc z) ≡ true) ((eq_iff x y).0 e) (ground (arith, eq_iff x y))
    | inr e ↦ missing-IsClosed targets (ground arith) y (contains_rest x y targets e k) n
  ]

  IsClosed-missing :
      (targets : List String) → IsClosed doc targets → has_missing doc targets ≡ false
  unfolding has_missing
  IsClosed-missing [] c = refl
  IsClosed-missing (x ∷ targets) c =
      let rest = IsClosed-missing targets (λ y k. c y (contains_there x y targets k)) in
      let here = c x (contains_here x x targets (eq_refl x)) in
      elim (Bool-cases (x == "")) [
        | inl e ↦ ground arith
        | inr e ↦ let found = here e in ground arith
      ]

  unseen-All :
      (seen : List String) (nodes : List (String × IvrNode))
      → (has_unseen seen nodes ≡ false) ↔ All (λ n. contains n.0 seen ≡ true) nodes
  unfolding has_unseen
  unseen-All seen [] = (λ h. tt, λ h. refl)
  unseen-All seen ((id, node) ∷ rest) =
      let later = unseen-All seen rest in
      (
        λ h. (ground arith, later.0 (ground arith)),
        λ h. let r = later.1 h.1 in ground (arith, r, h.0),
      )

-- A property of all entries is one of the value that a key has.
find-All :
    {V : Type 0} (P : String × V → Type 0) (k : String) (m : List (String × V)) (v : V)
    → All P m
    → find k m ≡ some v
    → P (k, v)
find-All P k [] v h e = absurd (cc e)
find-All P k ((j, u) ∷ m) v h e = elim (Bool-cases (j == k)) [
  | inl same ↦
      let is_v : u ≡ v =
        some-injective _ _ (subst (λ b. (if b then some u else find k m) ≡ some v) same e) in
      subst (λ i. P (i, v)) ((eq_iff j k).0 same) (subst (λ w. P (j, w)) is_v h.0)
  | inr other ↦
      find-All P k m v h.1 (subst (λ b. (if b then some u else find k m) ≡ some v) other e)
]

map-All :
    {A : Type 0} {P Q : A → Type 0} (f : (a : A) → P a → Q a) (xs : List A) → All P xs → All Q xs
map-All f [] h = tt
map-All f (x ∷ xs) h = (f x h.0, map-All f xs h.1)

both-All :
    {A : Type 0} (P Q : A → Type 0) (xs : List A) → All P xs → All Q xs → All (λ a. P a × Q a) xs
both-All P Q [] h k = tt
both-All P Q (x ∷ xs) h k = ((h.0, k.0), both-All P Q xs h.1 k.1)

module _ (lib : Library) (queues : String → Bool) (doc : IvrDoc) where
  abbrev Passes : String × IvrNode → Type 0
  Passes n = (node_fault lib queues n.1 ≡ none) × IsClosed doc (edges_of n.1)

  flow_node_exact :
      (id : String) (node : IvrNode)
      → (flow_node_fault lib queues doc node ≡ none) ↔ Passes (id, node)
  unfolding flow_node_fault
  flow_node_exact id node =
      let split =
        first_fault-none (node_fault lib queues node)
          (if has_missing doc (edges_of node) then fault "IVR 后续节点不存在" else none) in
      let edges = guard-none (has_missing doc (edges_of node)) "IVR 后续节点不存在" none in
      (
        λ h. ((split.0 h).0, missing-IsClosed doc _ (edges.0 (split.0 h).1).0),
        λ h. split.1 (h.0, edges.1 (IsClosed-missing doc _ h.1, refl)),
      )

  nodes_exact :
      (nodes : List (String × IvrNode))
      → (nodes_fault lib queues doc nodes ≡ none) ↔ All Passes nodes
  unfolding nodes_fault
  nodes_exact [] = (λ h. tt, λ h. refl)
  nodes_exact ((id, node) ∷ rest) =
      let split =
        first_fault-none (flow_node_fault lib queues doc node) (nodes_fault lib queues doc rest) in
      let here = flow_node_exact id node in
      let later = nodes_exact rest in
      (λ h. (here.0 (split.0 h).0, later.0 (split.0 h).1), λ h. split.1 (here.1 h.0, later.1 h.1))

  found_closed :
      All Passes doc.nodes
      → (id : String) (o : Option IvrNode) → find id doc.nodes ≡ o
      → has_missing doc (edges_of_found o) ≡ false
  unfolding has_missing
  found_closed h id none e = refl
  found_closed h id (some node) e =
      IsClosed-missing doc (edges_of node) (find-All Passes id doc.nodes node h e).1

  -- Every edge of the document leads to a node.
  edges_closed : All Passes doc.nodes → (id : String) → has_missing doc (edges_at doc id) ≡ false
  unfolding edges_at node_at
  edges_closed h id = found_closed h id (find id doc.nodes) refl

  unreached_fault_lem :
      (found : Option (List String))
      → is_some found ≡ true
      → walk doc (walk_fuel doc) (doc.start ∷ []) (doc.start ∷ []) ≡ found
      → (unreached_fault doc found ≡ none) ↔ All (λ n. Reach doc n.0) doc.nodes
  unreached_fault_lem none h e = absurd (cc h)
  unreached_fault_lem (some seen) h e =
      let exact = walk_exact doc (walk_fuel doc) seen e in
      let guard = guard-none (has_unseen seen doc.nodes) "IVR 存在不可达节点" none in
      let all = unseen-All doc seen doc.nodes in
      (
        λ k. map-All (λ n s. (exact n.0).0 s) doc.nodes (all.0 (guard.0 k).0),
        λ k. guard.1 (all.1 (map-All (λ n r. (exact n.0).1 r) doc.nodes k), refl),
      )

  reach_fault_lem :
      All Passes doc.nodes → (reach_fault doc ≡ none) ↔ All (λ n. Reach doc n.0) doc.nodes
  unfolding reach_fault
  reach_fault_lem h = unreached_fault_lem _ (walk_fuel_suffices doc (edges_closed h)) refl

  -- `validateIVR` accepts the flow that it has read exactly if the flow may be published: its start is
  -- one of its 1 to 100 nodes, every node passes the checks of its type, every edge leads to a node,
  -- and a path of edges leads from the start to every node.
  pub validation_exact : (doc_fault lib queues doc ≡ none) ↔ IsPublishable lib queues doc
  unfolding doc_fault
  validation_exact =
      let nodes = nodes_exact doc.nodes in
      let split = first_fault-none (nodes_fault lib queues doc doc.nodes) (reach_fault doc) in
      let small =
        guard-none (doc.start == "" || length doc.nodes =? 0 || ltb 100 (length doc.nodes))
          "IVR 图无效" _ in
      let start = guard-none (not (is_some (node_at doc doc.start))) "IVR start 节点不存在" _ in
      (
        λ h.
            let rest = split.0 (start.0 (small.0 h).1).1 in
            let passes = nodes.0 rest.0 in
            record {
              start_named = ground (arith, (small.0 h).0);
              starts = ground (arith, (start.0 (small.0 h).1).0);
              some_node = ground (arith, (small.0 h).0);
              not_many = ground (arith, (small.0 h).0);
              nodes_pass = map-All (λ n p. p.0) doc.nodes passes;
              edges_lead = map-All (λ n p. p.1) doc.nodes passes;
              all_reached = (reach_fault_lem passes).0 rest.1;
            },
        λ h.
            let passes = both-All _ _ doc.nodes h.nodes_pass h.edges_lead in
            small.1 (
              ground (arith, h.start_named, h.some_node, h.not_many),
              start.1 (
                ground (arith, h.starts),
                split.1 (nodes.1 passes, (reach_fault_lem passes).1 h.all_reached),
              ),
            ),
      )
