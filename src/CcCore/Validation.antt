-- ===== src/CcCore/Validation.antt =====
-- `validateIVR` of cccore/ivr_validation.go: what a flow must pass before it is published.
pub mod Booting
pub mod Exact
pub mod Fuel
pub mod Search
use open_voip.Base.{
  ℕ, zero, suc, ◌=?◌, ltb, String, ◌==◌, if◌then◌else◌, contains, length, Bool, true, false, not,
  ◌||◌, ◌&&◌, is_some, Option, none, some, List, [], ◌∷◌, ◌++◌,
}
use open_voip.Base.Int.{ℤ, pos, ltb_ℤ}
use open_voip.Errs.{ApiError, invalid_request_error}
use open_voip.Ivr.{IvrDoc, IvrNode, node_at}
use open_voip.CcCore.{Library}
use open_voip.CcCore.Faults.{fault, first_fault}
use open_voip.CcCore.Nodes.{edges_of, edges_at, nodes_fault}

-- The search from the start: the targets of one node, then node after node from the queue. Fuel is taken
-- for each node that leaves the queue; none where it runs out.
unfoldable pub discover : List String → List String → List String → List String × List String
discover [] seen queue = (seen, queue)
discover (next ∷ rest) seen queue =
    if next == "" || contains next seen
    then discover rest seen queue
    else discover rest (next ∷ seen) (queue ++ next ∷ [])

unfoldable pub walk : IvrDoc → ℕ → List String → List String → Option (List String)
walk doc fuel seen [] = some seen
walk doc zero seen (id ∷ queue) = none
walk doc (suc fuel) seen (id ∷ queue) =
    let found = discover (edges_at doc id) seen queue in walk doc fuel found.0 found.1

-- Enough for every flow, since a node enters the queue once.
abbrev pub walk_fuel : IvrDoc → ℕ
walk_fuel doc = suc (length doc.nodes)

unfoldable pub has_unseen : List String → List (String × IvrNode) → Bool
has_unseen seen [] = false
has_unseen seen ((id, node) ∷ rest) = not (contains id seen) || has_unseen seen rest

-- The last loop: every node was found.
abbrev pub unreached_fault : IvrDoc → Option (List String) → Option ApiError
unreached_fault doc none = fault "fuel"
unreached_fault doc (some seen) = if has_unseen seen doc.nodes then fault "IVR 存在不可达节点" else none

unfoldable pub reach_fault : IvrDoc → Option ApiError
reach_fault doc = unreached_fault doc (walk doc (walk_fuel doc) (doc.start ∷ []) (doc.start ∷ []))

module _ (lib : Library) (queues : String → Bool) where
  -- `validateIVR` of the flow that was read.
  unfoldable pub doc_fault : IvrDoc → Option ApiError
  doc_fault doc =
      if doc.start == "" || length doc.nodes =? 0 || ltb 100 (length doc.nodes)
      then fault "IVR 图无效"
      else if not (is_some (node_at doc doc.start))
      then fault "IVR start 节点不存在"
      else first_fault (nodes_fault lib queues doc doc.nodes) (reach_fault doc)

  unfoldable pub validate_ivr : String → Option ApiError
  validate_ivr payload = elim (lib.parse_doc payload) [
    | none ↦ fault "IVR 图无效"
    | some doc ↦ doc_fault doc
  ]
