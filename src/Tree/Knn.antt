-- ===== src/Tree/Knn.antt =====
-- goko/src/covertree/node.rs and tree.rs: the search for the k nearest points. The loops are on
-- fuel, and panic where it runs out.
pub mod Invariant
pub mod Visits
pub mod Nodes
pub mod Singles
pub mod Pops
pub mod Loops
pub mod Drain
pub mod Exact
use goko.Common.{
  ℕ, zero, suc, Bool, true, false, Option, none, some, List, [], ◌∷◌, map, get_elem?, unwrap_or,
  if◌then◌else◌,
}
use goko.Common.Outcome.{Outcome, ok, err, panic, ◌>>=◌, asserted}
use goko.Address.{NodeAddress, point_index}
use goko.Points.Float.{Float, Cloud}
use goko.Points.Distances.{distances}
use goko.Cover.Node.{GokoError, point_cloud_error, CoverNode, is_leaf}
use goko.Query.Heap.{KnnQueryHeap, new, push_nodes, push_outliers, unpack}
use goko.Query.Pops.{
  closest_unvisited_child_covering_address, closest_unvisited_singleton_covering_address,
}
use goko.Tree.Reader.{CoverTree, get_node}

-- A search of a node that may fail after some pushes: the error with the heap as it is then.
abbrev pub Searched : Float → Type 0
Searched fl = Outcome (GokoError × KnnQueryHeap fl) (KnnQueryHeap fl)

module _ {fl : Float} where
  -- `?` on a result of the point cloud, with the heap as it is.
  abbrev pub or_stop :
      {A : Type 0} → KnnQueryHeap fl → Option A → Outcome (GokoError × KnnQueryHeap fl) A
  or_stop h none = err (point_cloud_error, h)
  or_stop h (some a) = ok a

  -- The search of a node whose error is dropped.
  abbrev pub dropping : Searched fl → Outcome GokoError (KnnQueryHeap fl)
  dropping (ok h) = ok h
  dropping (err (e, h)) = ok h
  dropping panic = panic

module _ {fl : Float} (cloud : Cloud fl) where
  open fl use {F}
  open cloud use {Point, point, dist}

  -- `CoverNode::singleton_knn`
  unfoldable pub singleton_knn : Point → CoverNode F → KnnQueryHeap fl → Searched fl
  singleton_knn x n h = do
    ds ← or_stop h (distances cloud x n.singles_indexes)
    ok (push_outliers fl n.singles_indexes ds h)

  -- `CoverNode::child_knn`: the argument of `unwrap_or` is computed whether it is used or not.
  unfoldable pub child_knn : Option F → Point → CoverNode F → KnnQueryHeap fl → Searched fl
  child_knn dist_to_center x n h = do
    own ← or_stop h (distances cloud x (point_index n.address ∷ []))
    computed ← asserted (get_elem? own 0)
    let d = unwrap_or dist_to_center computed
    elim n.children [
      | none ↦ ok h
      | some [] ↦ panic
      | some (c ∷ cs) ↦ do
        let h1 = push_nodes fl (c ∷ []) (d ∷ []) none h
        ds ← or_stop h1 (distances cloud x (map point_index cs))
        ok (push_nodes fl cs ds (some n.address) h1)
    ]

  -- `CoverNode::knn`
  unfoldable pub node_knn : Option F → Point → CoverNode F → KnnQueryHeap fl → Searched fl
  node_knn dist_to_center x n h = do
    h1 ← singleton_knn x n h
    own ← or_stop h1 (distances cloud x (point_index n.address ∷ []))
    computed ← asserted (get_elem? own 0)
    let d = unwrap_or dist_to_center computed
    h2 ← child_knn (some d) x n h1
    ok (elim n.children [
      | none ↦ push_outliers fl (point_index n.address ∷ []) (d ∷ []) h2
      | some cs ↦ h2
    ])

  -- `get_node_and(nearest_address, |n| n.is_leaf()).unwrap_or(true)` is false.
  unfoldable pub routing : Option (CoverNode F) → Option (CoverNode F)
  routing none = none
  routing (some n) = elim n.children [ none ↦ none | some cs ↦ some n ]

  -- One turn of the loop of `greedy_knn_nodes` at the node that was popped; `go_on` is the rest.
  unfoldable pub greedy_turn :
      (KnnQueryHeap fl → Outcome GokoError (Bool × KnnQueryHeap fl))
      → Point
      → F
      → KnnQueryHeap fl
      → Option (CoverNode F)
      → Outcome GokoError (Bool × KnnQueryHeap fl)
  greedy_turn go_on x d h node = elim (routing node) [
    | none ↦ ok (false, h)
    | some n ↦ do h1 ← dropping (child_knn (some d) x n h); (did, h2) ← go_on h1; ok (true, h2)
  ]

  -- `greedy_knn_nodes`, with `did_something`.
  unfoldable pub greedy_knn_nodes :
      ℕ → CoverTree F → Point → KnnQueryHeap fl → Outcome GokoError (Bool × KnnQueryHeap fl)
  greedy_knn_nodes zero t x h = panic
  greedy_knn_nodes (suc fuel) t x h = do
    (nearest, h1) ← closest_unvisited_child_covering_address fl h
    elim nearest [
      | none ↦ ok (false, h1)
      | some (address, d) ↦ do
        node ← get_node t address
        greedy_turn (greedy_knn_nodes fuel t x) x d h1 node
    ]

  -- The loop of `knn` over the singleton heap.
  unfoldable pub drain :
      ℕ → ℕ → CoverTree F → Point → KnnQueryHeap fl → Outcome GokoError (KnnQueryHeap fl)
  drain zero inner t x h = panic
  drain (suc fuel) inner t x h = do
    (nearest, h1) ← closest_unvisited_singleton_covering_address fl h
    elim nearest [
      | none ↦ ok h1
      | some (address, d) ↦ do
        node ← get_node t address
        h2 ← elim node [ none ↦ ok h1 | some n ↦ dropping (singleton_knn x n h1) ]
        (did, h3) ← greedy_knn_nodes inner t x h2
        drain fuel inner t x h3
    ]

  -- What `knn` and `routing_knn` start with.
  unfoldable pub root_search : ℕ → CoverTree F → Point → ℕ → Outcome GokoError (KnnQueryHeap fl)
  root_search fuel t x k = do
    root_center ← elim (point (point_index t.root_address)) [
      | none ↦ err point_cloud_error
      | some c ↦ ok c
    ]
    let h = push_nodes fl (t.root_address ∷ []) (dist root_center x ∷ []) none (new fl k)
    (did, h1) ← greedy_knn_nodes fuel t x h
    ok h1

  unfoldable pub knn : ℕ → CoverTree F → Point → ℕ → Outcome GokoError (List (ℕ × F))
  knn fuel t x k = do h ← root_search fuel t x k; h1 ← drain fuel fuel t x h; ok (unpack fl h1)

  -- `while self.greedy_knn_nodes(point, &mut query_heap) {}`
  unfoldable pub greedy_while :
      ℕ → ℕ → CoverTree F → Point → KnnQueryHeap fl → Outcome GokoError (KnnQueryHeap fl)
  greedy_while zero inner t x h = panic
  greedy_while (suc fuel) inner t x h = do
    (did, h1) ← greedy_knn_nodes inner t x h
    let rest = greedy_while fuel inner t x h1
    if did then rest else ok h1

  unfoldable pub routing_knn : ℕ → CoverTree F → Point → ℕ → Outcome GokoError (List (ℕ × F))
  routing_knn fuel t x k = do
    h ← root_search fuel t x k
    h1 ← greedy_while fuel fuel t x h
    ok (unpack fl h1)
