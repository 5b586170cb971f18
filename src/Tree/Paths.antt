-- ===== src/Tree/Paths.antt =====
-- goko/src/covertree/tree.rs: the path of a known point, up from its final address, and the path of
-- a query, down from the root. The loops are on fuel, and panic where it runs out.
pub mod Known
pub mod Query
use goko.Common.{
  ℕ, zero, suc, Bool, Option, none, some, List, [], ◌∷◌, map, if◌then◌else◌, ℕ_discrete, ltb,
}
use goko.Common.Int.{ltb_ℤ}
use goko.Common.Outcome.{Outcome, ok, err, panic, ◌>>=◌}
use goko.Monomap.Table.{get}
use goko.Address.{NodeAddress, point_index, scale_index}
use goko.Points.Float.{Float, Cloud}
use goko.Cover.Node.{GokoError, point_cloud_error, index_not_in_tree, CoverNode}
use goko.Cover.Node.Children.{nearest_covering_child, first_covering_child}
use goko.Cover.Caches.{distances_to_index}
use goko.Tree.Reader.{CoverTree, get_node}

-- `Result::unwrap`
abbrev unwrapped {ℓ} : {E A : Type ℓ} → Outcome E A → Outcome E A
unwrapped (ok a) = ok a
unwrapped (err e) = panic
unwrapped panic = panic

module _ {F : Type 0} where
  -- `n.parent_address()` of a node that may be missing, flattened.
  abbrev pub parent_of : Option (CoverNode F) → Option NodeAddress
  parent_of none = none
  parent_of (some n) = n.parent_address

  -- `while let Some(addr) = parent` in `known_path`, and the `reverse` after it.
  unfoldable pub walk_up :
      ℕ → CoverTree F → Option NodeAddress → List NodeAddress → Outcome GokoError (List NodeAddress)
  walk_up zero t none path = ok path
  walk_up zero t (some a) path = panic
  walk_up (suc fuel) t none path = ok path
  walk_up (suc fuel) t (some a) path = do
    node ← get_node t a
    walk_up fuel t (parent_of node) (a ∷ path)

  -- `dists.iter().zip(path).map(|(d, a)| (a, *d))`
  unfoldable pub with_dists : List F → List NodeAddress → List (NodeAddress × F)
  with_dists (d ∷ ds) (a ∷ as') = (a, d) ∷ with_dists ds as'
  with_dists _ _ = []

pub data PartitionType : Type 0 where
  nearest first : PartitionType

module _ {fl : Float} (cloud : Cloud fl) where
  open fl use {F}
  open cloud use {Point, point, dist}

  -- The addresses of a path, each with the distance of its centre to the point.
  unfoldable pub path_dists : ℕ → List NodeAddress → Outcome GokoError (List (NodeAddress × F))
  path_dists p path = do
    dists ← unwrapped (distances_to_index cloud p (map point_index path))
    ok (with_dists dists path)

  -- A negative capacity, cast to `usize`, is one that panics.
  unfoldable pub known_path : ℕ → CoverTree F → ℕ → Outcome GokoError (List (NodeAddress × F))
  known_path fuel t p = elim (get ℕ_discrete p t.final_addresses) [
    | none ↦ err (index_not_in_tree p)
    | some a ↦
        if ltb_ℤ (scale_index t.root_address) (scale_index a)
        then panic
        else do path ← walk_up fuel t (some a) []; path_dists p path
  ]

  -- The child that covers the point, by the partition of the tree.
  unfoldable pub covering_child :
      PartitionType → F → Point → CoverNode F → Outcome GokoError (Option (NodeAddress × F))
  covering_child nearest d x n = nearest_covering_child cloud d x n
  covering_child first d x n = first_covering_child cloud d x n

  -- One turn of the loop of `path` at a node, which may be missing; `go_on` is the rest.
  unfoldable pub path_turn :
      (NodeAddress → F → Outcome GokoError (List (NodeAddress × F)))
      → PartitionType
      → Point
      → NodeAddress
      → F
      → Option (CoverNode F)
      → Outcome GokoError (List (NodeAddress × F))
  path_turn go_on partition x a d none = ok ((a, d) ∷ [])
  path_turn go_on partition x a d (some n) = do
    found ← covering_child partition d x n
    elim found [ none ↦ ok ((a, d) ∷ []) | some (c, e) ↦ do rest ← go_on c e; ok ((a, d) ∷ rest) ]

  -- The loop of `path`: the trace from a node on.
  unfoldable pub path_from :
      ℕ
      → CoverTree F
      → PartitionType
      → Point
      → NodeAddress
      → F
      → Outcome GokoError (List (NodeAddress × F))
  path_from zero t partition x a d = panic
  path_from (suc fuel) t partition x a d = do
    node ← get_node t a
    path_turn (path_from fuel t partition x) partition x a d node

  unfoldable pub path :
      ℕ → CoverTree F → PartitionType → Point → Outcome GokoError (List (NodeAddress × F))
  path fuel t partition x = do
    root_center ← elim (point (point_index t.root_address)) [
      | none ↦ err point_cloud_error
      | some c ↦ ok c
    ]
    path_from fuel t partition x t.root_address (dist root_center x)
