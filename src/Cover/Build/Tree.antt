-- ===== src/Cover/Build/Tree.antt =====
-- goko/src/covertree/builders.rs: `split_parallel`, the splits of a node and of all that come out
-- of it, and the final addresses that `build` takes from the nodes. The threads are run one after
-- the other: a spawned split runs where it is spawned.
use mathlib.Core.List.{Perm}
use goko.Common.{
  ◌^◌, ℕ, zero, suc, ◌+◌, ◌<◌, ◌≡◌, Option, some, List, [], ◌∷◌, ◌++◌, length, if◌then◌else◌,
}
use goko.Common.Int.{pos, negsuc, ◌+ℤ◌, ◌≤ℤ◌}
use goko.Common.Outcome.{Outcome, ok, panic, ◌>>=◌, asserted}
use goko.Address.{NodeAddress, from_tuple, point_index}
use goko.Points.Float.{Float, Cloud}
use goko.Cover.Node.{GokoError, CoverNode, is_leaf}
use goko.Cover.Caches.Partition.{IsCached}
use goko.Cover.Build.{Parameters, SmallRng, BuilderNode, split}

-- The nodes that are sent, in order, each with its address.
abbrev pub Sent : Type 0 → Type 0
Sent F = List (NodeAddress × CoverNode F)

module _ {F : Type 0} where
  -- `BuilderNode::address`
  unfoldable pub builder_address : BuilderNode F → Option NodeAddress
  builder_address b = from_tuple (b.scale_index, b.covered.center_index)

  -- `while let Some(node) = new_nodes.pop()`: the last node first. The number is `total_nodes`.
  unfoldable pub pop_all :
      (BuilderNode F → ℕ → Outcome GokoError (Sent F × ℕ))
      → List (BuilderNode F)
      → ℕ
      → Outcome GokoError (Sent F × ℕ)
  pop_all run [] total = ok ([], total)
  pop_all run (b ∷ bs) total = do
    (later, total') ← pop_all run bs total
    (sent, total'') ← run b total'
    ok (later ++ sent, total'')

  -- The points to which `build` gives a node as their final address: its singletons, and its centre
  -- where it is a leaf.
  unfoldable pub final_points : NodeAddress → CoverNode F → List ℕ
  final_points a n = n.singles_indexes ++ (if is_leaf n then point_index a ∷ [] else [])

  abbrev pub all_final_points : Sent F → List ℕ
  all_final_points [] = []
  all_final_points ((a, n) ∷ sent) = final_points a n ++ all_final_points sent

module _ {fl : Float} (cloud : Cloud fl) (small : SmallRng) (params : Parameters) where
  open fl use {F}
  open cloud use {Point, point}

  -- `split_parallel`, on fuel for the levels below.
  unfoldable pub split_all : ℕ → BuilderNode F → ℕ → Outcome GokoError (Sent F × ℕ)
  split_all zero b total = panic
  split_all (suc levels) b total = do
    na ← asserted (builder_address b)
    w ← split cloud small params b total
    (sent, total') ← pop_all (split_all levels) w.new_nodes w.total_nodes
    ok ((na, w.node) ∷ sent, total')

  -- The cloud has no point at an index that an address cannot hold.
  abbrev pub Indexable : Type 0
  Indexable = (i : ℕ) (x : Point) → point i ≡ some x → i < 2 ^ 55

  -- A builder node that can be split with the levels that are left.
  pub record Ready (levels : ℕ) (b : BuilderNode F) : Type 0 where
    pub cached : IsCached cloud b.covered
    pub lower : negsuc 62 ≤ℤ b.scale_index
    pub upper : b.scale_index ≤ℤ pos 447
    pub level : b.scale_index +ℤ pos 1 ≤ℤ params.min_res_index +ℤ pos levels

  -- What the splits send for some points: each is the final address of exactly one place, and every
  -- node that is sent, but those in `started`, was counted.
  pub record Placed (pts : List ℕ) (started total : ℕ) (r : Sent F × ℕ) : Type 0 where
    pub perm : Perm (all_final_points r.0) pts
    pub counted : r.1 + started ≡ total + length r.0
