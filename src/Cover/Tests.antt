-- ===== src/Cover/Tests.antt =====
-- goko/src/covertree: a node, a cache and a split, on the four points of `line`.
use goko.Common.{
  Option, zero, All, Option, ℕ, map, if◌then◌else◌, suc, ◌*◌, ◌+◌, ◌^◌, ◌≡◌, refl, true, none, some,
  [], ◌∷◌, ◌++◌, arith, ltb,
}
use goko.Common.Int.{int_laws, pos}
use goko.Common.Outcome.{ok}
use mathlib.Core.List.{Perm}
use goko.Points.Tests.{naturals, naturals-IsOrder, line}
use goko.Points.Distances.{distance, distances}
use goko.Cover.Node.{CoverNode}
use goko.Cover.Node.Save.{load, save, load-save}
use goko.Cover.Node.First.{IsFirst, first_covering_child-IsFirst}
use goko.Cover.Node.Children.{
  first_covering_child, nearest_covering_child, covers, Least, nearest_covering_child-Least,
}
use goko.Address.{NodeAddress, point_index}
use goko.Cover.Caches.{FirstCoveredData, UncoveredData, first_split, pick_center}
use goko.Cover.Caches.Partition.{FarFrom, IsCached, first_split-partitions}
use goko.Cover.Caches.Pick.{pick_center-partitions}
use goko.Cover.Build.{Parameters, SmallRng, BuilderNode, Work, split}
use goko.Cover.Build.Tree.{Sent, split_all, Indexable, Ready, Placed}
use goko.Cover.Build.Placed.{split_all-Placed}
use goko.Cover.Build.Conserve.{SplitInto, split-SplitInto}

abbrev routing : CoverNode ℕ
routing = record {
  parent_address = none;
  address = record { na = 66 * 2 ^ 55 + 3 };
  radius = 9;
  coverage_count = 4;
  children = some (record { na = 65 * 2 ^ 55 + 3 } ∷ []);
  singles_indexes = 2 ∷ [];
}

load-save_example : load (save routing) ≡ ok routing
load-save_example = load-save routing (omega arith, omega arith) tt ((omega arith, omega arith), tt)

abbrev two_children : CoverNode ℕ
two_children = record routing {
  children = some (record { na = 65 * 2 ^ 55 + 3 } ∷ record { na = 65 * 2 ^ 55 + 1 } ∷ []);
}

two_children_dists :
    distances (line 1) 3 (map point_index (record { na = 65 * 2 ^ 55 + 1 } ∷ [])) ≡ some (1 ∷ [])
unfolding distances distance point_index
two_children_dists = refl

nearest_covering_child-Least_example :
    (m : NodeAddress) × (d : ℕ) × Least
      (line 1)
      (record { na = 65 * 2 ^ 55 + 3 } ∷ record { na = 65 * 2 ^ 55 + 1 } ∷ [])
      (3 ∷ 1 ∷ [])
      m
      d
    × (nearest_covering_child (line 1) 3 3 two_children
        ≡ ok (if covers (line 1) m d then some (m, d) else none))
nearest_covering_child-Least_example =
    nearest_covering_child-Least (line 1) naturals-IsOrder 3 two_children
      (record { na = 65 * 2 ^ 55 + 3 }) (record { na = 65 * 2 ^ 55 + 1 } ∷ []) 3 (1 ∷ []) refl
      two_children_dists refl

first_covering_child-IsFirst_example :
    (r : Option (NodeAddress × ℕ)) × (first_covering_child (line 1) 3 3 two_children ≡ ok r)
    × IsFirst
        (line 1)
        (record { na = 65 * 2 ^ 55 + 3 } ∷ record { na = 65 * 2 ^ 55 + 1 } ∷ [])
        (3 ∷ 1 ∷ [])
        r
first_covering_child-IsFirst_example =
    first_covering_child-IsFirst (line 1) 3 two_children (record { na = 65 * 2 ^ 55 + 3 })
      (record { na = 65 * 2 ^ 55 + 1 } ∷ []) 3 (1 ∷ []) refl two_children_dists

abbrev cached : FirstCoveredData ℕ
cached = record { dists = 1 ∷ 2 ∷ 9 ∷ []; coverage = 0 ∷ 1 ∷ 2 ∷ []; center_index = 3 }

cached_dists : distances (line 1) 0 (0 ∷ 1 ∷ 2 ∷ []) ≡ some (1 ∷ 2 ∷ 9 ∷ [])
unfolding distances distance
cached_dists = refl

abbrev cached-IsCached : IsCached (line 1) cached
cached-IsCached = record { center_point = 0; center = refl; cached = cached_dists }

first_split-partitions_example :
    Perm
      ((first_split naturals cached 8).0.coverage ++ (first_split naturals cached 8).1.coverage)
      (0 ∷ 1 ∷ 2 ∷ [])
    × ((first_split naturals cached 8).0.center_index ≡ 3)
    × IsCached (line 1) (first_split naturals cached 8).0
    × All (λ d. ltb d 8 ≡ true) (first_split naturals cached 8).0.dists
    × All (FarFrom (line 1) 0 8) (first_split naturals cached 8).1.coverage
first_split-partitions_example = first_split-partitions (line 1) cached 8 cached-IsCached

abbrev far_points : UncoveredData
far_points = record { coverage = 0 ∷ 2 ∷ 1 ∷ [] }

pick_center-partitions_example :
    (c : FirstCoveredData ℕ) × (left : UncoveredData) × (k : IsCached (line 1) c) × (pick_center
        (line 1)
        1
        far_points
        8
      ≡ ok (c, left))
    × Perm (c.center_index ∷ c.coverage ++ left.coverage) (0 ∷ 2 ∷ 1 ∷ [])
    × All (λ d. ltb d 8 ≡ true) c.dists
    × All (FarFrom (line 1) k.center_point 8) left.coverage
pick_center-partitions_example =
    pick_center-partitions (line 1) 1 far_points 8 (omega arith)
      ((1, refl), ((9, refl), ((2, refl), tt)))

abbrev first_drawn : SmallRng
first_drawn = record { State = ℕ; seeded = λ a. 0; gen_range = λ n s. (0, suc s) }

abbrev params : Parameters
params = record { leaf_cutoff = 1; min_res_index = pos 0; use_singletons = true }

abbrev root : BuilderNode ℕ
root = record { parent_address = none; scale_index = pos 4; covered = cached }

split-SplitInto_example :
    (w : Work ℕ ℕ) × (split (line 1) first_drawn params root 1 ≡ ok w)
    × SplitInto (line 1) first_drawn params root 1 w
split-SplitInto_example =
    split-SplitInto (line 1) first_drawn params root 1 (λ n s h. h) cached-IsCached
      (record { lower = omega arith; upper = omega arith; point = omega arith }) (omega arith)

-- The cloud of four points has no others.
line-Indexable : Indexable (line 1) first_drawn params
line-Indexable zero x e = omega arith
line-Indexable (suc zero) x e = omega arith
line-Indexable (suc (suc zero)) x e = omega arith
line-Indexable (suc (suc (suc zero))) x e = omega arith
line-Indexable (suc (suc (suc (suc i)))) x e = cc

root-Ready : Ready (line 1) first_drawn params 5 root
root-Ready = record {
  cached = cached-IsCached;
  lower = omega arith;
  upper = omega arith;
  level = omega int_laws;
}

split_all-Placed_example :
    (r : Sent ℕ × ℕ) × (split_all (line 1) first_drawn params 6 root 1 ≡ ok r)
    × Placed (line 1) first_drawn params (3 ∷ 0 ∷ 1 ∷ 2 ∷ []) 1 1 r
split_all-Placed_example =
    split_all-Placed (line 1) first_drawn params 5 root 1 (λ n s h. h) line-Indexable (omega arith)
      root-Ready
