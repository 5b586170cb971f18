-- ===== src/Query/Tests.antt =====
-- goko/src/covertree/query_tools: pushes on a heap of the two nearest.
use goko.Common.{◌+◌, ◌*◌, ◌^◌, ◌≡◌, refl, none, some, List, [], ◌∷◌}
use goko.Common.Int.{◌-ℤ◌}
use goko.Address.{NodeAddress, point_index, scale_index}
use goko.Points.Tests.{naturals, naturals-IsOrder}
use goko.Query.Heap.{
  new, unpack, unpack_onto, push_nodes, push_node_list, push_node, push_outliers, push_outlier,
  push_dist, push_singleton, push_address, comes_first, trim, increase_estimated_distance, increase,
  max_dist,
}
use goko.Query.Nearest.{IsNearest}
use goko.Query.Pushes.{Push, nodes, outliers, push, push_all, see_all, unseen, push_all-IsNearest}

abbrev parent : NodeAddress
parent = record { na = 66 * 2 ^ 55 + 3 }

abbrev child : NodeAddress
child = record { na = 65 * 2 ^ 55 + 7 }

abbrev pushes : List (Push naturals)
pushes =
    nodes (parent ∷ []) (5 ∷ []) none
    ∷ outliers (1 ∷ 2 ∷ 3 ∷ []) (9 ∷ 1 ∷ 5 ∷ [])
    ∷ nodes (child ∷ []) (2 ∷ []) (some parent)
    ∷ []

push_all-IsNearest_example :
    IsNearest naturals-IsOrder 2
      (push_all naturals pushes (new naturals 2)).dist_heap
      (see_all naturals pushes (unseen naturals)).points
push_all-IsNearest_example = push_all-IsNearest naturals-IsOrder 2 pushes

-- Points 2 and 7 are the nearest two.
unpack_run : unpack naturals (push_all naturals pushes (new naturals 2)) ≡ (2, 1) ∷ (7, 2) ∷ []
unfolding unpack unpack_onto push push_nodes push_node_list push_node push_outliers push_outlier
    push_dist push_singleton push_address comes_first trim increase_estimated_distance increase
    max_dist new point_index scale_index ◌-ℤ◌
unpack_run = refl
