-- ===== src/Cover/Build/Placed.antt =====
-- goko/src/covertree/builders.rs: the splits of a node and of all that come out of it end, and give
-- each point one final place.
use goko.Common.{All, ℕ, zero, suc, ◌≡◌, some, List, [], ◌∷◌, length, arith}
use goko.Common.Int.{pos, negsuc, ◌-ℤ◌, ◌+ℤ◌, ◌≤ℤ◌}
use goko.Common.Outcome.{ok}
use goko.Address.{NodeAddress, new_unchecked, point_index}
use goko.Address.RoundTrip.{Packs, from_tuple-new_unchecked, point_index-new_unchecked}
use goko.Points.Float.{Float, Cloud}
use goko.Cover.Node.{is_leaf}
use goko.Cover.Caches.{max_distance}
use goko.Cover.Build.{
  Parameters, SmallRng, BuilderNode, Work, split, next_scale_index, min_ℤ, max_ℤ,
}
use goko.Cover.Build.Grown.{DrawsInRange, IsChild, all_points, points}
use goko.Cover.Build.First.{next_scale_lem}
use goko.Cover.Build.Conserve.{Continues, SplitInto, split-SplitInto}
use goko.Cover.Build.Tree.{
  Sent, builder_address, pop_all, final_points, split_all, Indexable, Ready, Placed,
}
use goko.Cover.Build.Placing.{pop_all-Placed, min_le, next_level, no_level, children-Ready, placed}

module _ {fl : Float} (cloud : Cloud fl) (small : SmallRng) (params : Parameters) where
  open fl use {F}
  open cloud use {Point, point}

  -- Splitting a node and all that comes out of it.
  Placing : ℕ → BuilderNode F → Type 0
  Placing levels b =
      (total : ℕ)
      → (r : Sent F × ℕ) × (split_all cloud small params (suc levels) b total ≡ ok r)
        × Placed cloud small params (points b) 1 total r

  finish :
      (levels total : ℕ) (b : BuilderNode F) (na : NodeAddress) (w : Work F small.State)
      → builder_address b ≡ some na
      → point_index na ≡ b.covered.center_index
      → split cloud small params b total ≡ ok w
      → SplitInto cloud small params b total w
      → ((t : ℕ)
          → (r : Sent F × ℕ) × (pop_all (split_all cloud small params levels) w.new_nodes t ≡ ok r)
            × Placed cloud small params (all_points w.new_nodes) (length w.new_nodes) t r)
      → (r : Sent F × ℕ) × (split_all cloud small params (suc levels) b total ≡ ok r)
        × Placed cloud small params (points b) 1 total r
  unfolding split_all final_points is_leaf
  finish levels total b na w addressed at run s below =
      let ((sent, total'), ran, p) = below w.total_nodes in
      (
        ((na, w.node) ∷ sent, total'),
        rw (addressed, run, ran),
        record {
          perm =
              placed cloud small params b na w.node sent w.new_nodes at s.children s.perm
                s.continues p.perm;
          counted = omega (arith, p.counted, s.total_nodes);
        },
      )

  below :
      (levels : ℕ) (b : BuilderNode F) (bs : List (BuilderNode F))
      → ((c : BuilderNode F) → Ready cloud small params levels c → Placing levels c)
      → All (Ready cloud small params levels) bs
      → All
          (λ c.
            (t : ℕ)
            → (r : Sent F × ℕ) × (split_all cloud small params (suc levels) c t ≡ ok r)
              × Placed cloud small params (points c) 1 t r)
          bs
  unfolding Placing
  below levels b [] f a = tt
  below levels b (c ∷ bs) f a = (f c a.0, below levels b bs f a.1)

  -- All of the nodes that come out of a split.
  Rest : ℕ → List (BuilderNode F) → Type 0
  Rest levels bs =
      (t : ℕ)
      → (r : Sent F × ℕ) × (pop_all (split_all cloud small params levels) bs t ≡ ok r)
        × Placed cloud small params (all_points bs) (length bs) t r

  last-Rest :
      (b : BuilderNode F) (bs : List (BuilderNode F))
      → b.scale_index +ℤ pos 1 ≤ℤ params.min_res_index +ℤ pos 0
      → Continues cloud small params b bs
      → Rest 0 bs
  unfolding Rest
  last-Rest b [] h c t = pop_all-Placed cloud small params (split_all cloud small params 0) [] t tt
  last-Rest b (x ∷ xs) h c t =
      absurd (no_level cloud small params b.scale_index params.min_res_index c.1 h)

  below-Rest :
      (levels : ℕ) (b : BuilderNode F) (bs : List (BuilderNode F))
      → negsuc 61 ≤ℤ params.min_res_index
      → Packs b.scale_index b.covered.center_index
      → b.scale_index +ℤ pos 1 ≤ℤ params.min_res_index +ℤ pos (suc levels)
      → Continues cloud small params b bs
      → All
          (IsChild cloud
            (next_scale_index cloud small params b.scale_index (max_distance fl b.covered))
            (new_unchecked b.scale_index b.covered.center_index))
          bs
      → ((c : BuilderNode F) → Ready cloud small params levels c → Placing levels c)
      → Rest (suc levels) bs
  unfolding Rest next_scale_index
  below-Rest levels b [] low p h c g f t =
      pop_all-Placed cloud small params (split_all cloud small params (suc levels)) [] t tt
  below-Rest levels b (x ∷ xs) low p h c g f t =
      let m = params.min_res_index in
      let l = fl.log_ceil (max_distance fl b.covered) in
      let (packs, lowest) = next_scale_lem b.scale_index l m b.covered.center_index p low c.1 in
      let n = min_ℤ (b.scale_index -ℤ pos 1) (max_ℤ l m) in
      let (up, next) =
        next_level cloud small params n b.scale_index m levels
          (min_le cloud small params (b.scale_index -ℤ pos 1) (max_ℤ l m)) p.upper h in
      pop_all-Placed cloud small params (split_all cloud small params (suc levels)) (x ∷ xs) t (
        below levels b (x ∷ xs) f
          (children-Ready cloud small params levels n _ (x ∷ xs) lowest up next g))

  split_one :
      (levels : ℕ) (b : BuilderNode F) (total : ℕ)
      → DrawsInRange small
      → negsuc 61 ≤ℤ params.min_res_index
      → Ready cloud small params levels b
      → Packs b.scale_index b.covered.center_index
      → ((w : Work F small.State)
          → SplitInto cloud small params b total w
          → Rest levels w.new_nodes)
      → (r : Sent F × ℕ) × (split_all cloud small params (suc levels) b total ≡ ok r)
        × Placed cloud small params (points b) 1 total r
  unfolding builder_address Rest
  split_one levels b total d low k packs f =
      let (w, run, s) = split-SplitInto cloud small params b total d k.cached packs low in
      finish levels total b (new_unchecked b.scale_index b.covered.center_index) w
        (from_tuple-new_unchecked b.scale_index b.covered.center_index packs k.lower)
        (point_index-new_unchecked b.scale_index b.covered.center_index packs) run s (f w s)

  Ready-Packs :
      (levels : ℕ) (b : BuilderNode F)
      → Indexable cloud small params
      → Ready cloud small params levels b
      → Packs b.scale_index b.covered.center_index
  Ready-Packs levels b x k = record {
    lower = omega (arith, k.lower);
    upper = k.upper;
    point = x b.covered.center_index k.cached.center_point k.cached.center;
  }

  -- Splitting a node with true distances, whose scale is within the bounds, and all the nodes that
  -- come out of it ends on fuel above its levels, and does not fail, if the draws are in range, the
  -- cloud has no point above what an address can hold, and the least scale is at least -62. Then each
  -- point of the node is the final address of exactly one place: a singleton, or the centre of a
  -- leaf; and `total_nodes` has counted every node that is sent.
  pub split_all-Placed :
      (levels : ℕ) (b : BuilderNode F) (total : ℕ)
      → DrawsInRange small
      → Indexable cloud small params
      → negsuc 61 ≤ℤ params.min_res_index
      → Ready cloud small params levels b
      → (r : Sent F × ℕ) × (split_all cloud small params (suc levels) b total ≡ ok r)
        × Placed cloud small params (points b) 1 total r
  unfolding Placing
  split_all-Placed zero b total d x low k =
      split_one zero b total d low k (Ready-Packs zero b x k)
        (λ w s. last-Rest b w.new_nodes k.level s.continues)
  split_all-Placed (suc levels) b total d x low k =
      let packs = Ready-Packs (suc levels) b x k in
      split_one (suc levels) b total d low k packs (λ w s.
        below-Rest levels b w.new_nodes low packs k.level s.continues s.good
          (λ c r t. split_all-Placed levels c t d x low r))
