-- ===== src/Cover/Build/First.antt =====
-- goko/src/covertree/builders.rs: the scale of the children, and what `split_first` makes
-- of the covered points.
use mathlib.Core.List.{Perm}
use mathlib.Core.List.Perm
use goko.Common.{
  All, ℕ, suc, ◌+◌, ◌-◌, ◌≡◌, ◌∙◌, refl, Bool, true, false, Option, none, some, List, [], ◌∷◌, ◌++◌,
  length, map, arith, length-append, ◌==◌, ◌||◌,
}
use goko.Common.Int.{ℤ, pos, negsuc, ◌-ℤ◌, ◌≤ℤ◌, ltb_ℤ}
use goko.Common.Outcome.{ok}
use goko.Address.{NodeAddress, new_unchecked, point_index, from_tuple}
use goko.Address.RoundTrip.{Packs}
use goko.Points.Float.{Float, Cloud}
use goko.Cover.Node.{CoverNode, insert_nested_child}
use goko.Cover.Caches.{FirstCoveredData, covered_len, uncovered_len, first_split}
use goko.Cover.Caches.Partition.{IsCached, first_split-partitions}
use goko.Cover.Build.{Parameters, SmallRng, BuilderNode, Work, add_node, split_first, min_ℤ, max_ℤ}
use goko.Cover.Lists.{Perm-length, perm_block}
use goko.Cover.Build.Grown.{DrawsInRange, IsChild, child_address, all_points}
use goko.Cover.Build.Loop.{FarFrom-Readable, split_loop_lem}

pub next_scale_lem :
    (si l m : ℤ) (p : ℕ)
    → Packs si p
    → negsuc 61 ≤ℤ m
    → ltb_ℤ si m ≡ false
    → Packs (min_ℤ (si -ℤ pos 1) (max_ℤ l m)) p × (negsuc 62 ≤ℤ min_ℤ (si -ℤ pos 1) (max_ℤ l m))
unfolding ◌-ℤ◌
next_scale_lem si l m p k h e = ground arith

pub empty_of : (l : List ℕ) → length l + 1 ≡ 1 → l ≡ []
empty_of [] h = refl
empty_of (x ∷ l) h = absurd (omega arith)

pub or_false : (a b : Bool) → (a || b) ≡ false → b ≡ false
or_false false b e = e
or_false true b e = cc

module _ {F : Type 0} where
  -- The points that the new nodes take from what was covered: the first node has the centre that was
  -- there already.
  abbrev pub taken : List (BuilderNode F) → List ℕ
  taken [] = []
  taken (b ∷ bs) = b.covered.coverage ++ all_points bs

  abbrev pub addresses : List (BuilderNode F) → Option (List NodeAddress)
  addresses [] = none
  addresses (b ∷ bs) = some (map child_address (b ∷ bs))

module _ {fl : Float} (cloud : Cloud fl) (small : SmallRng) (params : Parameters) where
  open fl use {F, lt, powi}
  open small use {State}

  -- What `split_first` makes of a node without children.
  pub record FirstSplit (si : ℤ) (address : NodeAddress) (n : CoverNode F)
      (covered : FirstCoveredData F) (total : ℕ) (w : Work F State) : Type 0 where
    pub singles : List ℕ
    pub first : BuilderNode F
    pub added : List (BuilderNode F)
    pub node : w.node ≡ record n {
      coverage_count = n.coverage_count + length covered.coverage;
      singles_indexes = n.singles_indexes ++ singles;
      children = some (map child_address (first ∷ added));
    }
    pub new_nodes : w.new_nodes ≡ first ∷ added
    pub total_nodes : w.total_nodes ≡ total + suc (length added)
    pub perm : Perm (singles ++ taken (first ∷ added)) covered.coverage
    pub good : All (IsChild cloud si address) (first ∷ added)
    pub same : first.covered.center_index ≡ covered.center_index

  nested_child :
      (si : ℤ) (c : ℕ) (l : List ℕ) (n : CoverNode F)
      → n.children ≡ none
      → point_index n.address ≡ c
      → from_tuple (si, c) ≡ some (new_unchecked si c)
      → insert_nested_child si (length l + 1) n
        ≡ ok (record n {
          coverage_count = n.coverage_count + length l;
          children = some (new_unchecked si c ∷ []);
        })
  unfolding insert_nested_child
  nested_child si c l n leaf at fits =
      let some_points : (length l + 1 == 0) ≡ false = ground arith in
      let rest : length l + 1 - 1 ≡ length l = omega arith in rw (some_points, leaf, at, fits, rest)

  pub split_first_lem :
      (si : ℤ) (address : NodeAddress) (n : CoverNode F) (covered : FirstCoveredData F) (total : ℕ)
      → DrawsInRange small
      → IsCached cloud covered
      → n.children ≡ none
      → point_index n.address ≡ covered.center_index
      → from_tuple (si, covered.center_index) ≡ some (new_unchecked si covered.center_index)
      → (w : Work F State) × (split_first cloud small params n address covered si total ≡ ok w)
        × FirstSplit si address n covered total w
  unfolding split_first insert_nested_child add_node covered_len first_split uncovered_len
  split_first_lem si address n covered total d k leaf at fits =
      let (parted, same, cached, close, far) = first_split-partitions cloud covered (powi si) k in
      let (near, fars) = first_split fl covered (powi si) in
      let b : BuilderNode F = record {
        parent_address = some address;
        scale_index = si;
        covered = near;
      } in
      let n1 : CoverNode F = record n {
        coverage_count = n.coverage_count + length near.coverage;
        children = some (child_address b ∷ []);
      } in
      let w1 : Work F State = record {
        node = n1;
        new_nodes = b ∷ [];
        total_nodes = total + 1;
        rng = small.seeded address;
      } in
      let (w, looped, g) =
        split_loop_lem cloud small params (length fars.coverage) si address fars w1
          (child_address b ∷ []) d (omega arith)
          (FarFrom-Readable cloud k.center_point (powi si) fars.coverage far) refl in
      let count : n.coverage_count + length near.coverage + length fars.coverage
          ≡ n.coverage_count + length covered.coverage =
        omega (arith, Perm-length parted, length-append near.coverage fars.coverage) in
      (
        w,
        rw (nested_child si covered.center_index near.coverage n leaf at fits) looped,
        record {
          singles = g.singles;
          first = b;
          added = g.added;
          node = g.node ∙ rw count;
          new_nodes = g.new_nodes;
          total_nodes = omega (arith, g.total_nodes);
          perm =
              Perm.trans (perm_block g.singles near.coverage (all_points g.added))
                (Perm.trans (Perm.append_left near.coverage g.perm) parted);
          good = (record { under = refl; scale = refl; cached = cached; close = close }, g.good);
          same = same;
        },
      )
