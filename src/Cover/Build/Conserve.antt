-- ===== src/Cover/Build/Conserve.antt =====
-- goko/src/covertree/builders.rs: what a split makes of the points that a builder node covers.
use mathlib.Core.List.{Perm, append_assoc, append-nil}
use mathlib.Core.List.Perm
use mathlib.Core.Path.{subst}
use goko.Common.{
  false, All, ℕ, ◌+◌, ◌-◌, ◌≡◌, ◌∙◌, refl, sym, ap, List, [], ◌∷◌, ◌++◌, length, arith, Bool-cases,
  inl, inr, ◌==◌, ◌||◌, leb,
}
use goko.Common.Int.{negsuc, ◌≤ℤ◌, ltb_ℤ}
use goko.Common.Outcome.{ok}
use goko.Address.{new_unchecked}
use goko.Address.RoundTrip.{Packs, from_tuple-new_unchecked, point_index-new_unchecked}
use goko.Points.Float.{Float, Cloud}
use goko.Cover.Node.{
  GokoError, CoverNode, insert_nested_child, insert_singletons, remove_children, set_radius,
}
use goko.Cover.Node
use goko.Cover.Caches.{covered_len, into_indexes, max_distance}
use goko.Cover.Caches.Partition.{IsCached}
use goko.Cover.Build.{
  Parameters, SmallRng, BuilderNode, Work, split, collapse, next_scale_index, blank,
}
use goko.Cover.Build.Grown.{DrawsInRange, IsChild}
use goko.Cover.Build.First.{
  next_scale_lem, empty_of, or_false, taken, addresses, FirstSplit, split_first_lem,
}

module _ {fl : Float} (cloud : Cloud fl) (small : SmallRng) (params : Parameters) where
  open fl use {F, lt, powi}
  open small use {State}

  -- Where there are new nodes, the first has the centre of the node that is split, and that node is
  -- not below the least scale.
  abbrev pub Continues : BuilderNode F → List (BuilderNode F) → Type 0
  Continues b [] = Unit
  Continues b (x ∷ xs) =
      (x.covered.center_index ≡ b.covered.center_index)
      × (ltb_ℤ b.scale_index params.min_res_index ≡ false)

  -- The outcome of a split: the node counts the points that the builder node covers, its centre
  -- included; its singletons and the points that the new nodes take are together the covered points;
  -- its children are the addresses of the new nodes, in order, and it is a leaf where there are none;
  -- `total_nodes` counts the new nodes; and each new node is a child, at the next scale, whose cache
  -- holds its true distances, all below the radius of that scale.
  pub record SplitInto (b : BuilderNode F) (total : ℕ) (w : Work F State) : Type 0 where
    pub address : w.node.address ≡ new_unchecked b.scale_index b.covered.center_index
    pub above : w.node.parent_address ≡ b.parent_address
    pub radius : w.node.radius ≡ max_distance fl b.covered
    pub counted : w.node.coverage_count ≡ covered_len b.covered
    pub perm : Perm (w.node.singles_indexes ++ taken w.new_nodes) b.covered.coverage
    pub children : w.node.children ≡ addresses w.new_nodes
    pub total_nodes : w.total_nodes ≡ total + length w.new_nodes
    pub continues : Continues b w.new_nodes
    pub good :
        All
          (IsChild cloud
            (next_scale_index cloud small params b.scale_index (max_distance fl b.covered))
            (new_unchecked b.scale_index b.covered.center_index))
          w.new_nodes

  -- What `split_first` is applied to in `split`.
  abbrev Splits : BuilderNode F → ℕ → Work F State → Type 0
  Splits b total w =
      let address = new_unchecked b.scale_index b.covered.center_index in
      FirstSplit cloud small params
        (next_scale_index cloud small params b.scale_index (max_distance fl b.covered)) address
        (blank cloud small params b address) b.covered total w

  kept :
      (b : BuilderNode F) (total : ℕ) (w : Work F State)
      → Splits b total w
      → ltb_ℤ b.scale_index params.min_res_index ≡ false
      → SplitInto b total w
  unfolding set_radius Node.new covered_len
  kept b total w f deep =
      let count : 1 + length b.covered.coverage ≡ length b.covered.coverage + 1 = omega arith in
      record {
        address = ap (λ (m : CoverNode F). m.address) f.node;
        above = ap (λ (m : CoverNode F). m.parent_address) f.node;
        radius = ap (λ (m : CoverNode F). m.radius) f.node;
        counted = ap (λ (m : CoverNode F). m.coverage_count) f.node ∙ count;
        perm = rw (ap (λ (m : CoverNode F). m.singles_indexes) f.node, f.new_nodes) f.perm;
        children = rw f.new_nodes (ap (λ (m : CoverNode F). m.children) f.node);
        total_nodes = rw f.new_nodes f.total_nodes;
        continues = rw f.new_nodes (f.same, deep);
        good = rw f.new_nodes f.good;
      }

  collapsed :
      (b : BuilderNode F) (total : ℕ) (w : Work F State) (one : BuilderNode F)
      → SplitInto b total w
      → w.new_nodes ≡ one ∷ []
      → length one.covered.coverage + 1 ≡ 1
      → SplitInto b total (record w {
        node = insert_singletons (into_indexes one.covered) (remove_children w.node).0;
        new_nodes = [];
        total_nodes = w.total_nodes - 1;
      })
  unfolding insert_singletons remove_children into_indexes
  collapsed b total w one f e h =
      let bare : one.covered.coverage ≡ [] = empty_of one.covered.coverage h in
      let p : Perm (w.node.singles_indexes ++ (one.covered.coverage ++ [])) b.covered.coverage =
        subst
          (λ (l : List (BuilderNode F)).
            Perm (w.node.singles_indexes ++ taken l) b.covered.coverage)
          e f.perm in
      let t : w.total_nodes ≡ total + 1 =
        f.total_nodes ∙ ap (λ (l : List (BuilderNode F)). total + length l) e in
      record {
        address = f.address;
        above = f.above;
        radius = f.radius;
        counted = omega (arith, f.counted);
        perm = rw (append_assoc w.node.singles_indexes one.covered.coverage []) p;
        children = refl;
        total_nodes = omega (arith, t);
        continues = tt;
        good = tt;
      }

  collapse_lem :
      (b : BuilderNode F) (total : ℕ) (w : Work F State)
      → Splits b total w
      → ltb_ℤ b.scale_index params.min_res_index ≡ false
      → SplitInto b total (collapse cloud small params w)
  unfolding collapse covered_len
  collapse_lem b total w f deep = go f.added f.new_nodes
    where
      unchanged :
          (l : List (BuilderNode F))
          → w.new_nodes ≡ l
          → collapse cloud small params (record w { new_nodes = l }) ≡ record w { new_nodes = l }
          → SplitInto b total (collapse cloud small params w)
      unchanged l e c = subst (SplitInto b total) (sym (rw e c)) (kept b total w f deep)

      go :
          (l : List (BuilderNode F))
          → w.new_nodes ≡ f.first ∷ l
          → SplitInto b total (collapse cloud small params w)
      go (x ∷ l) e = unchanged (f.first ∷ x ∷ l) e refl
      go [] e = elim (Bool-cases (length f.first.covered.coverage + 1 == 1)) [
        | inl one ↦
            subst (SplitInto b total) (sym (rw e (rw one)))
              (collapsed b total w f.first (kept b total w f deep) e (ground arith))
        | inr more ↦ unchanged (f.first ∷ []) e (rw more)
      ]

  abbrev cut_down : BuilderNode F → ℕ → Work F State
  cut_down b total =
      let address = new_unchecked b.scale_index b.covered.center_index in
      record {
        node = insert_singletons (into_indexes b.covered) (blank cloud small params b address);
        new_nodes = [];
        total_nodes = total;
        rng = small.seeded address;
      }

  cut : (b : BuilderNode F) (total : ℕ) → SplitInto b total (cut_down b total)
  unfolding insert_singletons into_indexes set_radius Node.new covered_len
  cut b total = record {
    address = refl;
    above = refl;
    radius = refl;
    counted = omega arith;
    perm = rw (append-nil b.covered.coverage) (Perm.refl b.covered.coverage);
    children = refl;
    total_nodes = omega arith;
    continues = tt;
    good = tt;
  }

  -- A split of a builder node with true distances, whose address is within the bounds, does not
  -- fail and loses no point, if the least scale of a node is at least -62: see `SplitInto`.
  pub split-SplitInto :
      (b : BuilderNode F) (total : ℕ)
      → DrawsInRange small
      → IsCached cloud b.covered
      → Packs b.scale_index b.covered.center_index
      → negsuc 61 ≤ℤ params.min_res_index
      → (w : Work F State) × (split cloud small params b total ≡ ok w) × SplitInto b total w
  unfolding split next_scale_index set_radius Node.new
  split-SplitInto b total d k p low =
      elim (Bool-cases (
        leb (covered_len b.covered) params.leaf_cutoff
        || ltb_ℤ b.scale_index params.min_res_index)) [
          | inl leaf ↦ (cut_down b total, rw leaf, cut b total)
          | inr wide ↦
              let deep =
                or_false (leb (covered_len b.covered) params.leaf_cutoff)
                  (ltb_ℤ b.scale_index params.min_res_index) wide in
              let (next, first) =
                next_scale_lem b.scale_index (fl.log_ceil (max_distance fl b.covered))
                  params.min_res_index b.covered.center_index p low deep in
              let (w, e, f) =
                split_first_lem cloud small params
                  (next_scale_index cloud small params b.scale_index (max_distance fl b.covered))
                  (new_unchecked b.scale_index b.covered.center_index)
                  (blank cloud small params b (new_unchecked b.scale_index b.covered.center_index))
                  b.covered total d k refl
                  (point_index-new_unchecked b.scale_index b.covered.center_index p)
                  (from_tuple-new_unchecked _ b.covered.center_index next first) in
              (collapse cloud small params w, rw (wide, e), collapse_lem b total w f deep)
        ]
