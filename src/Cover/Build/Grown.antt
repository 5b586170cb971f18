-- ===== src/Cover/Build/Grown.antt =====
-- goko/src/covertree/builders.rs: what a turn of the loop of `split_first` adds.
use mathlib.Core.List.{Perm, append_assoc, append-nil}
use mathlib.Core.List.Perm
use goko.Common.{
  All, ℕ, suc, ◌+◌, ◌<◌, ◌≡◌, refl, sym, Bool, true, some, List, [], ◌∷◌, ◌++◌, length, map, arith,
  Bool-cases, inl, inr, length-append, ◌==◌, ◌&&◌,
}
use goko.Common.Int.{ℤ}
use goko.Common.Outcome.{ok}
use goko.Address.{NodeAddress, new_unchecked}
use goko.Points.Float.{Float, Cloud}
use goko.Cover.Node.{CoverNode, insert_child, insert_singleton}
use goko.Cover.Caches.{FirstCoveredData, covered_len}
use goko.Cover.Caches.Partition.{IsCached}
use goko.Cover.Build.{Parameters, SmallRng, BuilderNode, Work, add_node, place}
use goko.Cover.Lists.{Perm-length, map-append, All-append, perm_parts}

module _ {F : Type 0} where
  -- The address of a builder node as its parent stores it.
  abbrev pub child_address : BuilderNode F → NodeAddress
  child_address b = new_unchecked b.scale_index b.covered.center_index

  -- The points of a builder node: its centre and what it covers.
  abbrev pub points : BuilderNode F → List ℕ
  points b = b.covered.center_index ∷ b.covered.coverage

  abbrev pub all_points : List (BuilderNode F) → List ℕ
  all_points [] = []
  all_points (b ∷ bs) = points b ++ all_points bs

no_coverage : (l : List ℕ) (b : Bool) → ((length l + 1 == 1) && b) ≡ true → l ≡ []
no_coverage [] b e = refl
no_coverage (x ∷ l) b e = absurd (ground arith)

all_points-append :
    {F : Type 0} (bs cs : List (BuilderNode F))
    → all_points (bs ++ cs) ≡ all_points bs ++ all_points cs
all_points-append [] cs = refl
all_points-append (b ∷ bs) cs =
    rw (all_points-append bs cs) (sym (append_assoc (points b) (all_points bs) (all_points cs)))

-- The generator draws in range.
abbrev pub DrawsInRange : SmallRng → Type 0
DrawsInRange small = (n : ℕ) (s : small.State) → 0 < n → (small.gen_range n s).0 < n

module _ {fl : Float} (cloud : Cloud fl) where
  open fl use {F, lt, powi}

  -- A child of `parent` at the scale, whose cache holds the true distances, all below the radius of
  -- the scale.
  pub record IsChild (si : ℤ) (parent : NodeAddress) (b : BuilderNode F) : Type 0 where
    pub under : b.parent_address ≡ some parent
    pub scale : b.scale_index ≡ si
    pub cached : IsCached cloud b.covered
    pub close : All (λ d. lt d (powi si) ≡ true) b.covered.dists

  -- What a part of the loop adds for some uncovered points: the points are the new singletons and
  -- those of the new builder nodes, the node lists the nodes' addresses as children, and all are
  -- counted.
  pub record Grown {State : Type 0} (si : ℤ) (parent : NodeAddress) (pts : List ℕ)
      (cs : List NodeAddress) (w w' : Work F State) : Type 0 where
    pub singles : List ℕ
    pub added : List (BuilderNode F)
    pub node : w'.node ≡ record w.node {
      coverage_count = w.node.coverage_count + length pts;
      singles_indexes = w.node.singles_indexes ++ singles;
      children = some (cs ++ map child_address added);
    }
    pub new_nodes : w'.new_nodes ≡ w.new_nodes ++ added
    pub total_nodes : w'.total_nodes ≡ w.total_nodes + length added
    pub perm : Perm (singles ++ all_points added) pts
    pub good : All (IsChild si parent) added

  pub place_lem :
      {State : Type 0} (params : Parameters) (si : ℤ) (parent : NodeAddress)
      (c : FirstCoveredData F) (cs : List NodeAddress) (w : Work F State)
      → w.node.children ≡ some cs
      → IsCached cloud c
      → All (λ d. lt d (powi si) ≡ true) c.dists
      → (w' : Work F State) × (place params si parent c w ≡ ok w')
        × Grown si parent (c.center_index ∷ c.coverage) cs w w'
  unfolding place insert_child insert_singleton covered_len add_node
  place_lem params si parent c cs w e k near =
      elim (Bool-cases ((length c.coverage + 1 == 1) && params.use_singletons)) [
        | inl alone ↦
            let bare = no_coverage c.coverage params.use_singletons alone in
            (
              record w { node = insert_singleton c.center_index w.node },
              rw alone,
              record {
                singles = c.center_index ∷ [];
                added = [];
                node = rw (append-nil cs, bare, e);
                new_nodes = sym (append-nil _);
                total_nodes = omega arith;
                perm = rw bare (Perm.refl _);
                good = tt;
              },
            )
        | inr many ↦
            let b : BuilderNode F = record {
              parent_address = some parent;
              scale_index = si;
              covered = c;
            } in
            let n : CoverNode F = record w.node {
              coverage_count = w.node.coverage_count + (length c.coverage + 1);
              children = some (cs ++ child_address b ∷ []);
            } in
            let count : w.node.coverage_count + (length c.coverage + 1)
                ≡ w.node.coverage_count + suc (length c.coverage) =
              omega arith in
            (
              add_node b (record w { node = n }),
              rw (many, e),
              record {
                singles = [];
                added = b ∷ [];
                node = rw (count, append-nil w.node.singles_indexes);
                new_nodes = refl;
                total_nodes = omega arith;
                perm = rw (append-nil c.coverage) (Perm.refl _);
                good = (record { under = refl; scale = refl; cached = k; close = near }, tt);
              },
            )
      ]

  -- One part after the other.
  pub Grown-seq :
      {State : Type 0} (si : ℤ) (parent : NodeAddress) (xs ys : List ℕ) (cs : List NodeAddress)
      (w w1 w2 : Work F State) (g : Grown si parent xs cs w w1)
      → Grown si parent ys (cs ++ map child_address g.added) w1 w2
      → Grown si parent (xs ++ ys) cs w w2
  Grown-seq si parent xs ys cs w w1 w2 g h =
      let sum : w.node.coverage_count + length xs + length ys
          ≡ w.node.coverage_count + (length xs + length ys) =
        omega arith in
      record {
        singles = g.singles ++ h.singles;
        added = g.added ++ h.added;
        node = rw (
          h.node,
          g.node,
          length-append xs ys,
          map-append child_address g.added h.added,
          append_assoc w.node.singles_indexes g.singles h.singles,
          append_assoc cs (map child_address g.added) (map child_address h.added),
          sum,
        );
        new_nodes = rw (h.new_nodes, g.new_nodes) (append_assoc w.new_nodes g.added h.added);
        total_nodes = omega (arith, g.total_nodes, h.total_nodes, length-append g.added h.added);
        perm = rw (all_points-append g.added h.added) (
            perm_parts g.singles h.singles (all_points g.added) (all_points h.added) g.perm h.perm);
        good = All-append (IsChild si parent) g.added h.added g.good h.good;
      }

  pub Grown-perm :
      {State : Type 0} (si : ℤ) (parent : NodeAddress) (xs ys : List ℕ) (cs : List NodeAddress)
      (w w1 : Work F State)
      → Perm xs ys
      → Grown si parent xs cs w w1
      → Grown si parent ys cs w w1
  Grown-perm si parent xs ys cs w w1 p g = record {
    singles = g.singles;
    added = g.added;
    node = rw (sym (Perm-length p)) g.node;
    new_nodes = g.new_nodes;
    total_nodes = g.total_nodes;
    perm = Perm.trans g.perm p;
    good = g.good;
  }

  pub Grown-nil :
      {State : Type 0} (si : ℤ) (parent : NodeAddress) (pts : List ℕ) (cs : List NodeAddress)
      (w : Work F State)
      → pts ≡ []
      → w.node.children ≡ some cs
      → Grown si parent pts cs w w
  Grown-nil si parent pts cs w n e =
      let none_more : w.node.coverage_count + length {A = ℕ} [] ≡ w.node.coverage_count =
        omega arith in
      record {
        singles = [];
        added = [];
        node = rw (append-nil w.node.singles_indexes, append-nil cs, n, e, none_more);
        new_nodes = sym (append-nil w.new_nodes);
        total_nodes = omega arith;
        perm = rw n (Perm.refl []);
        good = tt;
      }

  -- The generator's state plays no part.
  pub Grown-rng :
      {State : Type 0} (si : ℤ) (parent : NodeAddress) (pts : List ℕ) (cs : List NodeAddress)
      (w w' : Work F State) (s : State)
      → Grown si parent pts cs (record w { rng = s }) w'
      → Grown si parent pts cs w w'
  Grown-rng si parent pts cs w w' s g = record {
    singles = g.singles;
    added = g.added;
    node = g.node;
    new_nodes = g.new_nodes;
    total_nodes = g.total_nodes;
    perm = g.perm;
    good = g.good;
  }
