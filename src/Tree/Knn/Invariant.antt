-- ===== src/Tree/Knn/Invariant.antt =====
-- goko/src/covertree/tree.rs: where each point of the tree is during the search: known to the heap,
-- too far for it, or held by a node that is still on one of the heaps.
use mathlib.Core.List.{Memᴰ, Permᴰ}
use goko.Common.{All, ℕ, ◌≡◌, ◌∙◌, ◌⊎◌, true, false, some, List, ◌∷◌, map}
use goko.Common.Outcome.{ok}
use goko.Address.{NodeAddress, point_index}
use goko.Points.Float.{Float, Cloud, IsOrder}
use goko.Points.Distances.{distance}
use goko.Cover.Node.{CoverNode}
use goko.Query.Heap.{QuerySingleton, KnnQueryHeap, contains}
use goko.Query.Pops.{keys}
use goko.Query.Pushes.{Seen, Holds, node_item}
use goko.Query.Bound.{Out}
use goko.Tree.Reader.{CoverTree, get_node, children_of}
use goko.Tree.Levels.{Below, itself, child, Descends}
use goko.Tree.Dangling.{Whole}

pub Permᴰ-Memᴰ {ℓ} : {A : Type ℓ} {a : A} {xs ys : List A} → Permᴰ xs ys → Memᴰ a xs → Memᴰ a ys
Permᴰ-Memᴰ Permᴰ.nil m = m
Permᴰ-Memᴰ (Permᴰ.cons e d) (Memᴰ.head q) = Memᴰ.head (q ∙ e)
Permᴰ-Memᴰ (Permᴰ.cons e d) (Memᴰ.tail m) = Memᴰ.tail (Permᴰ-Memᴰ d m)
Permᴰ-Memᴰ (Permᴰ.swap e f) (Memᴰ.head q) = Memᴰ.tail (Memᴰ.head (q ∙ e))
Permᴰ-Memᴰ (Permᴰ.swap e f) (Memᴰ.tail (Memᴰ.head q)) = Memᴰ.head (q ∙ f)
Permᴰ-Memᴰ (Permᴰ.swap e f) (Memᴰ.tail (Memᴰ.tail m)) = Memᴰ.tail (Memᴰ.tail m)
Permᴰ-Memᴰ (Permᴰ.trans d d') m = Permᴰ-Memᴰ d' (Permᴰ-Memᴰ d m)

-- The points of the tree below an address: the centres and the singletons of the nodes.
pub data Held {F : Type 0} (t : CoverTree F) (p : ℕ) : NodeAddress → Type 0 where
  centre : {a : NodeAddress} → p ≡ point_index a → Held t p a
  single :
      {a : NodeAddress} (n : CoverNode F)
      → get_node t a ≡ ok (some n)
      → Memᴰ p n.singles_indexes
      → Held t p a
  lower :
      {a : NodeAddress} (n : CoverNode F) (c : NodeAddress)
      → get_node t a ≡ ok (some n)
      → Memᴰ c (children_of n)
      → Held t p c
      → Held t p a

pub Held-up :
    {F : Type 0} (t : CoverTree F) (p : ℕ) {a b : NodeAddress}
    → Below t a b
    → Held t p b
    → Held t p a
Held-up t p itself h = h
Held-up t p (child {b} {c} n w e m) h = Held-up t p w (lower n c e m h)

module _ {fl : Float} (o : IsOrder fl) (cloud : Cloud fl) (t : CoverTree fl.F) where
  open fl use {F, lt, max_value}
  open cloud use {Point, dist}

  -- What the search relies on: a finished tree whose points can be read, a symmetric metric, and the
  -- covering property, that the least distance computed for a node is above the distance of none of
  -- the points below it, and is a finite float.
  pub record Searchable (x : Point) : Type 0 where
    pub descends : Descends t t.root_address
    pub whole : Whole t t.root_address
    pub own :
        (a : NodeAddress) (n : CoverNode F)
        → Below t t.root_address a
        → get_node t a ≡ ok (some n)
        → n.address ≡ a
    pub nested :
        (a : NodeAddress) (n : CoverNode F) (cs : List NodeAddress)
        → Below t t.root_address a
        → get_node t a ≡ ok (some n)
        → n.children ≡ some cs
        → (c : NodeAddress) × (rest : List NodeAddress) × (cs ≡ c ∷ rest)
          × (point_index c ≡ point_index a)
    pub readable : (p : ℕ) → Held t p t.root_address → (d : F) × (distance cloud x p ≡ some d)
    pub symmetric : (y : Point) → dist y x ≡ dist x y
    pub covering :
        (a : NodeAddress) (p : ℕ) (d e : F)
        → Below t t.root_address a
        → Held t p a
        → distance cloud x (point_index a) ≡ some d
        → distance cloud x p ≡ some e
        → lt e (node_item o a d).min_dist ≡ false
    pub finite :
        (a : NodeAddress) (d : F)
        → Below t t.root_address a
        → distance cloud x (point_index a) ≡ some d
        → lt (node_item o a d).min_dist max_value ≡ true

  module _ (x : Point) (k : ℕ) where
    -- Where a point is.
    pub data Status (h : KnnQueryHeap fl) (p : ℕ) : Type 0 where
      known : contains p h.known_indexes ≡ true → Status h p
      out : (e : F) → distance cloud x p ≡ some e → Out o k e h.dist_heap → Status h p
      under :
          (a : NodeAddress) (d : F) → Memᴰ (a, d) (keys fl h.child_heap) → Held t p a → Status h p
      beside :
          (a : NodeAddress) (d : F) (n : CoverNode F)
          → Memᴰ (a, d) (keys fl h.singleton_heap)
          → get_node t a ≡ ok (some n)
          → Memᴰ p n.singles_indexes
          → Status h p

    -- A node on the child heap: its distance is true, and its centre is known.
    pub record Waiting (h : KnnQueryHeap fl) (a : NodeAddress) (d : F) : Type 0 where
      pub below : Below t t.root_address a
      pub true_dist : distance cloud x (point_index a) ≡ some d
      pub known : contains (point_index a) h.known_indexes ≡ true

    abbrev pub True : QuerySingleton fl → Type 0
    True z = Held t z.index t.root_address × (distance cloud x z.index ≡ some z.dist)

    -- The heap during the search, where the points in `todo` are about to be pushed.
    pub record Searching (todo : ℕ → Type 0) (h : KnnQueryHeap fl) : Type 0 where
      pub seen : Seen fl
      pub holds : Holds o k h seen
      pub linked : seen.known ≡ map (λ (z : QuerySingleton fl). z.index) seen.points
      pub truths : All True seen.points
      pub waiting : (a : NodeAddress) (d : F) → Memᴰ (a, d) (keys fl h.child_heap) → Waiting h a d
      pub visited :
          (a : NodeAddress) (d : F)
          → Memᴰ (a, d) (keys fl h.singleton_heap)
          → Below t t.root_address a
      pub track : (p : ℕ) → Held t p t.root_address → Status h p ⊎ todo p

    -- The points below some nodes.
    abbrev pub BelowAny : List NodeAddress → ℕ → Type 0
    BelowAny as' p = (a : NodeAddress) × Memᴰ a as' × Held t p a
