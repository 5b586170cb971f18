-- ===== src/Tree/Paths/Known.antt =====
-- goko/src/covertree/tree.rs: `known_path` gives the way down from the root to a point.
use mathlib.Core.Path.{subst}
use mathlib.Core.List.{Memᴰ, append_assoc, append-nil}
use goko.Common.{
  All, ℕ, zero, suc, ◌+◌, ◌≤◌, ◌<◌, ◌≡◌, ◌∙◌, refl, sym, ap, false, none, some, List, [], ◌∷◌, ◌++◌,
  map, arith, ℕ_discrete,
}
use goko.Common.Int.{ltb_ℤ, pos, -ℤ_parts}
use goko.Common.Outcome.{ok}
use goko.Monomap.Table.{get}
use goko.Address.{NodeAddress, point_index, scale_index}
use goko.Points.Float.{Float, Cloud}
use goko.Points.Distances.{distance, distances}
use goko.Cover.Node.{CoverNode}
use goko.Cover.Lists.{All-append}
use goko.Cover.Caches.{distances_to_index}
use goko.Tree.Reader.{CoverTree, get_node, children_of}
use goko.Tree.Levels.{Below, itself, child, Descends, level}
use goko.Tree.Dangling.{Whole}
use goko.Tree.Paths.{walk_up, with_dists, known_path, path_dists}

module _ {F : Type 0} (t : CoverTree F) where
  -- The parent of a child is the node, and the root has none.
  pub record ParentLinked (root : NodeAddress) : Type 0 where
    pub top : (n : CoverNode F) → get_node t root ≡ ok (some n) → n.parent_address ≡ none
    pub linked :
        (a c : NodeAddress) (n m : CoverNode F)
        → Below t root a
        → get_node t a ≡ ok (some n)
        → Memᴰ c (children_of n)
        → get_node t c ≡ ok (some m)
        → m.parent_address ≡ some a

  -- The addresses on a way down from a node to a node, each a child of the one before.
  pub data Descent (root : NodeAddress) : List NodeAddress → NodeAddress → Type 0 where
    only : Descent root (root ∷ []) root
    down :
        {l : List NodeAddress} {a : NodeAddress} (n : CoverNode F) (c : NodeAddress)
        → Descent root l a
        → get_node t a ≡ ok (some n)
        → Memᴰ c (children_of n)
        → Descent root (l ++ c ∷ []) c

  module _ {root : NodeAddress} (d : Descends t root) (whole : Whole t root)
      (up : ParentLinked root) where
    walk_none : (fuel : ℕ) (path : List NodeAddress) → walk_up fuel t none path ≡ ok path
    unfolding walk_up
    walk_none zero path = refl
    walk_none (suc fuel) path = refl

    pub level-le : {a : NodeAddress} → Below t root a → level a ≤ level root
    level-le itself = omega arith
    level-le (child {b} {c} n p e m) = omega (arith, level-le p, d.lower b c n p e m)

    walk_up-Descent :
        {a : NodeAddress}
        → Below t root a
        → (fuel : ℕ) (path : List NodeAddress) → level root < level a + fuel
        → (l : List NodeAddress) × (walk_up fuel t (some a) path ≡ ok (l ++ path))
          × Descent root l a
    unfolding walk_up
    walk_up-Descent b zero path h = absurd (omega (arith, level-le b))
    walk_up-Descent itself (suc fuel) path h =
        let (n, e) = whole root itself in
        (root ∷ [], rw (e, up.top n e) (walk_none fuel (root ∷ path)), only)
    walk_up-Descent (child {b} {c} n p e m) (suc fuel) path h =
        let (n', e') = whole c (child n p e m) in
        let (l, run, w) = walk_up-Descent p fuel (c ∷ path) (omega (arith, d.lower b c n p e m)) in
        (
          l ++ c ∷ [],
          rw (e', up.linked b c n n' p e m e', append_assoc l (c ∷ []) path) run,
          down n c w e m,
        )

    scale_le :
        (a : NodeAddress) → level a ≤ level root → ltb_ℤ (scale_index root) (scale_index a) ≡ false
    unfolding scale_index
    scale_le a h =
        ground (arith, -ℤ_parts (pos (level a)) (pos 64), -ℤ_parts (pos (level root)) (pos 64))

  Descent-Below :
      {root : NodeAddress} {l : List NodeAddress} {a : NodeAddress}
      → Descent root l a
      → Below t root a
  Descent-Below only = itself
  Descent-Below (down n c w e m) = child n (Descent-Below w) e m

  Descent-All :
      {root : NodeAddress} {l : List NodeAddress} {a : NodeAddress}
      → Descent root l a
      → All (Below t root) l
  Descent-All {root} only = (itself, tt)
  Descent-All {root} (down {l} n c w e m) =
      All-append (Below t root) l (c ∷ []) (Descent-All w) (child n (Descent-Below w) e m, tt)

module _ {fl : Float} (cloud : Cloud fl) where
  open fl use {F}
  open cloud use {Point, point}

  -- The address of each pair, and its distance to the point.
  record Measured (x : Point) (l : List NodeAddress) (rs : List (NodeAddress × F)) : Type 0 where
    pub addresses : map (λ (r : NodeAddress × F). r.0) rs ≡ l
    pub dists : All (λ (r : NodeAddress × F). distance cloud x (point_index r.0) ≡ some r.1) rs

  measured :
      (x : Point) (l : List NodeAddress)
      → All (λ a. (e : F) × (distance cloud x (point_index a) ≡ some e)) l
      → (es : List F) × (distances cloud x (map point_index l) ≡ some es)
        × Measured x l (with_dists es l)
  unfolding distances with_dists
  measured x [] h = ([], refl, record { addresses = refl; dists = tt })
  measured x (a ∷ l) ((e, q), h) =
      let (es, run, m) = measured x l h in
      (
        e ∷ es,
        rw (q, run) refl,
        record { addresses = ap (◌∷◌ a) m.addresses; dists = (q, m.dists) },
      )

  All-map {κ ℓ} :
      {P : NodeAddress → Type κ} {Q : NodeAddress → Type ℓ} (l : List NodeAddress)
      → ((a : NodeAddress) → P a → Q a)
      → All P l
      → All Q l
  All-map [] f h = tt
  All-map (a ∷ l) f h = (f a h.0, All-map l f h.1)

  module _ (t : CoverTree F) (p : ℕ) (a : NodeAddress) (x : Point) (fuel : ℕ) where
    indexed :
        (is : List ℕ) (es : List F)
        → point p ≡ some x
        → distances cloud x is ≡ some es
        → distances_to_index cloud p is ≡ ok es
    unfolding distances_to_index
    indexed is es there run = rw (there, run) refl

    paired :
        (l : List NodeAddress) (es : List F)
        → point p ≡ some x
        → distances cloud x (map point_index l) ≡ some es
        → path_dists cloud p l ≡ ok (with_dists es l)
    unfolding path_dists
    paired l es there run = rw (indexed (map point_index l) es there run) refl

    known_run :
        (l : List NodeAddress) (es : List F)
        → get ℕ_discrete p t.final_addresses ≡ some a
        → ltb_ℤ (scale_index t.root_address) (scale_index a) ≡ false
        → walk_up fuel t (some a) [] ≡ ok l
        → point p ≡ some x
        → distances cloud x (map point_index l) ≡ some es
        → known_path cloud fuel t p ≡ ok (with_dists es l)
    unfolding known_path
    known_run l es final scale walk there run =
        rw (final, known_path) (rw scale (rw walk (paired l es there run)))

    -- In a tree whose references lead to nodes at lower scales, where the children of a node have it
    -- as their parent and the root has none, the known path of a point whose final address is a node
    -- below the root, on fuel above the levels between, gives a way down from the root to that node,
    -- each address a child of the one before and with its centre's distance to the point, if the
    -- point and the centres can be read.
    pub known_path-Descent :
        Descends t t.root_address
        → Whole t t.root_address
        → ParentLinked t t.root_address
        → get ℕ_discrete p t.final_addresses ≡ some a
        → Below t t.root_address a
        → point p ≡ some x
        → ((b : NodeAddress)
            → Below t t.root_address b
            → (e : F) × (distance cloud x (point_index b) ≡ some e))
        → level t.root_address < level a + fuel
        → (rs : List (NodeAddress × F)) × (known_path cloud fuel t p ≡ ok rs)
          × Descent t t.root_address (map (λ (r : NodeAddress × F). r.0) rs) a
          × All (λ (r : NodeAddress × F). distance cloud x (point_index r.0) ≡ some r.1) rs
    known_path-Descent d whole up final b there near h =
        let (l, walk, w) = walk_up-Descent t d whole up b fuel [] h in
        let walk' : walk_up fuel t (some a) [] ≡ ok l = walk ∙ ap ok (append-nil l) in
        let (es, run, m) = measured x l (All-map l near (Descent-All t w)) in
        (
          with_dists es l,
          known_run l es final (scale_le t d whole up a (level-le t d whole up b)) walk' there run,
          subst (λ k. Descent t t.root_address k a) (sym m.addresses) w,
          m.dists,
        )
