-- ===== src/Tree/Paths/Query.antt =====
-- goko/src/covertree/tree.rs: `path` follows the covering children down from the root.
use mathlib.Core.Path.{subst}
use mathlib.Core.List.{Memᴰ}
use goko.Common.{
  ℕ, zero, suc, ◌<◌, ◌≡◌, ◌∙◌, ◌⊎◌, inl, inr, refl, sym, ap, true, Option, none, some, List, [],
  ◌∷◌, map, get_elem?, arith, Option-cases, Bool-cases, if◌then◌else◌,
}
use goko.Common.Outcome.{ok}
use goko.Address.{NodeAddress, point_index}
use goko.Points.Float.{Float, Cloud, IsOrder}
use goko.Points.Distances.{distance, distance-some, distances, distances_cons}
use goko.Cover.Node.{CoverNode}
use goko.Cover.Node.Children.{
  covers, Least, nearest_covering_child, first_covering_child, nearest_covering_child-Least,
}
use goko.Cover.Node.First.{IsFirst, found, absent, first_covering_child-IsFirst}
use goko.Tree.Reader.{CoverTree, get_node, children_of}
use goko.Tree.Levels.{Below, itself, child, Descends, level}
use goko.Tree.Dangling.{Whole}
use goko.Tree.Paths.{PartitionType, nearest, first, covering_child, path_from, path_turn, path}

module _ {fl : Float} (o : IsOrder fl) (cloud : Cloud fl) where
  open fl use {F, lt, max_value}
  open cloud use {Point, dist, point}

  -- The child that the partition takes, from the children and their distances: the first one that
  -- covers, or the one of least distance if it covers.
  abbrev pub Picks : PartitionType → List NodeAddress → List F → Option (NodeAddress × F) → Type 0
  Picks nearest cs ds r =
      (m : NodeAddress) × (e : F) × Least cloud cs ds m e
      × (r ≡ (if covers cloud m e then some (m, e) else none))
  Picks first cs ds r = IsFirst cloud cs ds r

  -- The child that is taken is one of the children, at its distance, and covers the point.
  record Picked (cs : List NodeAddress) (ds : List F) (m : NodeAddress) (e : F) : Type 0 where
    pub index : ℕ
    pub taken : get_elem? cs index ≡ some m
    pub dist : get_elem? ds index ≡ some e
    pub within : covers cloud m e ≡ true

  same_address : (a b : NodeAddress) → ◌≡◌ {A = Option NodeAddress} (some a) (some b) → a ≡ b
  same_address a b e = cc

  pair :
      (m : NodeAddress) (e : F) (m' : NodeAddress) (e' : F)
      → ◌≡◌ {A = Option (NodeAddress × F)} (some (m, e)) (some (m', e'))
      → ◌≡◌ {A = NodeAddress × F} (m', e') (m, e)
  pair m e m' e' q = cc

  picked :
      (q : PartitionType) (cs : List NodeAddress) (ds : List F) (m : NodeAddress) (e : F)
      → Picks q cs ds (some (m, e))
      → Picked cs ds m e
  picked nearest cs ds m e (m', e', l, r) = elim (Bool-cases (covers cloud m' e')) [
    | inl y ↦
        let same : ◌≡◌ {A = Option (NodeAddress × F)} (some (m, e)) (some (m', e')) = rw y at r in
        subst (λ (z : NodeAddress × F). Picked cs ds z.0 z.1) (pair m e m' e' same)
          (record { index = l.index; taken = l.child; dist = l.dist; within = y })
    | inr n ↦
        let never : ◌≡◌ {A = Option (NodeAddress × F)} (some (m, e)) none = rw n at r in absurd (cc)
  ]
  picked first cs ds m e f = first_picked f refl
    where
      first_picked :
          {r : Option (NodeAddress × F)}
          → IsFirst cloud cs ds r
          → r ≡ some (m, e)
          → Picked cs ds m e
      first_picked (found i c d u v w p) q =
          subst (λ (z : NodeAddress × F). Picked cs ds z.0 z.1) (pair m e c d (sym q))
            (record { index = i; taken = u; dist = v; within = w })
      first_picked (absent p) q = absurd (cc)

  pub covering_child-Picks :
      (q : PartitionType) (x : Point) (n : CoverNode F) (c : NodeAddress) (cs : List NodeAddress)
      (d : F) (ds : List F)
      → n.children ≡ some (c ∷ cs)
      → distances cloud x (map point_index cs) ≡ some ds
      → lt d max_value ≡ true
      → (r : Option (NodeAddress × F)) × (covering_child cloud q d x n ≡ ok r)
        × Picks q (c ∷ cs) (d ∷ ds) r
  unfolding covering_child
  covering_child-Picks nearest x n c cs d ds k e h =
      let (m, e', l, run) = nearest_covering_child-Least cloud o x n c cs d ds k e h in
      (if covers cloud m e' then some (m, e') else none, run, (m, e', l, refl))
  covering_child-Picks first x n c cs d ds k e h =
      first_covering_child-IsFirst cloud x n c cs d ds k e

  module _ (t : CoverTree F) (q : PartitionType) (x : Point) where
    -- The trace of a query from a node at a distance: it ends at a leaf, or where the partition takes
    -- no child, and goes on from the child that it takes.
    pub data Trace : NodeAddress → F → List (NodeAddress × F) → Type 0 where
      leaf :
          {a : NodeAddress} {d : F} (n : CoverNode F)
          → get_node t a ≡ ok (some n)
          → n.children ≡ none
          → Trace a d ((a, d) ∷ [])
      outside :
          {a : NodeAddress} {d : F} (n : CoverNode F) (c : NodeAddress) (cs : List NodeAddress)
          (ds : List F)
          → get_node t a ≡ ok (some n)
          → n.children ≡ some (c ∷ cs)
          → distances cloud x (map point_index cs) ≡ some ds
          → Picks q (c ∷ cs) (d ∷ ds) none
          → Trace a d ((a, d) ∷ [])
      onto :
          {a : NodeAddress} {d : F} (n : CoverNode F) (c : NodeAddress) (cs : List NodeAddress)
          (ds : List F) (m : NodeAddress) (e : F) (l : List (NodeAddress × F))
          → get_node t a ≡ ok (some n)
          → n.children ≡ some (c ∷ cs)
          → distances cloud x (map point_index cs) ≡ some ds
          → Picks q (c ∷ cs) (d ∷ ds) (some (m, e))
          → Trace m e l
          → Trace a d ((a, d) ∷ l)

    -- What a query relies on: a finished tree, whose first children have the centres of their
    -- parents, and finite distances to the centres, which can be read.
    pub record Walkable : Type 0 where
      pub descends : Descends t t.root_address
      pub whole : Whole t t.root_address
      pub nested :
          (a : NodeAddress) (n : CoverNode F) (cs : List NodeAddress)
          → Below t t.root_address a
          → get_node t a ≡ ok (some n)
          → n.children ≡ some cs
          → (c : NodeAddress) × (rest : List NodeAddress) × (cs ≡ c ∷ rest)
            × (point_index c ≡ point_index a)
      pub readable :
          (a : NodeAddress)
          → Below t t.root_address a
          → (d : F) × (distance cloud x (point_index a) ≡ some d) × (lt d max_value ≡ true)
      pub symmetric : (y : Point) → dist y x ≡ dist x y

    nth_distance :
        (cs : List NodeAddress) (ds : List F) (i : ℕ) (m : NodeAddress) (e : F)
        → distances cloud x (map point_index cs) ≡ some ds
        → get_elem? cs i ≡ some m
        → get_elem? ds i ≡ some e
        → Memᴰ m cs × (distance cloud x (point_index m) ≡ some e)
    nth_distance [] ds i m e r u v = absurd (cc)
    nth_distance (c ∷ cs) ds zero m e r u v =
        let (d, es, y, z, w) = distances_cons cloud x (point_index c) (map point_index cs) ds r in
        let same = same_address m c (sym u) in
        (
          Memᴰ.head same,
          ap (λ b. distance cloud x (point_index b)) same ∙ y ∙ ap (λ l. get_elem? l 0) (sym w) ∙ v,
        )
    nth_distance (c ∷ cs) ds (suc i) m e r u v =
        let (d, es, y, z, w) = distances_cons cloud x (point_index c) (map point_index cs) ds r in
        let (mem, near) =
          nth_distance cs es i m e z u (ap (λ l. get_elem? l (suc i)) (sym w) ∙ v) in
        (Memᴰ.tail mem, near)

    measured_first :
        (c : NodeAddress) (cs : List NodeAddress) (d : F) (ds : List F)
        → distance cloud x (point_index c) ≡ some d
        → distances cloud x (map point_index cs) ≡ some ds
        → distances cloud x (map point_index (c ∷ cs)) ≡ some (d ∷ ds)
    unfolding distances
    measured_first c cs d ds e r = rw (e, r) refl

    module _ (w : Walkable) where
      near_children :
          (cs : List NodeAddress)
          → ((c : NodeAddress) → Memᴰ c cs → Below t t.root_address c)
          → (ds : List F) × (distances cloud x (map point_index cs) ≡ some ds)
      unfolding distances
      near_children [] b = ([], refl)
      near_children (c ∷ cs) b =
          let (d, e, f) = w.readable c (b c (Memᴰ.head refl)) in
          let (ds, e') = near_children cs (λ y m. b y (Memᴰ.tail m)) in (d ∷ ds, rw (e, e') refl)

      children_of-some :
          (n : CoverNode F) (cs : List NodeAddress) → n.children ≡ some cs → children_of n ≡ cs
      children_of-some n cs e =
          ap
            (λ (q : Option (List NodeAddress)). elim q as (λ _. List NodeAddress) [
              | none ↦ []
              | some l ↦ l
            ])
            e

      covering_leaf :
          (q : PartitionType) (d : F) (n : CoverNode F)
          → n.children ≡ none
          → covering_child cloud q d x n ≡ ok none
      unfolding covering_child nearest_covering_child first_covering_child
      covering_leaf nearest d n k = rw k refl
      covering_leaf first d n k = rw k refl

      -- The turns of the loop: at a node where no child is taken, and at one where one is.
      last_turn :
          (fuel : ℕ) (a : NodeAddress) (d : F) (n : CoverNode F)
          → get_node t a ≡ ok (some n)
          → covering_child cloud q d x n ≡ ok none
          → path_from cloud (suc fuel) t q x a d ≡ ok ((a, d) ∷ [])
      unfolding path_from path_turn
      last_turn fuel a d n e r = rw e turn
        where
          turn : path_turn cloud (path_from cloud fuel t q x) q x a d (some n) ≡ ok ((a, d) ∷ [])
          turn = rw (r, path_turn) refl

      next_turn :
          (fuel : ℕ) (a m : NodeAddress) (d e' : F) (n : CoverNode F) (l : List (NodeAddress × F))
          → get_node t a ≡ ok (some n)
          → covering_child cloud q d x n ≡ ok (some (m, e'))
          → path_from cloud fuel t q x m e' ≡ ok l
          → path_from cloud (suc fuel) t q x a d ≡ ok ((a, d) ∷ l)
      unfolding path_from path_turn
      next_turn fuel a m d e' n l e r rest = rw e turn
        where
          turn : path_turn cloud (path_from cloud fuel t q x) q x a d (some n) ≡ ok ((a, d) ∷ l)
          turn = rw (r, path_turn) (rw rest refl)

      finite_dist :
          (a : NodeAddress) (d : F)
          → Below t t.root_address a
          → distance cloud x (point_index a) ≡ some d
          → lt d max_value ≡ true
      finite_dist a d b e =
          let (d', e', f) = w.readable a b in
          subst (λ y. lt y max_value ≡ true) (same d' d (sym e' ∙ e)) f
        where
          same : (i j : F) → ◌≡◌ {A = Option F} (some i) (some j) → i ≡ j
          same i j q = cc

      abbrev Traced : ℕ → NodeAddress → F → Type 0
      Traced fuel a d =
          (l : List (NodeAddress × F)) × (path_from cloud fuel t q x a d ≡ ok l) × Trace a d l

      path_from-Trace :
          (fuel : ℕ) (a : NodeAddress) (d : F)
          → Below t t.root_address a
          → distance cloud x (point_index a) ≡ some d
          → level a < fuel
          → Traced fuel a d
      path_from-Trace zero a d b e h = absurd (omega arith)
      path_from-Trace (suc fuel) a d b e h =
          let (n, at) = w.whole a b in kids n at (Option-cases n.children) (path_from-Trace fuel)
        where
          kids :
              (n : CoverNode F)
              → get_node t a ≡ ok (some n)
              → (n.children ≡ none) ⊎ ((cs : List NodeAddress) × (n.children ≡ some cs))
              → ((a : NodeAddress) (d : F)
                  → Below t t.root_address a
                  → distance cloud x (point_index a) ≡ some d
                  → level a < fuel
                  → Traced fuel a d)
              → Traced (suc fuel) a d
          kids n at (inl k) ih =
              ((a, d) ∷ [], last_turn fuel a d n at (covering_leaf q d n k), leaf n at k)
          kids n at (inr (cs, k)) ih =
              let (c, rest, split, nest) = w.nested a n cs b at k in
              let k' : n.children ≡ some (c ∷ rest) = k ∙ ap some split in
              let inside = λ (y : NodeAddress) (m : Memᴰ y (c ∷ rest)).
                child n b at (subst (Memᴰ y) (sym (children_of-some n (c ∷ rest) k')) m) in
              let (ds, near) = near_children rest (λ y m. inside y (Memᴰ.tail m)) in
              let (r, run, p) =
                covering_child-Picks q x n c rest d ds k' near (finite_dist a d b e) in
              taken c rest ds k' near nest inside r run p
            where
              taken :
                  (c : NodeAddress) (rest : List NodeAddress) (ds : List F)
                  → n.children ≡ some (c ∷ rest)
                  → distances cloud x (map point_index rest) ≡ some ds
                  → point_index c ≡ point_index a
                  → ((y : NodeAddress) → Memᴰ y (c ∷ rest) → Below t t.root_address y)
                  → (r : Option (NodeAddress × F)) → covering_child cloud q d x n ≡ ok r
                  → Picks q (c ∷ rest) (d ∷ ds) r
                  → Traced (suc fuel) a d
              taken c rest ds k near nest inside none run p =
                  ((a, d) ∷ [], last_turn fuel a d n at run, outside n c rest ds at k near p)
              taken c rest ds k near nest inside (some (m, e')) run p =
                  let g = picked q (c ∷ rest) (d ∷ ds) m e' p in
                  let all = measured_first c rest d ds (ap (distance cloud x) nest ∙ e) near in
                  let (mem, true_dist) =
                    nth_distance (c ∷ rest) (d ∷ ds) g.index m e' all g.taken g.dist in
                  let low =
                    w.descends.lower a m n b at
                      (subst (Memᴰ m) (sym (children_of-some n (c ∷ rest) k)) mem) in
                  let (l, go_on, tr) = ih m e' (inside m mem) true_dist (omega arith) in
                  (
                    (a, d) ∷ l,
                    next_turn fuel a m d e' n l at run go_on,
                    onto n c rest ds m e' l at k near p tr,
                  )

-- In a finished tree whose first children have the centres of their parents, with a symmetric metric
-- and finite distances that can be read and are ordered as on floats without NaN, `path` on fuel above
-- the level of the root ends without an error. The trace starts at the root and goes on from each
-- node to the child that the partition takes, the first that covers the point or the nearest one if
-- it covers, with its distance; it ends at a leaf or where no child is taken.
pub path-Trace :
    {fl : Float} (o : IsOrder fl) (cloud : Cloud fl) (t : CoverTree fl.F) (q : PartitionType)
    (x : cloud.Point) (fuel : ℕ)
    → Walkable o cloud t q x
    → level t.root_address < fuel
    → (d : fl.F) × (l : List (NodeAddress × fl.F)) × (path cloud fuel t q x ≡ ok l)
      × (distance cloud x (point_index t.root_address) ≡ some d)
      × Trace o cloud t q x t.root_address d l
unfolding path
path-Trace o cloud t q x fuel w h =
    let (d, e, f) = w.readable t.root_address itself in
    let (y, there, r) = distance-some cloud x (point_index t.root_address) d e in
    let e' : distance cloud x (point_index t.root_address) ≡ some (cloud.dist y x) =
      e ∙ ap some (sym r ∙ sym (w.symmetric y)) in
    let (l, run, tr) =
      path_from-Trace o cloud t q x w fuel t.root_address (cloud.dist y x) itself e' h in
    (cloud.dist y x, l, rw there run, e', tr)
