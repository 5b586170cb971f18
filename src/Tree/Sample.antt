-- ===== src/Tree/Sample.antt =====
-- goko/src/covertree/tree.rs: a tree of three nodes over the four points of `line`.
use mathlib.Core.Path.{subst}
use mathlib.Core.List.{Memᴰ}
use mathlib.Core.List.Memᴰ
use goko.Common.{
  ℕ, ◌+◌, ◌*◌, ◌^◌, ◌<◌, ◌≤◌, ◌≡◌, ◌∙◌, ◌⊎◌, inl, inr, refl, sym, ap, true, false, Option, none,
  some, List, [], ◌∷◌, arith, ℕ_discrete, ltb,
}
use goko.Common.Int.{ℤ, pos, ◌-ℤ◌, ◌+ℤ◌}
use goko.Common.Outcome.{Outcome, ok}
use goko.Monomap.Table.{get}
use goko.Address.{NodeAddress, point_index, scale_index}
use goko.Points.Tests.{naturals-IsOrder, line}
use goko.Points.Distances.{distance}
use goko.Cover.Node.{GokoError, CoverNode}
use goko.Tree.Reader.{
  CoverTree, CoverLayer, get_node, layer, layer_node, internal_index, children_of,
}
use goko.Tree.Levels.{Below, itself, child, Descends, nodes_below, level}
use goko.Tree.Dangling.{Whole}
use goko.Tree.Knn.Invariant.{Held, centre, single, lower, Searchable}
use goko.Query.Pushes.{node_item}

abbrev pub root : NodeAddress
root = record { na = 68 * 2 ^ 55 + 3 }

abbrev pub nested : NodeAddress
nested = record { na = 65 * 2 ^ 55 + 3 }

abbrev pub other : NodeAddress
other = record { na = 65 * 2 ^ 55 + 1 }

abbrev pub root_node : CoverNode ℕ
root_node = record {
  parent_address = none;
  address = root;
  radius = 9;
  coverage_count = 4;
  children = some (nested ∷ other ∷ []);
  singles_indexes = 2 ∷ [];
}

abbrev pub leaf : NodeAddress → List ℕ → CoverNode ℕ
leaf a singles = record {
  parent_address = some root;
  address = a;
  radius = 1;
  coverage_count = 2;
  children = none;
  singles_indexes = singles;
}

abbrev pub empty_layer : ℤ → CoverLayer ℕ
empty_layer scale = record { scale_index = scale; nodes = [] }

abbrev pub tree : CoverTree ℕ
tree = record {
  min_res_index = pos 1;
  layers =
      empty_layer (pos 0)
      ∷ record { scale_index = pos 1; nodes = (3, leaf nested (0 ∷ [])) ∷ (1, leaf other []) ∷ [] }
      ∷ empty_layer (pos 2)
      ∷ empty_layer (pos 3)
      ∷ record { scale_index = pos 4; nodes = (3, root_node) ∷ [] }
      ∷ [];
  root_address = root;
  final_addresses = (0, nested) ∷ (1, other) ∷ (2, root) ∷ (3, nested) ∷ [];
}

pub at_root : get_node tree root ≡ ok (some root_node)
unfolding get_node layer layer_node internal_index get ℕ_discrete point_index scale_index ◌-ℤ◌ ◌+ℤ◌
at_root = refl

at_nested : get_node tree nested ≡ ok (some (leaf nested (0 ∷ [])))
unfolding get_node layer layer_node internal_index get ℕ_discrete point_index scale_index ◌-ℤ◌ ◌+ℤ◌
at_nested = refl

at_other : get_node tree other ≡ ok (some (leaf other []))
unfolding get_node layer layer_node internal_index get ℕ_discrete point_index scale_index ◌-ℤ◌ ◌+ℤ◌
at_other = refl

pub same_node :
    (n n' : CoverNode ℕ)
    → ◌≡◌ {A = Outcome GokoError (Option (CoverNode ℕ))} (ok (some n)) (ok (some n'))
    → n ≡ n'
same_node n n' e = cc

-- The nodes of the tree.
abbrev pub At : NodeAddress → CoverNode ℕ → Type 0
At a n =
    ((a ≡ root) × (n ≡ root_node))
    ⊎ (((a ≡ nested) × (n ≡ leaf nested (0 ∷ []))) ⊎ ((a ≡ other) × (n ≡ leaf other [])))

pub At-cases :
    (a : NodeAddress)
    → Below tree root a
    → (n : CoverNode ℕ) × (get_node tree a ≡ ok (some n)) × At a n
At-cases _ itself = (root_node, at_root, inl (refl, refl))
At-cases _ (child {b} {c} n p e m) = below c (At-cases b p)
  where
    pick :
        (n : CoverNode ℕ)
        → At b n
        → Memᴰ c (children_of n)
        → (n : CoverNode ℕ) × (get_node tree c ≡ ok (some n)) × At c n
    pick n (inl (q, r)) m = elim (Memᴰ.cases_cons (subst (λ l. Memᴰ c (children_of l)) r m)) [
      | inl u ↦ (leaf nested (0 ∷ []), ap (get_node tree) u ∙ at_nested, inr (inl (u, refl)))
      | inr v ↦ (
        leaf other [],
        ap (get_node tree) (Memᴰ.eq_of_singleton v) ∙ at_other,
        inr (inr (Memᴰ.eq_of_singleton v, refl)),
      )
    ]
    pick n (inr (inl (q, r))) m = absurd (Memᴰ.not-nil (subst (λ l. Memᴰ c (children_of l)) r m))
    pick n (inr (inr (q, r))) m = absurd (Memᴰ.not-nil (subst (λ l. Memᴰ c (children_of l)) r m))

    below :
        (c' : NodeAddress)
        → (n : CoverNode ℕ) × (get_node tree b ≡ ok (some n)) × At b n
        → (n : CoverNode ℕ) × (get_node tree c ≡ ok (some n)) × At c n
    below c' (n', e', w) =
        pick n' w (subst (λ l. Memᴰ c (children_of l)) (same_node n n' (sym e ∙ e')) m)

pub tree-Whole : Whole tree root
tree-Whole a b = let (n, e, w) = At-cases a b in (n, e)

pub tree-Descends : Descends tree root
tree-Descends = record {
  read = λ a b. let (n, e, w) = At-cases a b in (some n, e);
  lower = λ a c n b e m.
      let (n', e', w) = At-cases a b in
      falls a c n' w (subst (λ l. Memᴰ c (children_of l)) (same_node n n' (sym e ∙ e')) m);
}
  where
    falls :
        (a c : NodeAddress) (n : CoverNode ℕ) → At a n → Memᴰ c (children_of n) → level c < level a
    falls a c n (inl (q, r)) m = elim (Memᴰ.cases_cons (subst (λ l. Memᴰ c (children_of l)) r m)) [
      | inl u ↦ rw (u, q) (omega arith)
      | inr v ↦ rw (Memᴰ.eq_of_singleton v, q) (omega arith)
    ]
    falls a c n (inr (inl (q, r))) m =
        absurd (Memᴰ.not-nil (subst (λ l. Memᴰ c (children_of l)) r m))
    falls a c n (inr (inr (q, r))) m =
        absurd (Memᴰ.not-nil (subst (λ l. Memᴰ c (children_of l)) r m))

pub few_nodes : nodes_below tree root ≤ 9
unfolding nodes_below get_node layer layer_node internal_index get ℕ_discrete point_index
    scale_index ◌-ℤ◌ ◌+ℤ◌
few_nodes = omega arith

-- The points of a node and of those below it.
abbrev pub Under : NodeAddress → ℕ → Type 0
Under a p =
    ((a ≡ root) × Memᴰ p (3 ∷ 2 ∷ 0 ∷ 1 ∷ []))
    ⊎ (((a ≡ nested) × Memᴰ p (3 ∷ 0 ∷ [])) ⊎ ((a ≡ other) × Memᴰ p (1 ∷ [])))

index_of_root : point_index root ≡ 3
unfolding point_index
index_of_root = refl

index_of_nested : point_index nested ≡ 3
unfolding point_index
index_of_nested = refl

index_of_other : point_index other ≡ 1
unfolding point_index
index_of_other = refl

pub Under-Held : (p : ℕ) (a : NodeAddress) → Below tree root a → Held tree p a → Under a p
Under-Held p a b (centre q) = let (n, e, w) = At-cases a b in go n w
  where
    go : (n : CoverNode ℕ) → At a n → Under a p
    go n (inl (u, r)) = inl (u, Memᴰ.head (q ∙ ap point_index u ∙ index_of_root))
    go n (inr (inl (u, r))) = inr (inl (u, Memᴰ.head (q ∙ ap point_index u ∙ index_of_nested)))
    go n (inr (inr (u, r))) = inr (inr (u, Memᴰ.head (q ∙ ap point_index u ∙ index_of_other)))
Under-Held p a b (single n' e' m) =
    let (n, e, w) = At-cases a b in
    go n w (subst (λ (l : CoverNode ℕ). Memᴰ p l.singles_indexes) (same_node n' n (sym e' ∙ e)) m)
  where
    go : (n : CoverNode ℕ) → At a n → Memᴰ p n.singles_indexes → Under a p
    go n (inl (u, r)) m = inl (
      u,
      Memᴰ.tail (
          Memᴰ.head
            (Memᴰ.eq_of_singleton (subst (λ (l : CoverNode ℕ). Memᴰ p l.singles_indexes) r m))),
    )
    go n (inr (inl (u, r))) m =
        inr (inl (u, Memᴰ.tail (subst (λ (l : CoverNode ℕ). Memᴰ p l.singles_indexes) r m)))
    go n (inr (inr (u, r))) m =
        absurd (Memᴰ.not-nil (subst (λ (l : CoverNode ℕ). Memᴰ p l.singles_indexes) r m))
Under-Held p a b (lower n' c e' m g) =
    let (n, e, w) = At-cases a b in
    go n w (subst (λ l. Memᴰ c (children_of l)) (same_node n' n (sym e' ∙ e)) m)
      (Under-Held p c (child n' b e' m) g)
  where
    go : (n : CoverNode ℕ) → At a n → Memᴰ c (children_of n) → Under c p → Under a p
    go n (inl (u, r)) m (inl (v, i)) = inl (u, i)
    go n (inl (u, r)) m (inr (inl (v, i))) = inl (
      u,
      elim (Memᴰ.cases_cons i) [
        | inl y ↦ Memᴰ.head y
        | inr j ↦ Memᴰ.tail (Memᴰ.tail (Memᴰ.head (Memᴰ.eq_of_singleton j)))
      ],
    )
    go n (inl (u, r)) m (inr (inr (v, i))) = inl (u, Memᴰ.tail (Memᴰ.tail (Memᴰ.tail i)))
    go n (inr (inl (u, r))) m x = absurd (Memᴰ.not-nil (subst (λ l. Memᴰ c (children_of l)) r m))
    go n (inr (inr (u, r))) m x = absurd (Memᴰ.not-nil (subst (λ l. Memᴰ c (children_of l)) r m))

pub dist_0 : distance (line 1) 5 0 ≡ some 4
unfolding distance
dist_0 = refl

pub dist_1 : distance (line 1) 5 1 ≡ some 3
unfolding distance
dist_1 = refl

pub dist_2 : distance (line 1) 5 2 ≡ some 4
unfolding distance
dist_2 = refl

pub dist_3 : distance (line 1) 5 3 ≡ some 5
unfolding distance
dist_3 = refl

-- The points of the tree and their distances.
pub four_points : (p : ℕ) → Memᴰ p (3 ∷ 2 ∷ 0 ∷ 1 ∷ []) → (d : ℕ) × (distance (line 1) 5 p ≡ some d)
four_points p m = elim (Memᴰ.cases_cons m) [
  | inl q ↦ (5, ap (distance (line 1) 5) q ∙ dist_3)
  | inr m ↦ elim (Memᴰ.cases_cons m) [
    | inl q ↦ (4, ap (distance (line 1) 5) q ∙ dist_2)
    | inr m ↦ elim (Memᴰ.cases_cons m) [
      | inl q ↦ (4, ap (distance (line 1) 5) q ∙ dist_0)
      | inr m ↦ (3, ap (distance (line 1) 5) (Memᴰ.eq_of_singleton m) ∙ dist_1)
    ]
  ]
]

abbrev least : NodeAddress → ℕ → ℕ
least a d = (node_item naturals-IsOrder a d).min_dist

abbrev Covering : NodeAddress → ℕ → Type 0
Covering a p =
    (d e : ℕ)
    → distance (line 1) 5 (point_index a) ≡ some d
    → distance (line 1) 5 p ≡ some e
    → ltb e (least a d) ≡ false

covers_at :
    (a : NodeAddress) (p d' e' : ℕ)
    → distance (line 1) 5 (point_index a) ≡ some d'
    → distance (line 1) 5 p ≡ some e'
    → ltb e' (least a d') ≡ false
    → Covering a p
covers_at a p d' e' u v h d e y z =
    subst (λ i. ltb e (least a i) ≡ false) (same d' d (sym u ∙ y))
      (subst (λ i. ltb i (least a d') ≡ false) (same e' e (sym v ∙ z)) h)
  where
    same : (i j : ℕ) → ◌≡◌ {A = Option ℕ} (some i) (some j) → i ≡ j
    same i j q = cc

tree_covers : (a : NodeAddress) (p : ℕ) → Under a p → Covering a p
unfolding scale_index ◌-ℤ◌
tree_covers a p (inl (u, m)) =
    let (e, v) = four_points p m in
    subst (λ b. Covering b p) (sym u)
      (covers_at root p 5 e (ap (distance (line 1) 5) index_of_root ∙ dist_3) v (ground arith))
tree_covers a p (inr (inl (u, m))) =
    subst (λ b. Covering b p) (sym u)
      (elim (Memᴰ.cases_cons m) [
        | inl q ↦
            covers_at nested p 5 5 (ap (distance (line 1) 5) index_of_nested ∙ dist_3)
              (ap (distance (line 1) 5) q ∙ dist_3) refl
        | inr j ↦
            covers_at nested p 5 4 (ap (distance (line 1) 5) index_of_nested ∙ dist_3)
              (ap (distance (line 1) 5) (Memᴰ.eq_of_singleton j) ∙ dist_0) refl
      ])
tree_covers a p (inr (inr (u, m))) =
    subst (λ b. Covering b p) (sym u)
      (covers_at other p 3 3 (ap (distance (line 1) 5) index_of_other ∙ dist_1)
        (ap (distance (line 1) 5) (Memᴰ.eq_of_singleton m) ∙ dist_1) refl)

tree_finite :
    (a : NodeAddress) (d : ℕ)
    → Below tree root a
    → distance (line 1) 5 (point_index a) ≡ some d
    → ltb (least a d) 1000 ≡ true
unfolding scale_index ◌-ℤ◌
tree_finite a d b y =
    let (n, e, w) = At-cases a b in
    subst (λ i. ltb (least a i) 1000 ≡ true) (same (at n w).0 d (sym (at n w).1 ∙ y)) (near n w)
  where
    same : (i j : ℕ) → ◌≡◌ {A = Option ℕ} (some i) (some j) → i ≡ j
    same i j q = cc

    at : (n : CoverNode ℕ) → At a n → (d' : ℕ) × (distance (line 1) 5 (point_index a) ≡ some d')
    at n (inl (u, r)) = (
      5,
      ap (λ b. distance (line 1) 5 (point_index b)) u
          ∙ ap (distance (line 1) 5) index_of_root
          ∙ dist_3,
    )
    at n (inr (inl (u, r))) = (
      5,
      ap (λ b. distance (line 1) 5 (point_index b)) u
          ∙ ap (distance (line 1) 5) index_of_nested
          ∙ dist_3,
    )
    at n (inr (inr (u, r))) = (
      3,
      ap (λ b. distance (line 1) 5 (point_index b)) u
          ∙ ap (distance (line 1) 5) index_of_other
          ∙ dist_1,
    )

    near : (n : CoverNode ℕ) (w : At a n) → ltb (least a (at n w).0) 1000 ≡ true
    near n (inl (u, r)) = subst (λ b. ltb (least b 5) 1000 ≡ true) (sym u) refl
    near n (inr (inl (u, r))) = subst (λ b. ltb (least b 5) 1000 ≡ true) (sym u) refl
    near n (inr (inr (u, r))) = subst (λ b. ltb (least b 3) 1000 ≡ true) (sym u) refl

pub tree-Searchable : Searchable naturals-IsOrder (line 1) tree 5
tree-Searchable = record {
  descends = tree-Descends;
  whole = tree-Whole;
  own = λ a n b e. let (n', e', w) = At-cases a b in own a n n' w (same_node n n' (sym e ∙ e'));
  nested = λ a n cs b e q.
      let (n', e', w) = At-cases a b in
      first a n' cs w
        (subst (λ (l : CoverNode ℕ). l.children ≡ some cs) (same_node n n' (sym e ∙ e')) q);
  readable = λ p g. elim (Under-Held p root itself g) [
    | inl (u, m) ↦ four_points p m
    | inr (inl (u, m)) ↦ absurd (omega (arith, ap (λ (a : NodeAddress). a.na) u))
    | inr (inr (u, m)) ↦ absurd (omega (arith, ap (λ (a : NodeAddress). a.na) u))
  ];
  symmetric = λ y. omega arith;
  covering = λ a p d e b g. tree_covers a p (Under-Held p a b g) d e;
  finite = tree_finite;
}
  where
    own : (a : NodeAddress) (n n' : CoverNode ℕ) → At a n' → n ≡ n' → n.address ≡ a
    own a n n' (inl (u, r)) q = ap (λ (l : CoverNode ℕ). l.address) (q ∙ r) ∙ sym u
    own a n n' (inr (inl (u, r))) q = ap (λ (l : CoverNode ℕ). l.address) (q ∙ r) ∙ sym u
    own a n n' (inr (inr (u, r))) q = ap (λ (l : CoverNode ℕ). l.address) (q ∙ r) ∙ sym u

    first :
        (a : NodeAddress) (n : CoverNode ℕ) (cs : List NodeAddress)
        → At a n
        → n.children ≡ some cs
        → (c : NodeAddress) × (rest : List NodeAddress) × (cs ≡ c ∷ rest)
          × (point_index c ≡ point_index a)
    first a n cs (inl (u, r)) q =
        let q' = subst (λ (l : CoverNode ℕ). l.children ≡ some cs) r q in
        (nested, other ∷ [], cc, index_of_nested ∙ sym index_of_root ∙ ap point_index (sym u))
    first a n cs (inr (inl (u, r))) q =
        let q' = subst (λ (l : CoverNode ℕ). l.children ≡ some cs) r q in absurd (cc)
    first a n cs (inr (inr (u, r))) q =
        let q' = subst (λ (l : CoverNode ℕ). l.children ≡ some cs) r q in absurd (cc)
