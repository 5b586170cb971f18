-- ===== src/Tree/Tests.antt =====
-- goko/src/covertree/tree.rs: the walks and searches of the tree of the sample.
use mathlib.Core.Path.{subst}
use mathlib.Core.List.{Memᴰ}
use mathlib.Core.List.Memᴰ
use goko.Common.{
  All, false, if◌then◌else◌, suc, zero, ℕ, ◌≡◌, ◌∙◌, ◌⊎◌, ◌↔◌, inl, inr, refl, sym, ap, Bool, true,
  some, map, List, [], ◌∷◌, arith, ℕ_discrete, ltb,
}
use goko.Common.Outcome.{ok, panic}
use goko.Monomap.Table.{get}
use goko.Address.{NodeAddress, point_index}
use goko.Points.Tests.{naturals-IsOrder, line}
use goko.Points.Distances.{distance}
use goko.Cover.Node.{CoverNode}
use goko.Tree.Reader.{
  CoverLayer, layer, CoverTree, children_of, no_dangling_refs, refresh_final_indexes,
}
use goko.Tree.Levels.{Below, itself, child}
use goko.Tree.Dangling.{Whole, no_dangling_refs_iff}
use goko.Tree.Knn.{knn}
use goko.Tree.Knn.Invariant.{centre, Held-up}
use goko.Tree.Knn.Exact.{IsKnn, knn-IsKnn}
use goko.Tree.Final.{Ends, refresh_final_indexes-Ends}
use goko.Tree.Sample.{
  root, nested, other, root_node, tree, At, At-cases, same_node, at_root, tree-Whole, tree-Descends,
  few_nodes, tree-Searchable,
}
use goko.Common.Int.{pos, ltb_ℤ, ◌+ℤ◌, ◌-ℤ◌}
use goko.Tree.Layers.{new_layers, empty_layer, scale_range, new_layers-layer}
use goko.Tree.Paths.{nearest, known_path, path}
use goko.Tree.Paths.Known.{ParentLinked, Descent, known_path-Descent}
use goko.Tree.Paths.Query.{Walkable, Trace, path-Trace}

no_dangling_refs_iff_example :
    (b : Bool) × (no_dangling_refs 9 tree ≡ ok b) × ((b ≡ true) ↔ Whole tree root)
no_dangling_refs_iff_example = no_dangling_refs_iff tree 9 tree-Descends few_nodes

refresh_final_indexes-Ends_example :
    (t' : CoverTree ℕ) × (refresh_final_indexes 9 tree ≡ ok t')
    × (((a : NodeAddress) × Ends tree root 0 a × (get ℕ_discrete 0 t'.final_addresses ≡ some a))
        ⊎ (((a : NodeAddress) → Ends tree root 0 a → ⊥)
            × (get ℕ_discrete 0 t'.final_addresses ≡ get ℕ_discrete 0 tree.final_addresses)))
refresh_final_indexes-Ends_example =
    refresh_final_indexes-Ends tree 0 9 tree-Descends tree-Whole few_nodes

knn-IsKnn_example :
    (l : List (ℕ × ℕ)) × (knn (line 1) 10 tree 5 2 ≡ ok l)
    × IsKnn naturals-IsOrder (line 1) tree 5 2 l
knn-IsKnn_example =
    knn-IsKnn naturals-IsOrder (line 1) tree 5 2 10 tree-Searchable (omega (arith, few_nodes))

tree-ParentLinked : ParentLinked tree root
tree-ParentLinked = record {
  top = λ n e. ap (λ (l : CoverNode ℕ). l.parent_address) (same_node n root_node (sym e ∙ at_root));
  linked = λ a c n m b e i e'.
      let (n', u, w) = At-cases a b in
      let (m', v, w') = At-cases c (child n b e i) in
      parent a c n' m' w w' (subst (λ l. Memᴰ c (children_of l)) (same_node n n' (sym e ∙ u)) i) m
        (same_node m m' (sym e' ∙ v));
}
  where
    parent :
        (a c : NodeAddress) (n m : CoverNode ℕ)
        → At a n
        → At c m
        → Memᴰ c (children_of n)
        → (m' : CoverNode ℕ) → m' ≡ m
        → m'.parent_address ≡ some a
    parent a c n m (inl (u, r)) (inl (v, s)) i m' q =
        absurd (root_child (subst (λ l. Memᴰ c (children_of l)) r i) v)
      where
        root_child : Memᴰ c (nested ∷ other ∷ []) → c ≡ root → ⊥
        root_child j v = elim (Memᴰ.cases_cons j) [
          | inl y ↦ omega (arith, ap (λ (z : NodeAddress). z.na) (sym y ∙ v))
          | inr y ↦ omega (arith, ap (λ (z : NodeAddress). z.na) (sym (Memᴰ.eq_of_singleton y) ∙ v))
        ]
    parent a c n m (inl (u, r)) (inr (inl (v, s))) i m' q =
        ap (λ (l : CoverNode ℕ). l.parent_address) (q ∙ s) ∙ ap some (sym u)
    parent a c n m (inl (u, r)) (inr (inr (v, s))) i m' q =
        ap (λ (l : CoverNode ℕ). l.parent_address) (q ∙ s) ∙ ap some (sym u)
    parent a c n m (inr (inl (u, r))) w i m' q =
        absurd (Memᴰ.not-nil (subst (λ l. Memᴰ c (children_of l)) r i))
    parent a c n m (inr (inr (u, r))) w i m' q =
        absurd (Memᴰ.not-nil (subst (λ l. Memᴰ c (children_of l)) r i))

near_0 :
    (b : NodeAddress) → Below tree root b → (e : ℕ) × (distance (line 1) 1 (point_index b) ≡ some e)
unfolding distance point_index
near_0 b below = let (n, e, w) = At-cases b below in go n w
  where
    go : (n : CoverNode ℕ) → At b n → (e : ℕ) × (distance (line 1) 1 (point_index b) ≡ some e)
    go n (inl (u, r)) = (1, ap (λ a. distance (line 1) 1 (point_index a)) u)
    go n (inr (inl (u, r))) = (1, ap (λ a. distance (line 1) 1 (point_index a)) u)
    go n (inr (inr (u, r))) = (1, ap (λ a. distance (line 1) 1 (point_index a)) u)

final_0 : get ℕ_discrete 0 tree.final_addresses ≡ some nested
unfolding get ℕ_discrete
final_0 = refl

known_path-Descent_example :
    (rs : List (NodeAddress × ℕ)) × (known_path (line 1) 4 tree 0 ≡ ok rs)
    × Descent tree root (map (λ (r : NodeAddress × ℕ). r.0) rs) nested
    × All (λ (r : NodeAddress × ℕ). distance (line 1) 1 (point_index r.0) ≡ some r.1) rs
known_path-Descent_example =
    known_path-Descent (line 1) tree 0 nested 1 4 tree-Descends tree-Whole tree-ParentLinked final_0
      (child root_node itself at_root (Memᴰ.head refl)) refl near_0 (omega arith)

small_dist : (p d : ℕ) → distance (line 1) 5 p ≡ some d → ltb d 1000 ≡ true
unfolding distance
small_dist zero d e = ground arith
small_dist (suc zero) d e = ground arith
small_dist (suc (suc zero)) d e = ground arith
small_dist (suc (suc (suc zero))) d e = ground arith
small_dist (suc (suc (suc (suc p)))) d e = ground arith

tree-Walkable : Walkable naturals-IsOrder (line 1) tree nearest 5
tree-Walkable = record {
  descends = tree-Descends;
  whole = tree-Whole;
  nested = tree-Searchable.nested;
  readable = λ a b.
      let (d, e) =
        tree-Searchable.readable (point_index a) (Held-up tree (point_index a) b (centre refl)) in
      (d, e, small_dist (point_index a) d e);
  symmetric = tree-Searchable.symmetric;
}

path-Trace_example :
    (d : ℕ) × (l : List (NodeAddress × ℕ)) × (path (line 1) 69 tree nearest 5 ≡ ok l)
    × (distance (line 1) 5 (point_index root) ≡ some d)
    × Trace naturals-IsOrder (line 1) tree nearest 5 root d l
path-Trace_example =
    path-Trace naturals-IsOrder (line 1) tree nearest 5 69 tree-Walkable (omega arith)

new_layers-layer_example :
    (ltb_ℤ (pos 3) tree.min_res_index ≡ true)
      × (new_layers {F = ℕ} tree.min_res_index (pos 3) ≡ panic)
    ⊎ (ltb_ℤ (pos 3) tree.min_res_index ≡ false)
      × (ls : List (CoverLayer ℕ)) × (new_layers tree.min_res_index (pos 3) ≡ ok ls)
      × (layer (record tree { layers = ls }) (pos 1) ≡ (
          if ltb_ℤ (pos 3) (pos 1)
          then panic
          else ok (
              empty_layer
                (if ltb_ℤ (pos 1) tree.min_res_index then tree.min_res_index -ℤ pos 1 else pos 1))))
      × (scale_range (record tree { layers = ls }) ≡ (tree.min_res_index, pos 3 +ℤ pos 1))
new_layers-layer_example = new_layers-layer tree (pos 3) (pos 1)
