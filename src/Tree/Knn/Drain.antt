-- ===== src/Tree/Knn/Drain.antt =====
-- goko/src/covertree/tree.rs: the loop of `knn` ends, and loses track of no point.
use mathlib.Core.Path.{subst}
use mathlib.Core.List.{Memᴰ, Permᴰ}
use mathlib.Core.List.Permᴰ
use goko.Common.{
  ℕ, zero, suc, ◌+◌, ◌<◌, ◌≡◌, ◌∙◌, ◌⊎◌, refl, ap, Option, List, [], ◌∷◌, arith, inl, inr,
}
use goko.Common.Outcome.{ok}
use goko.Address.{NodeAddress}
use goko.Points.Float.{Float, Cloud, IsOrder}
use goko.Query.Heap.{KnnQueryHeap, QueryAddress}
use goko.Query.Pops.{
  keys, key, PopsSingleton, none_left, given, closest_singleton-PopsSingleton,
  closest_unvisited_singleton_covering_address,
}
use goko.Tree.Knn.Singles.{OneOf, singleton_knn-Searching}
use goko.Tree.Reader.{CoverTree}
use goko.Tree.Levels.{nodes_below}
use goko.Tree.Knn.Visits.{key_sum, Permᴰ-key_sum}
use goko.Tree.Knn.Pops.{Nothing, pop_singleton-Searching, Searching-weaken}
use goko.Tree.Knn.Nodes.{Searching-estimates}
use goko.Tree.Knn.{drain}
use goko.Tree.Knn.Invariant.{Permᴰ-Memᴰ, Searchable, Searching}
use goko.Tree.Knn.Loops.{below_heap, aside, greedy_knn_nodes-Settled}

module _ {fl : Float} (o : IsOrder fl) (cloud : Cloud fl) (t : CoverTree fl.F) where
  open fl use {F, lt, max_value}
  open cloud use {Point, dist}

  module _ (x : Point) (k : ℕ) (w : Searchable o cloud t x) where
    -- The end of the search: no point is lost, and nothing is left on the heaps.
    pub record Drained (h : KnnQueryHeap fl) : Type 0 where
      pub searching : Searching o cloud t x k Nothing h
      pub no_children : h.child_heap ≡ []
      pub no_singles : h.singleton_heap ≡ []

    abbrev Drains : ℕ → ℕ → KnnQueryHeap fl → Type 0
    Drains fuel inner h =
        (h' : KnnQueryHeap fl) × (drain cloud fuel inner t x h ≡ ok h') × Drained h'

    none_left-Drained :
        (est : List (NodeAddress × F)) (h : KnnQueryHeap fl)
        → h.singleton_heap ≡ []
        → (h.child_heap ≡ []) ⊎ (0 < aside o cloud t h)
        → Searching o cloud t x k Nothing h
        → Drained (record h { singleton_heap = []; est_min_dist = est })
    unfolding key_sum
    none_left-Drained est h z next i = record {
      searching =
          subst
            (λ c.
              Searching o cloud t x k Nothing (record h { singleton_heap = c; est_min_dist = est }))
            z (Searching-estimates o cloud t x k h est Nothing i);
      no_children = elim next [
        | inl e ↦ e
        | inr more ↦ absurd (omega (arith, ap (λ l. key_sum (λ a. 1) (keys fl l)) z))
      ];
      no_singles = refl;
    }

    given_counts :
        (q : QueryAddress fl) (rest : List (QueryAddress fl)) (h : KnnQueryHeap fl)
        → Permᴰ (keys fl h.singleton_heap) (key fl q ∷ keys fl rest)
        → aside o cloud t h ≡ suc (key_sum (λ a. 1) (keys fl rest))
    unfolding key_sum
    given_counts q rest h d = Permᴰ-key_sum (λ a. 1) d ∙ omega arith

    -- The loop of `knn` ends on fuel above the nodes that are left.
    pub drain-Drained :
        (fuel inner : ℕ) (h : KnnQueryHeap fl)
        → Searching o cloud t x k Nothing h
        → (h.child_heap ≡ []) ⊎ (0 < aside o cloud t h)
        → below_heap o cloud t h + aside o cloud t h < fuel
        → below_heap o cloud t h + aside o cloud t h < inner
        → Drains fuel inner h
    unfolding drain
    drain-Drained zero inner h i next f g = absurd (omega arith)
    drain-Drained (suc fuel) inner h i next f g =
        let (r, h1, run, p) = closest_singleton-PopsSingleton fl h in
        go r h1 run p (drain-Drained fuel inner)
      where
        go :
            (r : Option (NodeAddress × F)) (h1 : KnnQueryHeap fl)
            → closest_unvisited_singleton_covering_address fl h ≡ ok (r, h1)
            → PopsSingleton fl h r h1
            → ((h : KnnQueryHeap fl)
                → Searching o cloud t x k Nothing h
                → (h.child_heap ≡ []) ⊎ (0 < aside o cloud t h)
                → below_heap o cloud t h + aside o cloud t h < fuel
                → below_heap o cloud t h + aside o cloud t h < inner
                → Drains fuel inner h)
            → Drains (suc fuel) inner h
        go r h1 run (none_left est z) ih = (h1, rw run refl, none_left-Drained est h z next i)
        go r h1 run (given q rest est d) ih =
            let b =
              i.visited q.address q.dist_to_center (Permᴰ-Memᴰ (Permᴰ.symm d) (Memᴰ.head refl)) in
            let (n, e) = w.whole q.address b in
            let (h2, found, s, kept) =
              singleton_knn-Searching o cloud t x k w q.address n h1 b e
                (pop_singleton-Searching o cloud t x k q rest est h n e d i) in
            let s' =
              Searching-weaken o cloud t x k (OneOf o cloud t x k []) Nothing h2 (λ y u. elim u [ ])
                s in
            let singles = ap (λ l. key_sum (λ a. 1) (keys fl l)) kept.singles in
            let children = ap (λ l. key_sum (nodes_below t) (keys fl l)) kept.children in
            let count = given_counts q rest h d in
            let (did, h3, run', settled) =
              greedy_knn_nodes-Settled o cloud t x k w inner h2 s' (omega arith) in
            let (h4, run'', done) =
              ih h3 settled.searching settled.next (omega (arith, settled.work))
                (omega (arith, settled.work)) in
            (h4, rw (run, e, found, run') run'', done)
