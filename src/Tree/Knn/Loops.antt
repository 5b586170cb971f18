-- ===== src/Tree/Knn/Loops.antt =====
-- goko/src/covertree/tree.rs: the loops of the search end, and lose
-- track of no point.
use mathlib.Core.Path.{subst}
use mathlib.Core.List.{Memᴰ, Permᴰ}
use mathlib.Core.List.Permᴰ
use goko.Common.{
  ℕ, zero, suc, ◌+◌, ◌<◌, ◌≤◌, ◌≡◌, ◌∙◌, ◌⊎◌, refl, ap, Bool, true, false, Option, none, some, List,
  [], ◌∷◌, arith, Option-cases, inl, inr,
}
use goko.Common.Outcome.{ok}
use goko.Address.{NodeAddress, point_index}
use goko.Points.Float.{Float, Cloud, IsOrder}
use goko.Points.Distances.{distance}
use goko.Cover.Node.{CoverNode}
use goko.Query.Heap.{KnnQueryHeap, QueryAddress, push_address}
use goko.Query.Pops.{
  keys, key, keys-push, PopsChild, spent, moved, closest_child-PopsChild,
  closest_unvisited_child_covering_address,
}
use goko.Tree.Reader.{CoverTree, get_node, children_of}
use goko.Tree.Levels.{Below, nodes_below, nodes_below-pos, nodes_below-children}
use goko.Tree.Knn.Visits.{key_sum, Permᴰ-key_sum}
use goko.Tree.Knn.Pops.{Nothing, pop_child-Searching, Searching-weaken}
use goko.Tree.Knn.Nodes.{Searching-estimates, child_knn-Pushed}
use goko.Tree.Knn.{greedy_knn_nodes, greedy_turn, child_knn, routing}
use goko.Tree.Knn.Invariant.{Permᴰ-Memᴰ, Searchable, Searching, BelowAny}

module _ {fl : Float} (o : IsOrder fl) (cloud : Cloud fl) (t : CoverTree fl.F) where
  open fl use {F, lt, max_value}
  open cloud use {Point, dist}

  -- The nodes below those on the child heap, and the number of nodes on the singleton heap.
  abbrev pub below_heap : KnnQueryHeap fl → ℕ
  below_heap h = key_sum (nodes_below t) (keys fl h.child_heap)

  abbrev pub aside : KnnQueryHeap fl → ℕ
  aside h = key_sum (λ a. 1) (keys fl h.singleton_heap)

  module _ (x : Point) (k : ℕ) (w : Searchable o cloud t x) where
    -- What a loop leaves: no point is lost, nothing is to be done twice, and a node is aside unless
    -- the child heap is empty.
    pub record Settled (h h' : KnnQueryHeap fl) : Type 0 where
      pub searching : Searching o cloud t x k Nothing h'
      pub work : below_heap h' + aside h' ≤ below_heap h + aside h
      pub next : (h'.child_heap ≡ []) ⊎ (0 < aside h')

    abbrev Run : ℕ → KnnQueryHeap fl → Type 0
    Run fuel h =
        (did : Bool) × (h' : KnnQueryHeap fl) × (greedy_knn_nodes cloud fuel t x h ≡ ok (did, h'))
        × Settled h h'

    children_of-none : (n : CoverNode F) → n.children ≡ none → children_of n ≡ []
    children_of-none n e =
        ap
          (λ (q : Option (List NodeAddress)). elim q as (λ _. List NodeAddress) [
            | none ↦ []
            | some l ↦ l
          ])
          e

    module _ (q : QueryAddress fl) (rest : List (QueryAddress fl)) (est : List (NodeAddress × F))
        (h : KnnQueryHeap fl) (d : Permᴰ (keys fl h.child_heap) (key fl q ∷ keys fl rest))
        (i : Searching o cloud t x k Nothing h) where
      abbrev popped : KnnQueryHeap fl
      popped = record h {
        child_heap = rest;
        est_min_dist = est;
        singleton_heap = push_address fl q h.singleton_heap;
      }

      top_below : Below t t.root_address q.address
      top_below =
          (i.waiting q.address q.dist_to_center (Permᴰ-Memᴰ (Permᴰ.symm d) (Memᴰ.head refl))).below

      top_dist : distance cloud x (point_index q.address) ≡ some q.dist_to_center
      top_dist =
          (i.waiting q.address q.dist_to_center
            (Permᴰ-Memᴰ (Permᴰ.symm d) (Memᴰ.head refl))).true_dist

      popped_counts :
          (below_heap h ≡ nodes_below t q.address + below_heap popped)
          × (aside popped ≡ suc (aside h))
      unfolding key_sum
      popped_counts = (
        Permᴰ-key_sum (nodes_below t) d,
        Permᴰ-key_sum (λ a. 1) (keys-push fl q h.singleton_heap) ∙ omega arith,
      )

      leaf_run :
          (n : CoverNode F)
          → get_node t q.address ≡ ok (some n)
          → n.children ≡ none
          → Settled h popped
      leaf_run n e leaf = record {
        searching =
            Searching-weaken o cloud t x k (BelowAny o cloud t x k (children_of n)) Nothing popped
              (λ p u. empty p (subst (λ l. BelowAny o cloud t x k l p) (children_of-none n leaf) u))
              (pop_child-Searching o cloud t x k q rest est h n e d i);
        work =
            omega (arith, popped_counts.0, popped_counts.1, nodes_below-pos t w.descends q.address);
        next = inr (omega (arith, popped_counts.1));
      }
        where
          empty : (p : ℕ) → BelowAny o cloud t x k [] p → ⊥
          empty p (a, m, g) = elim m [ ]

    spent-Settled :
        (est : List (NodeAddress × F)) (h : KnnQueryHeap fl)
        → h.child_heap ≡ []
        → Searching o cloud t x k Nothing h
        → Settled h (record h { child_heap = []; est_min_dist = est })
    unfolding key_sum
    spent-Settled est h z i = record {
      searching =
          subst
            (λ c. Searching o cloud t x k Nothing (record h { child_heap = c; est_min_dist = est }))
            z (Searching-estimates o cloud t x k h est Nothing i);
      work = omega arith;
      next = inl refl;
    }

    Settled-trans :
        (h h1 h2 : KnnQueryHeap fl)
        → below_heap h1 + aside h1 ≤ below_heap h + aside h
        → Settled h1 h2
        → Settled h h2
    Settled-trans h h1 h2 l s = record {
      searching = s.searching;
      work = omega (arith, s.work);
      next = s.next;
    }

    routing_node :
        (n : CoverNode F) (cs : List NodeAddress)
        → n.children ≡ some cs
        → routing cloud (some n) ≡ some n
    unfolding routing
    routing_node n cs e =
        ap
          (λ (q : Option (List NodeAddress)). elim q as (λ _. Option (CoverNode F)) [
            | none ↦ none
            | some l ↦ some n
          ])
          e

    leaf_node : (n : CoverNode F) → n.children ≡ none → routing cloud (some n) ≡ none
    unfolding routing
    leaf_node n e =
        ap
          (λ (q : Option (List NodeAddress)). elim q as (λ _. Option (CoverNode F)) [
            | none ↦ none
            | some l ↦ some n
          ])
          e

    -- One turn of the loop, at a leaf and at a node with children.
    leaf_turn :
        (fuel : ℕ) (a : NodeAddress) (d : F) (n : CoverNode F) (h h1 : KnnQueryHeap fl)
        → closest_unvisited_child_covering_address fl h ≡ ok (some (a, d), h1)
        → get_node t a ≡ ok (some n)
        → routing cloud (some n) ≡ none
        → greedy_knn_nodes cloud (suc fuel) t x h ≡ ok (false, h1)
    unfolding greedy_knn_nodes greedy_turn
    leaf_turn fuel a d n h h1 run e leaf = rw (run, e) turn
      where
        turn : greedy_turn cloud (greedy_knn_nodes cloud fuel t x) x d h1 (some n) ≡ ok (false, h1)
        turn = rw (leaf, greedy_turn) refl

    node_turn :
        (fuel : ℕ) (a : NodeAddress) (d : F) (n : CoverNode F) (h h1 h2 h3 : KnnQueryHeap fl)
        (did : Bool)
        → closest_unvisited_child_covering_address fl h ≡ ok (some (a, d), h1)
        → get_node t a ≡ ok (some n)
        → routing cloud (some n) ≡ some n
        → child_knn cloud (some d) x n h1 ≡ ok h2
        → greedy_knn_nodes cloud fuel t x h2 ≡ ok (did, h3)
        → greedy_knn_nodes cloud (suc fuel) t x h ≡ ok (true, h3)
    unfolding greedy_knn_nodes greedy_turn
    node_turn fuel a d n h h1 h2 h3 did run e kids found rest = rw (run, e) turn
      where
        turn : greedy_turn cloud (greedy_knn_nodes cloud fuel t x) x d h1 (some n) ≡ ok (true, h3)
        turn = rw (kids, greedy_turn, found, rest) refl

    -- `greedy_knn_nodes` ends on fuel above the number of nodes below the child heap.
    pub greedy_knn_nodes-Settled :
        (fuel : ℕ) (h : KnnQueryHeap fl)
        → Searching o cloud t x k Nothing h
        → below_heap h < fuel
        → Run fuel h
    unfolding greedy_knn_nodes
    greedy_knn_nodes-Settled zero h i f = absurd (omega arith)
    greedy_knn_nodes-Settled (suc fuel) h i f =
        let (r, h1, run, p) = closest_child-PopsChild fl h in
        go r h1 run p (greedy_knn_nodes-Settled fuel)
      where
        go :
            (r : Option (NodeAddress × F)) (h1 : KnnQueryHeap fl)
            → closest_unvisited_child_covering_address fl h ≡ ok (r, h1)
            → PopsChild fl h r h1
            → ((h : KnnQueryHeap fl)
                → Searching o cloud t x k Nothing h
                → below_heap h < fuel
                → Run fuel h)
            → Run (suc fuel) h
        go r h1 run (spent est z) ih = (false, h1, rw run refl, spent-Settled est h z i)
        go r h1 run (moved q rest est d) ih =
            let (n, e) = w.whole q.address (top_below q rest est h d i) in
            visit n e (Option-cases n.children)
          where
            visit :
                (n : CoverNode F)
                → get_node t q.address ≡ ok (some n)
                → (n.children ≡ none) ⊎ ((cs : List NodeAddress) × (n.children ≡ some cs))
                → Run (suc fuel) h
            visit n e (inl leaf) = (
              false,
              h1,
              leaf_turn fuel q.address q.dist_to_center n h h1 run e (leaf_node n leaf),
              leaf_run q rest est h d i n e leaf,
            )
            visit n e (inr (cs, kids)) =
                let (h2, found, p) =
                  child_knn-Pushed o cloud t x k w (nodes_below t) q.address q.dist_to_center n cs
                    h1 (top_below q rest est h d i) e kids (top_dist q rest est h d i)
                    (pop_child-Searching o cloud t x k q rest est h n e d i) in
                let count = popped_counts q rest est h d i in
                let below =
                  nodes_below-children t w.descends q.address n (top_below q rest est h d i) e in
                let singles = ap (λ l. key_sum (λ a. 1) (keys fl l)) p.singles in
                let (did, h3, run', s) =
                  ih h2
                    (Searching-weaken o cloud t x k (BelowAny o cloud t x k []) Nothing h2
                      (λ y u. elim (u.1) [ ]) p.searching)
                    (omega (arith, p.bounded, count.0)) in
                (
                  true,
                  h3,
                  node_turn fuel q.address q.dist_to_center n h h1 h2 h3 did run e
                      (routing_node n cs kids) found run',
                  Settled-trans h h2 h3 (omega (arith, p.bounded, count.0, count.1)) s,
                )
