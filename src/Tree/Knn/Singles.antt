-- ===== src/Tree/Knn/Singles.antt =====
-- goko/src/covertree/tree.rs: the search of the singletons of a node, loses track of no point.
use mathlib.Core.Path.{subst}
use mathlib.Core.List.{Memᴰ}
use mathlib.Core.List.Memᴰ
use goko.Common.{
  ℕ, ◌≡◌, ◌∙◌, refl, sym, ap, true, false, some, List, [], ◌∷◌, arith, Bool-cases, inl, inr,
}
use goko.Common.Outcome.{ok}
use goko.Address.{NodeAddress, point_index}
use goko.Points.Float.{Float, Cloud, IsOrder}
use goko.Points.Distances.{distance, distances, distances_cons}
use goko.Cover.Node.{CoverNode}
use goko.Query.Heap.{KnnQueryHeap, contains, push_outlier, push_outliers, push_dist, trim}
use goko.Query.Pushes.{see, Holds, push_outlier-Holds}
use goko.Query.Bound.{push_dist-Out}
use goko.Tree.Reader.{CoverTree, get_node}
use goko.Tree.Levels.{Below}
use goko.Tree.Knn.{singleton_knn}
use goko.Tree.Knn.Invariant.{
  Held, single, Held-up, Searchable, Status, known, out, under, beside, Searching,
}

module _ {fl : Float} (o : IsOrder fl) (cloud : Cloud fl) (t : CoverTree fl.F) where
  open fl use {F, lt, max_value}
  open cloud use {Point, dist}

  module _ (x : Point) (k : ℕ) where
    -- The points of a list.
    abbrev pub OneOf : List ℕ → ℕ → Type 0
    OneOf is p = Memᴰ p is

    module _ (p : ℕ) (d : F) (h : KnnQueryHeap fl) where
      abbrev with_point : KnnQueryHeap fl
      with_point = record h {
        known_indexes = p ∷ h.known_indexes;
        dist_heap = trim fl h.k (push_dist fl h.k (record { dist = d; index = p }) h.dist_heap);
      }

      known_later :
          (i : ℕ) → contains i h.known_indexes ≡ true → contains i (p ∷ h.known_indexes) ≡ true
      known_later i e = ground arith

      kept_Status : h.k ≡ k → (q : ℕ) → Status o cloud t x k h q → Status o cloud t x k with_point q
      kept_Status z q (known e) = known (known_later q e)
      kept_Status z q (out e u f) =
          out e u (rw z (push_dist-Out o k e (record { dist = d; index = p }) h.dist_heap f))
      kept_Status z q (under a d' i g) = under a d' i g
      kept_Status z q (beside a d' n i e j) = beside a d' n i e j

    push_outlier-Searching :
        (p : ℕ) (d : F) (h : KnnQueryHeap fl) (is : List ℕ)
        → Held t p t.root_address
        → distance cloud x p ≡ some d
        → Searching o cloud t x k (OneOf (p ∷ is)) h
        → Searching o cloud t x k (OneOf is) (push_outlier fl p d h)
    unfolding push_outlier
    push_outlier-Searching p d h is g e i = elim (Bool-cases (contains p h.known_indexes)) [
      | inl old ↦ rw old (record {
        seen = i.seen;
        holds = i.holds;
        linked = i.linked;
        truths = i.truths;
        waiting = i.waiting;
        visited = i.visited;
        track = λ q u. elim (i.track q u) [
          | inl st ↦ inl st
          | inr m ↦ elim (Memᴰ.cases_cons m) [
            | inl r ↦ inl (known (ap (λ y. contains y h.known_indexes) r ∙ old))
            | inr m' ↦ inr m'
          ]
        ];
      })
      | inr fresh ↦
          let fresh' : contains p i.seen.known ≡ false =
            ap (contains p) (sym i.holds.known) ∙ fresh in
          let more : Holds o k (push_outlier fl p d h) (see fl p d i.seen) =
            push_outlier-Holds o k p d h i.seen i.holds in
          rw fresh (record {
            seen = record {
              known = p ∷ i.seen.known;
              points = record { dist = d; index = p } ∷ i.seen.points;
            };
            holds = rw (fresh, fresh') at more;
            linked = ap (◌∷◌ p) i.linked;
            truths = ((g, e), i.truths);
            waiting = λ a d' j.
                let y = i.waiting a d' j in
                record {
                  below = y.below;
                  true_dist = y.true_dist;
                  known = known_later p d h (point_index a) y.known;
                };
            visited = i.visited;
            track = λ q u. elim (i.track q u) [
              | inl st ↦ inl (kept_Status p d h i.holds.size q st)
              | inr m ↦ elim (Memᴰ.cases_cons m) [
                | inl r ↦ inl (known (ground (arith, r)))
                | inr m' ↦ inr m'
              ]
            ];
          })
    ]

    -- The singleton and the child heap stay as they are.
    pub record Kept (h h' : KnnQueryHeap fl) : Type 0 where
      pub singles : h'.singleton_heap ≡ h.singleton_heap
      pub children : h'.child_heap ≡ h.child_heap

    push_outlier-Kept : (p : ℕ) (d : F) (h : KnnQueryHeap fl) → Kept h (push_outlier fl p d h)
    unfolding push_outlier
    push_outlier-Kept p d h = elim (Bool-cases (contains p h.known_indexes)) [
      | inl old ↦ rw old (record { singles = refl; children = refl })
      | inr fresh ↦ rw fresh (record { singles = refl; children = refl })
    ]

    push_outliers-Searching :
        (is : List ℕ) (ds : List F) (h : KnnQueryHeap fl)
        → ((p : ℕ) → Memᴰ p is → Held t p t.root_address)
        → distances cloud x is ≡ some ds
        → Searching o cloud t x k (OneOf is) h
        → Searching o cloud t x k (OneOf []) (push_outliers fl is ds h)
          × Kept h (push_outliers fl is ds h)
    unfolding push_outliers
    push_outliers-Searching [] ds h g e i = (i, record { singles = refl; children = refl })
    push_outliers-Searching (p ∷ is) ds h g e i =
        let (d, es, u, v, q) = distances_cons cloud x p is ds e in
        let h' = push_outlier fl p d h in
        let one = push_outlier-Kept p d h in
        let (s, more) =
          push_outliers-Searching is es h' (λ y m. g y (Memᴰ.tail m)) v
            (push_outlier-Searching p d h is (g p (Memᴰ.head refl)) u i) in
        subst
          (λ l.
            Searching o cloud t x k (OneOf []) (push_outliers fl (p ∷ is) l h)
            × Kept h (push_outliers fl (p ∷ is) l h))
          (sym q)
          (
            s,
            record {
              singles = more.singles ∙ one.singles;
              children = more.children ∙ one.children;
            },
          )

    readable_points :
        (is : List ℕ)
        → ((p : ℕ) → Memᴰ p is → (d : F) × (distance cloud x p ≡ some d))
        → (ds : List F) × (distances cloud x is ≡ some ds)
    unfolding distances
    readable_points [] f = ([], refl)
    readable_points (i ∷ is) f =
        let (d, e) = f i (Memᴰ.head refl) in
        let (ds, e') = readable_points is (λ p m. f p (Memᴰ.tail m)) in (d ∷ ds, rw (e, e') refl)

    -- `singleton_knn` on a node whose singletons are about to be pushed.
    pub singleton_knn-Searching :
        Searchable o cloud t x
        → (a : NodeAddress) (n : CoverNode F) (h : KnnQueryHeap fl) → Below t t.root_address a
        → get_node t a ≡ ok (some n)
        → Searching o cloud t x k (OneOf n.singles_indexes) h
        → (h' : KnnQueryHeap fl) × (singleton_knn cloud x n h ≡ ok h')
          × Searching o cloud t x k (OneOf []) h'
          × Kept h h'
    unfolding singleton_knn
    singleton_knn-Searching w a n h b e i =
        let held = λ (p : ℕ) (m : Memᴰ p n.singles_indexes). Held-up t p b (single n e m) in
        let (ds, e') = readable_points n.singles_indexes (λ p m. w.readable p (held p m)) in
        let (s, kept) = push_outliers-Searching n.singles_indexes ds h held e' i in
        (push_outliers fl n.singles_indexes ds h, rw e' refl, s, kept)
