-- ===== src/Tree/Knn/Exact.antt =====
-- goko/src/covertree/tree.rs: `knn` finds the k nearest points of the
-- tree.
use mathlib.Core.Path.{subst}
use mathlib.Core.List.{Memᴰ}
use mathlib.Core.List.Memᴰ
use mathlib.Core.List.Permᴰ
use goko.Common.{
  ◌==◌, All, ℕ, ◌+◌, ◌<◌, ◌≤◌, ◌≡◌, ◌∙◌, ◌⊎◌, refl, sym, ap, Bool, true, false, none, some, List,
  [], ◌∷◌, length, arith, Bool-cases, inl, inr, map,
}
use goko.Common.Outcome.{ok}
use goko.Address.{point_index}
use goko.Points.Float.{Float, Cloud, IsOrder}
use goko.Points.Distances.{distance-some, distance}
use goko.Query.Heap.{
  QuerySingleton, KnnQueryHeap, new, unpack, unpack_onto, contains, push_node_list, push_nodes,
  max_dist,
}
use goko.Query.Pops.{keys}
use goko.Query.Pushes.{new-Holds, Rising, unpack_onto-Rising, length-unpack_onto, nothing, unseen}
use goko.Query.Bound.{Out, push_node-Visit, max_dist-Bounds}
use goko.Tree.Reader.{CoverTree}
use goko.Tree.Levels.{itself, nodes_below}
use goko.Tree.Knn.Visits.{key_sum, push_node-Searching, Visit-load}
use goko.Tree.Knn.Loops.{greedy_knn_nodes-Settled, below_heap, aside}
use goko.Tree.Knn.Drain.{drain-Drained}
use goko.Tree.Knn.Pops.{Nothing, Searching-weaken}
use goko.Tree.Knn.{greedy_knn_nodes, root_search, drain, knn}
use goko.Tree.Knn.Invariant.{
  Permᴰ-Memᴰ, Held, centre, Searchable, Status, known, out, under, beside, True, Searching,
  BelowAny,
}

pub All-mem {ℓ κ} : {A : Type ℓ} (P : A → Type κ) {a : A} {l : List A} → All P l → Memᴰ a l → P a
All-mem P h (Memᴰ.head e) = subst P (sym e) h.0
All-mem P h (Memᴰ.tail m) = All-mem P h.1 m

module _ {fl : Float} where
  open fl use {F}

  abbrev result : QuerySingleton fl → ℕ × F
  result z = (z.index, z.dist)

  Memᴰ-unpack_later :
      (r : ℕ × F) (l : List (QuerySingleton fl)) (rs : List (ℕ × F))
      → Memᴰ r rs
      → Memᴰ r (unpack_onto fl l rs)
  unfolding unpack_onto
  Memᴰ-unpack_later r [] rs m = m
  Memᴰ-unpack_later r (y ∷ l) rs m = Memᴰ-unpack_later r l (result y ∷ rs) (Memᴰ.tail m)

  Memᴰ-unpack :
      (z : QuerySingleton fl) (l : List (QuerySingleton fl)) (rs : List (ℕ × F))
      → Memᴰ z l
      → Memᴰ (result z) (unpack_onto fl l rs)
  unfolding unpack_onto
  Memᴰ-unpack z [] rs m = elim m [ ]
  Memᴰ-unpack z (y ∷ l) rs (Memᴰ.head e) =
      Memᴰ-unpack_later (result z) l (result y ∷ rs) (Memᴰ.head (ap result e))
  Memᴰ-unpack z (y ∷ l) rs (Memᴰ.tail m) = Memᴰ-unpack z l (result y ∷ rs) m

  All-unpack {κ} :
      (P : ℕ × F → Type κ) (l : List (QuerySingleton fl)) (rs : List (ℕ × F))
      → ((z : QuerySingleton fl) → Memᴰ z l → P (result z))
      → All P rs
      → All P (unpack_onto fl l rs)
  unfolding unpack_onto
  All-unpack P [] rs f h = h
  All-unpack P (y ∷ l) rs f h =
      All-unpack P l (result y ∷ rs) (λ z m. f z (Memᴰ.tail m)) (f y (Memᴰ.head refl), h)

  index_known :
      (p : ℕ) (l : List (QuerySingleton fl))
      → contains p (map (λ (z : QuerySingleton fl). z.index) l) ≡ true
      → (z : QuerySingleton fl) × Memᴰ z l × (z.index ≡ p)
  index_known p [] e = absurd (cc)
  index_known p (y ∷ l) e = elim (Bool-cases (p == y.index)) [
    | inl same ↦ (y, Memᴰ.head refl, ground arith)
    | inr other ↦ let (z, m, q) = index_known p l (ground arith) in (z, Memᴰ.tail m, q)
  ]

module _ {fl : Float} (o : IsOrder fl) (cloud : Cloud fl) (t : CoverTree fl.F) where
  open fl use {F, lt, max_value}
  open cloud use {Point, dist, point}

  -- The `k` nearest points of the tree to `x`, from near to far, each with its distance: every point
  -- of the tree is among them, or there are `k` of them and it is nearer than none.
  pub record IsKnn (x : Point) (k : ℕ) (l : List (ℕ × F)) : Type 0 where
    pub rising : Rising fl l
    pub bound : length l ≤ k
    pub points :
        All (λ (r : ℕ × F). Held t r.0 t.root_address × (distance cloud x r.0 ≡ some r.1)) l
    pub nearest :
        (p : ℕ) (d : F)
        → Held t p t.root_address
        → distance cloud x p ≡ some d
        → Memᴰ (p, d) l ⊎ ((length l ≡ k) × All (λ (r : ℕ × F). lt d r.1 ≡ false) l)

  module _ (x : Point) (k : ℕ) (w : Searchable o cloud t x) where
    module _ (h : KnnQueryHeap fl) (i : Searching o cloud t x k Nothing h) where
      abbrev found : List (ℕ × F)
      found = unpack fl h

      length-found : length found ≡ length h.dist_heap
      unfolding unpack
      length-found = length-unpack_onto o h.dist_heap [] ∙ omega arith

      heap_truth : (z : QuerySingleton fl) → Memᴰ z h.dist_heap → True o cloud t x k z
      heap_truth z m =
          All-mem (True o cloud t x k) i.truths
            (Permᴰ-Memᴰ i.holds.nearest.perm (Memᴰ.append_left i.holds.nearest.dropped m))

      Out-found :
          (d : F)
          → Out o k d h.dist_heap
          → (length found ≡ k) × All (λ (r : ℕ × F). lt d r.1 ≡ false) found
      unfolding unpack
      Out-found d f = (
        length-found ∙ f.0,
        All-unpack (λ (r : ℕ × F). lt d r.1 ≡ false) h.dist_heap []
            (λ z m. All-mem (λ (z : QuerySingleton fl). lt d z.dist ≡ false) f.1 m) tt,
      )

      -- A point that was seen is found, or it was dropped from a full heap.
      seen_point :
          (z : QuerySingleton fl)
          → Memᴰ z i.seen.points
          → Memᴰ (result z) found ⊎ Out o k z.dist h.dist_heap
      unfolding unpack
      seen_point z m =
          let n = i.holds.nearest in
          elim (Memᴰ.append_cases h.dist_heap (Permᴰ-Memᴰ (Permᴰ.symm n.perm) m)) [
            | inl inside ↦ inl (Memᴰ-unpack z h.dist_heap [] inside)
            | inr outside ↦ inr (
              elim n.full [ inl e ↦ absurd (Memᴰ.not-nil (subst (Memᴰ z) e outside)) | inr e ↦ e ],
              All-mem (λ y. All (λ (u : QuerySingleton fl). lt y.dist u.dist ≡ false) h.dist_heap)
                  n.farther outside,
            )
          ]

      placed :
          h.child_heap ≡ []
          → h.singleton_heap ≡ []
          → (p : ℕ) (d : F) → distance cloud x p ≡ some d
          → Status o cloud t x k h p
          → Memᴰ (p, d) found ⊎ Out o k d h.dist_heap
      placed c s p d e (out d' e' f) =
          inr (subst (λ u. Out o k u h.dist_heap) (same_dist d' d (sym e' ∙ e)) f)
        where
          same_dist : (a b : F) → some a ≡ some b → a ≡ b
          same_dist a b q = cc
      placed c s p d e (under a d' m g) =
          absurd (Memᴰ.not-nil (subst (λ l. Memᴰ (a, d') (keys fl l)) c m))
      placed c s p d e (beside a d' n m u j) =
          absurd (Memᴰ.not-nil (subst (λ l. Memᴰ (a, d') (keys fl l)) s m))
      placed c s p d e (known u) =
          let (z, m, q) =
            index_known p i.seen.points (ap (contains p) (sym (i.holds.known ∙ i.linked)) ∙ u) in
          let truth = (All-mem (True o cloud t x k) i.truths m).1 in
          let q' = same_point z.index p z.dist d q truth e in
          elim (seen_point z m) [
            | inl inside ↦ inl (subst (λ (r : ℕ × F). Memᴰ r found) q' inside)
            | inr f ↦ inr (subst (λ (r : ℕ × F). Out o k r.1 h.dist_heap) q' f)
          ]
        where
          same_point :
              (i p : ℕ) (a b : F)
              → i ≡ p
              → distance cloud x i ≡ some a
              → distance cloud x p ≡ some b
              → ◌≡◌ {A = ℕ × F} (i, a) (p, b)
          same_point i p a b q u v = let w = sym u ∙ ap (distance cloud x) q ∙ v in ground arith

      pub found-IsKnn : h.child_heap ≡ [] → h.singleton_heap ≡ [] → IsKnn x k found
      unfolding unpack
      found-IsKnn c s = record {
        rising =
            unpack_onto-Rising o h.dist_heap [] i.holds.nearest.falling (nothing o h.dist_heap) tt;
        bound = omega (arith, length-found, i.holds.nearest.bound);
        points =
            All-unpack
              (λ (r : ℕ × F). Held t r.0 t.root_address × (distance cloud x r.0 ≡ some r.1))
              h.dist_heap [] heap_truth tt;
        nearest = λ p d g e. elim (i.track p g) [
          | inr never ↦ absurd never
          | inl st ↦ elim (placed c s p d e st) [ inl m ↦ inl m | inr f ↦ inr (Out-found d f) ]
        ];
      }

    new-Searching :
        Searching o cloud t x k (BelowAny o cloud t x k (t.root_address ∷ [])) (new fl k)
    unfolding new
    new-Searching = record {
      seen = unseen fl;
      holds = new-Holds o k;
      linked = refl;
      truths = tt;
      waiting = λ a d m. elim m [ ];
      visited = λ a d m. elim m [ ];
      track = λ p g. inr (t.root_address, Memᴰ.head refl, g);
    }

    start : F → KnnQueryHeap fl
    start d = push_nodes fl (t.root_address ∷ []) (d ∷ []) none (new fl k)

    start-Searching :
        (d : F)
        → distance cloud x (point_index t.root_address) ≡ some d
        → Searching o cloud t x k Nothing (start d)
          × (below_heap o cloud t (start d) + aside o cloud t (start d)
              ≤ nodes_below t t.root_address)
    unfolding start push_nodes push_node_list key_sum new
    start-Searching d e =
        let m = max_dist fl (new fl k) in
        let i = new-Searching in
        let b = max_dist-Bounds o k (new fl k) i.seen i.holds in
        let v = push_node-Visit o k t.root_address d m (new fl k) i.seen i.holds in
        let counts =
          Visit-load o cloud t x k (nodes_below t) t.root_address d m (new fl k) (start d) v in
        let singles = ap (λ l. key_sum (λ a. 1) (keys fl l)) v.singles in
        (
          Searching-weaken o cloud t x k (BelowAny o cloud t x k []) Nothing (start d)
              (λ p u. elim (u.1) [ ])
              (push_node-Searching o cloud t x k w t.root_address d m (new fl k) itself e [] i b),
          omega arith,
        )

    knn_run :
        (fuel : ℕ) (y : Point) (did : Bool) (h1 h2 : KnnQueryHeap fl)
        → point (point_index t.root_address) ≡ some y
        → greedy_knn_nodes cloud fuel t x (start (dist y x)) ≡ ok (did, h1)
        → drain cloud fuel fuel t x h1 ≡ ok h2
        → knn cloud fuel t x k ≡ ok (unpack fl h2)
    unfolding knn root_search start
    knn_run fuel y did h1 h2 there run run' = rw (there, run, run') refl

-- In a finished tree whose points can be read, with a symmetric metric, an order of distances as on
-- floats without NaN, and least distances that are finite and below no distance of a point under the
-- node, `knn` on fuel above the number of nodes ends without an error, and gives at most `k` points
-- of the tree with their distances, from near to far. Every point of the tree is among them, or they
-- are `k` and it is nearer than none of them.
pub knn-IsKnn :
    {fl : Float} (o : IsOrder fl) (cloud : Cloud fl) (t : CoverTree fl.F) (x : cloud.Point)
    (k fuel : ℕ)
    → Searchable o cloud t x
    → nodes_below t t.root_address < fuel
    → (l : List (ℕ × fl.F)) × (knn cloud fuel t x k ≡ ok l) × IsKnn o cloud t x k l
knn-IsKnn o cloud t x k fuel w f =
    let (d, e) = w.readable (point_index t.root_address) (centre refl) in
    let (y, there, q) = distance-some cloud x (point_index t.root_address) d e in
    let e' : distance cloud x (point_index t.root_address) ≡ some (cloud.dist y x) =
      e ∙ ap some (sym q ∙ sym (w.symmetric y)) in
    let (i, work) = start-Searching o cloud t x k w (cloud.dist y x) e' in
    let (did, h1, run, s) =
      greedy_knn_nodes-Settled o cloud t x k w fuel (start o cloud t x k w (cloud.dist y x)) i
        (omega arith) in
    let (h2, run', done) =
      drain-Drained o cloud t x k w fuel fuel h1 s.searching s.next (omega (arith, s.work))
        (omega (arith, s.work)) in
    (
      unpack _ h2,
      knn_run o cloud t x k w fuel y did h1 h2 there run run',
      found-IsKnn o cloud t x k w h2 done.searching done.no_children done.no_singles,
    )
