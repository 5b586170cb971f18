-- ===== src/Tree/Knn/Visits.antt =====
-- goko/src/covertree/tree.rs: a push of a node loses track of no point.
use mathlib.Core.Path.{subst}
use mathlib.Core.List.{Memᴰ, Permᴰ}
use mathlib.Core.List.Memᴰ
use mathlib.Core.List.Permᴰ
use goko.Common.{
  All, ℕ, ◌+◌, ◌≤◌, ◌≡◌, ◌∙◌, ◌⊎◌, refl, sym, ap, false, some, List, [], ◌∷◌, arith, Bool-cases,
  inl, inr, map,
}
use goko.Address.{NodeAddress, point_index}
use goko.Points.Float.{Float, Cloud, IsOrder}
use goko.Points.Distances.{distance, distances, distances_cons}
use goko.Query.Heap.{QuerySingleton, KnnQueryHeap, contains, push_node, push_node_list}
use goko.Query.Pops.{keys, keys-push}
use goko.Query.Pushes.{Seen, see, push_node-Holds, node_item}
use goko.Query.Bound.{Bounds, Visit, push_node-Visit, push_node-Bounds}
use goko.Tree.Reader.{CoverTree}
use goko.Tree.Levels.{Below, sum_of}
use goko.Tree.Knn.Invariant.{
  Permᴰ-Memᴰ, Held, centre, Held-up, Searchable, Status, known, out, under, beside, Waiting, True,
  Searching, BelowAny,
}

unfoldable pub key_sum : {F : Type 0} → (NodeAddress → ℕ) → List (NodeAddress × F) → ℕ
key_sum f [] = 0
key_sum f (q ∷ l) = f q.0 + key_sum f l

pub Permᴰ-key_sum :
    {F : Type 0} (f : NodeAddress → ℕ) {xs ys : List (NodeAddress × F)}
    → Permᴰ xs ys
    → key_sum f xs ≡ key_sum f ys
unfolding key_sum
Permᴰ-key_sum f Permᴰ.nil = refl
Permᴰ-key_sum {F} f (Permᴰ.cons e d) =
    omega (arith, ap (λ (q : NodeAddress × F). f q.0) e, Permᴰ-key_sum f d)
Permᴰ-key_sum {F} f (Permᴰ.swap e e') =
    omega (arith, ap (λ (q : NodeAddress × F). f q.0) e, ap (λ (q : NodeAddress × F). f q.0) e')
Permᴰ-key_sum {F} f (Permᴰ.trans d d') = Permᴰ-key_sum f d ∙ Permᴰ-key_sum f d'

module _ {fl : Float} (o : IsOrder fl) (cloud : Cloud fl) (t : CoverTree fl.F) where
  open fl use {F, lt, max_value}
  open cloud use {Point, dist}

  not_below : (a b c : F) → lt a b ≡ false → lt b c ≡ false → lt a c ≡ false
  not_below a b c e f = elim (Bool-cases (lt a c)) [
    | inr n ↦ n
    | inl y ↦ elim (o.split a b c y) [ inl g ↦ cc | inr g ↦ cc ]
  ]

  All-not_below :
      (a b : F) (l : List (QuerySingleton fl))
      → lt a b ≡ false
      → All (λ (z : QuerySingleton fl). lt b z.dist ≡ false) l
      → All (λ (z : QuerySingleton fl). lt a z.dist ≡ false) l
  All-not_below a b [] e h = tt
  All-not_below a b (z ∷ l) e h = (not_below a b z.dist e h.0, All-not_below a b l e h.1)

  module _ (x : Point) (k : ℕ) where
    module _ (w : Searchable o cloud t x) (na : NodeAddress) (d m : F) (h : KnnQueryHeap fl)
        (b : Below t t.root_address na) (td : distance cloud x (point_index na) ≡ some d) where
      abbrev after : KnnQueryHeap fl
      after = (push_node fl na d (h, m)).0

      see-truths :
          (s : Seen fl)
          → s.known ≡ map (λ (z : QuerySingleton fl). z.index) s.points
          → All (True o cloud t x k) s.points
          → ((see fl (point_index na) d s).known
              ≡ map (λ (z : QuerySingleton fl). z.index) (see fl (point_index na) d s).points)
            × All (True o cloud t x k) (see fl (point_index na) d s).points
      see-truths s l a = elim (Bool-cases (contains (point_index na) s.known)) [
        | inl old ↦ rw old (l, a)
        | inr fresh ↦
            rw fresh
              (ap (◌∷◌ (point_index na)) l, ((Held-up t (point_index na) b (centre refl), td), a))
      ]

      kept_child :
          Visit o k na d m h after
          → (key' : NodeAddress × F) → Memᴰ key' (keys fl h.child_heap)
          → Memᴰ key' (keys fl after.child_heap)
      kept_child v key' i = elim v.heap [
        | inl (e, far) ↦ subst (λ c. Memᴰ key' (keys fl c)) (sym e) i
        | inr e ↦
            subst (λ c. Memᴰ key' (keys fl c)) (sym e)
              (Permᴰ-Memᴰ (Permᴰ.symm (keys-push fl (node_item o na d) h.child_heap)) (Memᴰ.tail i))
      ]

      came_from :
          Visit o k na d m h after
          → (key' : NodeAddress × F) → Memᴰ key' (keys fl after.child_heap)
          → (key' ≡ (na, d)) ⊎ Memᴰ key' (keys fl h.child_heap)
      came_from v key' i = elim v.heap [
        | inl (e, far) ↦ inr (subst (λ c. Memᴰ key' (keys fl c)) e i)
        | inr e ↦ Memᴰ.cases_cons (
            Permᴰ-Memᴰ (keys-push fl (node_item o na d) h.child_heap)
              (subst (λ c. Memᴰ key' (keys fl c)) e i))
      ]

      kept_Status :
          Visit o k na d m h after
          → (p : ℕ) → Status o cloud t x k h p
          → Status o cloud t x k after p
      kept_Status v p (known e) = known (v.kept p e)
      kept_Status v p (out e q f) = out e q (v.out e f)
      kept_Status v p (under a d' i g) = under a d' (kept_child v (a, d') i) g
      kept_Status v p (beside a d' n i e j) =
          beside a d' n (subst (λ c. Memᴰ (a, d') (keys fl c)) (sym v.singles) i) e j

      new_Status :
          Visit o k na d m h after
          → Bounds o k m h.dist_heap
          → (p : ℕ) → Held t p na
          → Status o cloud t x k after p
      new_Status v bound p g = elim v.heap [
        | inr e ↦
            under na d
              (subst (λ c. Memᴰ (na, d) (keys fl c)) (sym e)
                (Permᴰ-Memᴰ (Permᴰ.symm (keys-push fl (node_item o na d) h.child_heap))
                  (Memᴰ.head refl)))
              g
        | inl (e, far) ↦
            let (dp, q) = w.readable p (Held-up t p b g) in
            let least = (node_item o na d).min_dist in
            out dp q (elim bound [
              | inl z ↦
                  let fin = w.finite na d b td in
                  let not_fin = subst (λ u. lt least u ≡ false) z far in absurd (cc)
              | inr f ↦
                  let f' = v.out m f in
                  (
                    f'.0,
                    All-not_below dp m after.dist_heap
                        (not_below dp least m (w.covering na p d dp b g td q) far) f'.1,
                  )
            ])
      ]

      Waiting-kept :
          Visit o k na d m h after
          → (a : NodeAddress) (d' : F) → Waiting o cloud t x k h a d'
          → Waiting o cloud t x k after a d'
      Waiting-kept v a d' y = record {
        below = y.below;
        true_dist = y.true_dist;
        known = v.kept (point_index a) y.known;
      }

      Waiting-new :
          Visit o k na d m h after
          → (a : NodeAddress) (d' : F) → ◌≡◌ {A = NodeAddress × F} (a, d') (na, d)
          → Waiting o cloud t x k after a d'
      Waiting-new v a d' e =
          subst (λ (q : NodeAddress × F). Waiting o cloud t x k after q.0 q.1) (sym e)
            (record { below = b; true_dist = td; known = v.known })

      pub push_node-Searching :
          (nas : List NodeAddress)
          → Searching o cloud t x k (BelowAny o cloud t x k (na ∷ nas)) h
          → Bounds o k m h.dist_heap
          → Searching o cloud t x k (BelowAny o cloud t x k nas) after
      push_node-Searching nas i bound =
          let v = push_node-Visit o k na d m h i.seen i.holds in
          let (l, a) = see-truths i.seen i.linked i.truths in
          record {
            seen = see fl (point_index na) d i.seen;
            holds = push_node-Holds o k na d m h i.seen i.holds;
            linked = l;
            truths = a;
            waiting = λ a d' j. elim (came_from v (a, d') j) [
              | inl e ↦ Waiting-new v a d' e
              | inr j' ↦ Waiting-kept v a d' (i.waiting a d' j')
            ];
            visited = λ a d' j. i.visited a d' (subst (λ c. Memᴰ (a, d') (keys fl c)) v.singles j);
            track = λ p g. elim (i.track p g) [
              | inl st ↦ inl (kept_Status v p st)
              | inr (a, j, g') ↦ elim (Memᴰ.cases_cons j) [
                | inl e ↦ inl (new_Status v bound p (subst (Held t p) e g'))
                | inr j' ↦ inr (a, j', g')
              ]
            ];
          }

    -- The nodes below those on a child heap, by some count.
    abbrev pub load : (NodeAddress → ℕ) → KnnQueryHeap fl → ℕ
    load f h = key_sum f (keys fl h.child_heap)

    pub Visit-load :
        (f : NodeAddress → ℕ) (na : NodeAddress) (d m : F) (h h' : KnnQueryHeap fl)
        → Visit o k na d m h h'
        → load f h' ≤ f na + load f h
    unfolding key_sum
    Visit-load f na d m h h' v = elim v.heap [
      | inl (e, far) ↦ omega (arith, ap (λ c. key_sum f (keys fl c)) e)
      | inr e ↦ omega (
        arith,
        ap (λ c. key_sum f (keys fl c)) e,
        Permᴰ-key_sum f (keys-push fl (node_item o na d) h.child_heap),
      )
    ]

    -- What a push of nodes leaves: no point is lost, the singleton heap is as it was, and the child
    -- heap has at most the nodes pushed more.
    pub record Pushed (f : NodeAddress → ℕ) (nas : List NodeAddress) (h h' : KnnQueryHeap fl)
        : Type 0 where
      pub searching : Searching o cloud t x k (BelowAny o cloud t x k []) h'
      pub singles : h'.singleton_heap ≡ h.singleton_heap
      pub bounded : load f h' ≤ sum_of f nas + load f h

    pub push_node_list-Pushed :
        Searchable o cloud t x
        → (f : NodeAddress → ℕ) (nas : List NodeAddress) (ds : List F) (h : KnnQueryHeap fl × F)
        → All (Below t t.root_address) nas
        → distances cloud x (map point_index nas) ≡ some ds
        → Searching o cloud t x k (BelowAny o cloud t x k nas) h.0
        → Bounds o k h.1 h.0.dist_heap
        → Pushed f nas h.0 (push_node_list fl nas ds h).0
    unfolding push_node_list sum_of
    push_node_list-Pushed w f [] ds h bs e i bound = record {
      searching = i;
      singles = refl;
      bounded = omega arith;
    }
    push_node_list-Pushed w f (na ∷ nas) ds h bs e i bound =
        let (d, es, u, v, q) = distances_cons cloud x (point_index na) (map point_index nas) ds e in
        let step = push_node-Visit o k na d h.1 h.0 i.seen i.holds in
        let rest =
          push_node_list-Pushed w f nas es (push_node fl na d h) bs.1 v
            (push_node-Searching w na d h.1 h.0 bs.0 u nas i bound)
            (push_node-Bounds o k na d h.1 h.0 i.seen i.holds bound) in
        subst (λ l. Pushed f (na ∷ nas) h.0 (push_node_list fl (na ∷ nas) l h).0) (sym q)
          (record {
            searching = rest.searching;
            singles = rest.singles ∙ step.singles;
            bounded =
                omega (arith, rest.bounded, Visit-load f na d h.1 h.0 (push_node fl na d h).0 step);
          })
