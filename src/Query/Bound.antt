-- ===== src/Query/Bound.antt =====
-- knn_query_heap.rs: the local `max_dist` of a push of nodes, and what a push keeps.
use mathlib.Core.Path.{subst}
use goko.Common.{
  All, ℕ, suc, ◌≡◌, ◌∙◌, ◌⊎◌, refl, ap, Bool, true, false, List, [], ◌∷◌, length, ltb, leb, ◌&&◌,
  arith, Bool-cases, inl, inr, if◌then◌else◌,
}
use goko.Address.{NodeAddress, point_index}
use goko.Points.Float.{Float, IsOrder}
use goko.Query.Heap.{
  QuerySingleton, KnnQueryHeap, QueryAddress, push_singleton, trim, push_dist, max_dist, len,
  push_node, contains, push_address,
}
use goko.Query.Nearest.{Falling, tail, NotNearer-tail, trim_one, trim_fits, length-push}
use goko.Query.Pushes.{Seen, see, Holds, push_node-Holds, node_item}

module _ {fl : Float} (o : IsOrder fl) where
  open fl use {F, lt, max_value}

  -- A distance that is below none of a full heap.
  abbrev pub Out : ℕ → F → List (QuerySingleton fl) → Type 0
  Out k d heap = (length heap ≡ k) × All (λ (z : QuerySingleton fl). lt d z.dist ≡ false) heap

  length-tail : (l : List (QuerySingleton fl)) (n : ℕ) → length l ≡ suc n → length (tail o l) ≡ n
  length-tail [] n e = absurd (omega arith)
  length-tail (x ∷ l) n e = omega arith

  over-Out :
      (k : ℕ) (d : F) (x : QuerySingleton fl) (heap : List (QuerySingleton fl))
      → Out k d heap
      → Out k d (trim fl k (push_singleton fl x heap))
  over-Out k d x heap h =
      let count : length (push_singleton fl x heap) ≡ suc k = length-push o x heap ∙ ap suc h.0 in
      rw (trim_one o k (push_singleton fl x heap) count) (
        length-tail (push_singleton fl x heap) k count,
        NotNearer-tail o x heap (record { dist = d; index = 0 }) h.1,
      )

  pub push_dist-Out :
      (k : ℕ) (d : F) (x : QuerySingleton fl) (heap : List (QuerySingleton fl))
      → Out k d heap
      → Out k d (trim fl k (push_dist fl k x heap))
  unfolding push_dist push_singleton
  push_dist-Out k d x [] h = over-Out k d x [] h
  push_dist-Out k d x (y ∷ l) h = elim (Bool-cases (lt y.dist x.dist && leb k (length (y ∷ l)))) [
    | inl out ↦ rw (out, trim_fits o k (y ∷ l) (omega (arith, h.0))) h
    | inr inside ↦ rw inside (over-Out k d x (y ∷ l) h)
  ]

  -- The local `max_dist`, which may be older than the heap.
  abbrev pub Bounds : ℕ → F → List (QuerySingleton fl) → Type 0
  Bounds k m heap = (m ≡ max_value) ⊎ Out k m heap

  List-cases :
      (l : List (QuerySingleton fl))
      → (l ≡ []) ⊎ ((x : QuerySingleton fl) × (r : List (QuerySingleton fl)) × (l ≡ x ∷ r))
  List-cases [] = inl refl
  List-cases (x ∷ r) = inr (x, r, refl)

  pub max_dist-Bounds :
      (k : ℕ) (h : KnnQueryHeap fl) (s : Seen fl)
      → Holds o k h s
      → Bounds k (max_dist fl h) h.dist_heap
  unfolding max_dist len
  max_dist-Bounds k h s r = elim (Bool-cases (ltb (length h.dist_heap) h.k)) [
    | inl short ↦ inl (rw short refl)
    | inr full ↦ elim (List-cases h.dist_heap) [
      | inl e ↦ inl (rw (full, e) refl)
      | inr (x, l, e) ↦
          let falls : Falling o (x ∷ l) = subst (Falling o) e r.nearest.falling in
          inr (ground (arith, r.nearest.bound, r.size), rw (full, e) (o.irrefl x.dist, falls.0))
    ]
  ]

  -- A push of a node keeps what is known and what is out; the node is on the child heap, or its
  -- least distance is not below the local `max_dist`.
  pub record Visit (k : ℕ) (na : NodeAddress) (d m : F) (h h' : KnnQueryHeap fl) : Type 0 where
    pub singles : h'.singleton_heap ≡ h.singleton_heap
    pub known : contains (point_index na) h'.known_indexes ≡ true
    pub kept : (i : ℕ) → contains i h.known_indexes ≡ true → contains i h'.known_indexes ≡ true
    pub out : (e : F) → Out k e h.dist_heap → Out k e h'.dist_heap
    pub heap :
        ((h'.child_heap ≡ h.child_heap) × (lt (node_item o na d).min_dist m ≡ false))
        ⊎ (h'.child_heap ≡ push_address fl (node_item o na d) h.child_heap)

  module _ (k : ℕ) (na : NodeAddress) (d m : F) (h : KnnQueryHeap fl) (s : Seen fl)
      (r : Holds o k h s) where
    -- Where the child heap of a visit comes from.
    abbrev Pushed : List (QueryAddress fl) → Type 0
    Pushed c =
        ((c ≡ h.child_heap) × (lt (node_item o na d).min_dist m ≡ false))
        ⊎ (c ≡ push_address fl (node_item o na d) h.child_heap)

    old_Visit :
        contains (point_index na) h.known_indexes ≡ true
        → (c : List (QueryAddress fl)) → Pushed c
        → Visit k na d m h (record h { child_heap = c; dist_heap = trim fl h.k h.dist_heap })
    old_Visit old c p = record {
      singles = refl;
      known = old;
      kept = λ i e. e;
      out = λ e f. rw (r.size, trim_fits o k h.dist_heap r.nearest.bound) f;
      heap = p;
    }

    new_Visit :
        (c : List (QueryAddress fl))
        → Pushed c
        → Visit k na d m h (record h {
          child_heap = c;
          known_indexes = point_index na ∷ h.known_indexes;
          dist_heap =
              trim fl h.k
                (push_dist fl h.k (record { dist = d; index = point_index na }) h.dist_heap);
        })
    new_Visit c p = record {
      singles = refl;
      known = ground arith;
      kept = λ i e. ground arith;
      out = λ e f.
          rw r.size (push_dist-Out k e (record { dist = d; index = point_index na }) h.dist_heap f);
      heap = p;
    }

  pub push_node-Visit :
      (k : ℕ) (na : NodeAddress) (d m : F) (h : KnnQueryHeap fl) (s : Seen fl)
      → Holds o k h s
      → Visit k na d m h (push_node fl na d (h, m)).0
  unfolding push_node
  push_node-Visit k na d m h s r =
      let i = point_index na in
      elim (Bool-cases (lt (node_item o na d).min_dist m)) [
        | inl near ↦ elim (Bool-cases (contains i h.known_indexes)) [
          | inl old ↦
              rw (near, old)
                (old_Visit k na d m h s r old (push_address fl (node_item o na d) h.child_heap)
                  (inr refl))
          | inr fresh ↦
              rw (near, fresh)
                (new_Visit k na d m h s r (push_address fl (node_item o na d) h.child_heap)
                  (inr refl))
        ]
        | inr far ↦ elim (Bool-cases (contains i h.known_indexes)) [
          | inl old ↦ rw (far, old) (old_Visit k na d m h s r old h.child_heap (inl (refl, far)))
          | inr fresh ↦ rw (far, fresh) (new_Visit k na d m h s r h.child_heap (inl (refl, far)))
        ]
      ]

  choose :
      (k : ℕ) (heap : List (QuerySingleton fl)) (a b : F) (c : Bool)
      → Bounds k a heap
      → Bounds k b heap
      → Bounds k (if c then a else b) heap
  choose k heap a b true x y = x
  choose k heap a b false x y = y

  pub push_node-Bounds :
      (k : ℕ) (na : NodeAddress) (d m : F) (h : KnnQueryHeap fl) (s : Seen fl)
      → Holds o k h s
      → Bounds k m h.dist_heap
      → Bounds k (push_node fl na d (h, m)).1 (push_node fl na d (h, m)).0.dist_heap
  unfolding push_node
  push_node-Bounds k na d m h s r b =
      let h' = (push_node fl na d (h, m)).0 in
      choose k h'.dist_heap _ m _
        (max_dist-Bounds k h' (see fl (point_index na) d s) (push_node-Holds o k na d m h s r))
        (elim b [ inl e ↦ inl e | inr f ↦ inr ((push_node-Visit k na d m h s r).out m f) ])
