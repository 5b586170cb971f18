-- ===== src/Query/Pushes.antt =====
-- knn_query_heap.rs: any pushes of nodes and of single points, and the unpacking of the heap.
use goko.Common.{
  ◌++◌, map, All, ℕ, ◌+◌, ◌≤◌, ◌≡◌, ◌∙◌, refl, ap, false, Option, none, some, List, [], ◌∷◌, length,
  if◌then◌else◌, arith, Bool-cases, inl, inr,
}
use mathlib.Core.Path.{subst}
use mathlib.Core.List.{Perm, perm_middle, append-nil}
use mathlib.Core.List.Perm
use mathlib.Core.List.Permᴰ
use goko.Address.{NodeAddress, point_index, scale_index}
use goko.Points.Float.{Float, IsOrder}
use goko.Query.Heap.{
  QueryAddress, push_address, QuerySingleton, KnnQueryHeap, contains, new, push_outlier,
  push_outliers, push_node, push_node_list, push_nodes, increase_estimated_distance, max_dist,
  unpack, unpack_onto, larger, trim, push_dist,
}
use goko.Query.Nearest.{IsNearest, Falling, NotNearer, push_dist-IsNearest, trim_fits}

-- The calls that a search makes on the heap.
pub data Push (fl : Float) : Type 0 where
  nodes : List NodeAddress → List fl.F → Option NodeAddress → Push fl
  outliers : List ℕ → List fl.F → Push fl

module _ (fl : Float) where
  open fl use {F, lt}

  unfoldable pub push : Push fl → KnnQueryHeap fl → KnnQueryHeap fl
  push (nodes indexes dists parent) h = push_nodes fl indexes dists parent h
  push (outliers indexes dists) h = push_outliers fl indexes dists h

  abbrev pub push_all : List (Push fl) → KnnQueryHeap fl → KnnQueryHeap fl
  push_all [] h = h
  push_all (p ∷ ps) h = push_all ps (push p h)

  -- The points seen so far, each with the distance it came with first, and their indexes.
  pub record Seen : Type 0 where
    pub known : List ℕ
    pub points : List (QuerySingleton fl)

  abbrev pub see : ℕ → F → Seen → Seen
  see i d s =
      if contains i s.known
      then s
      else record { known = i ∷ s.known; points = record { dist = d; index = i } ∷ s.points }

  abbrev pub see_points : List ℕ → List F → Seen → Seen
  see_points (i ∷ is) (d ∷ ds) s = see_points is ds (see i d s)
  see_points _ _ s = s

  abbrev pub see_nodes : List NodeAddress → List F → Seen → Seen
  see_nodes (na ∷ nas) (d ∷ ds) s = see_nodes nas ds (see (point_index na) d s)
  see_nodes _ _ s = s

  abbrev pub see_push : Push fl → Seen → Seen
  see_push (nodes indexes dists parent) s = see_nodes indexes dists s
  see_push (outliers indexes dists) s = see_points indexes dists s

  abbrev pub see_all : List (Push fl) → Seen → Seen
  see_all [] s = s
  see_all (p ∷ ps) s = see_all ps (see_push p s)

  abbrev pub unseen : Seen
  unseen = record { known = []; points = [] }

  -- A list of results from near to far.
  abbrev pub Rising : List (ℕ × F) → Type 0
  Rising [] = Unit
  Rising (x ∷ l) = All (λ (z : ℕ × F). lt z.1 x.1 ≡ false) l × Rising l

module _ {fl : Float} (o : IsOrder fl) where
  open fl use {F, lt}

  -- The heap and the points seen.
  pub record Holds (k : ℕ) (h : KnnQueryHeap fl) (s : Seen fl) : Type 0 where
    pub size : h.k ≡ k
    pub known : h.known_indexes ≡ s.known
    pub nearest : IsNearest o k h.dist_heap s.points

  pub push_outlier-Holds :
      (k i : ℕ) (d : F) (h : KnnQueryHeap fl) (s : Seen fl)
      → Holds k h s
      → Holds k (push_outlier fl i d h) (see fl i d s)
  unfolding push_outlier
  push_outlier-Holds k i d h s r =
      let same = ap (contains i) r.known in
      elim (Bool-cases (contains i s.known)) [
        | inl old ↦ rw (old, same ∙ old) r
        | inr fresh ↦
            rw (fresh, same ∙ fresh)
              (record {
                size = r.size;
                known = ap (◌∷◌ i) r.known;
                nearest = rw r.size (
                    push_dist-IsNearest o k (record { dist = d; index = i }) h.dist_heap s.points
                      r.nearest);
              })
      ]

  pub push_outliers-Holds :
      (k : ℕ) (is : List ℕ) (ds : List F) (h : KnnQueryHeap fl) (s : Seen fl)
      → Holds k h s
      → Holds k (push_outliers fl is ds h) (see_points fl is ds s)
  unfolding push_outliers
  push_outliers-Holds k [] ds h s r = r
  push_outliers-Holds k (i ∷ is) [] h s r = r
  push_outliers-Holds k (i ∷ is) (d ∷ ds) h s r =
      push_outliers-Holds k is ds (push_outlier fl i d h) (see fl i d s)
        (push_outlier-Holds k i d h s r)

  abbrev pub node_item : NodeAddress → F → QueryAddress fl
  node_item na d = record {
    min_dist = larger fl (fl.sub d (fl.powi (scale_index na))) fl.zero_value;
    dist_to_center = d;
    address = na;
  }

  -- A node whose point is known, and one whose point is new.
  kept :
      (k : ℕ) (c : List (QueryAddress fl)) (h : KnnQueryHeap fl) (s : Seen fl)
      → Holds k h s
      → Holds k (record h { child_heap = c; dist_heap = trim fl h.k h.dist_heap }) s
  kept k c h s r = record {
    size = r.size;
    known = r.known;
    nearest = rw (r.size, trim_fits o k h.dist_heap r.nearest.bound) r.nearest;
  }

  taken :
      (k i : ℕ) (d : F) (c : List (QueryAddress fl)) (h : KnnQueryHeap fl) (s : Seen fl)
      → Holds k h s
      → Holds k
          (record h {
            child_heap = c;
            known_indexes = i ∷ h.known_indexes;
            dist_heap = trim fl h.k (push_dist fl h.k (record { dist = d; index = i }) h.dist_heap);
          })
          (record { known = i ∷ s.known; points = record { dist = d; index = i } ∷ s.points })
  taken k i d c h s r = record {
    size = r.size;
    known = ap (◌∷◌ i) r.known;
    nearest =
        rw r.size
          (push_dist-IsNearest o k (record { dist = d; index = i }) h.dist_heap s.points r.nearest);
  }

  pub push_node-Holds :
      (k : ℕ) (na : NodeAddress) (d m : F) (h : KnnQueryHeap fl) (s : Seen fl)
      → Holds k h s
      → Holds k (push_node fl na d (h, m)).0 (see fl (point_index na) d s)
  unfolding push_node
  push_node-Holds k na d m h s r =
      let i = point_index na in
      let same = ap (contains i) r.known in
      elim (Bool-cases (lt (larger fl (fl.sub d (fl.powi (scale_index na))) fl.zero_value) m)) [
        | inl near ↦ elim (Bool-cases (contains i s.known)) [
          | inl old ↦
              rw (near, old, same ∙ old)
                (kept k (push_address fl (node_item na d) h.child_heap) h s r)
          | inr fresh ↦
              rw (near, fresh, same ∙ fresh)
                (taken k i d (push_address fl (node_item na d) h.child_heap) h s r)
        ]
        | inr far ↦ elim (Bool-cases (contains i s.known)) [
          | inl old ↦ rw (far, old, same ∙ old) (kept k h.child_heap h s r)
          | inr fresh ↦ rw (far, fresh, same ∙ fresh) (taken k i d h.child_heap h s r)
        ]
      ]

  push_node_list-Holds :
      (k : ℕ) (nas : List NodeAddress) (ds : List F) (h : KnnQueryHeap fl × F) (s : Seen fl)
      → Holds k h.0 s
      → Holds k (push_node_list fl nas ds h).0 (see_nodes fl nas ds s)
  unfolding push_node_list
  push_node_list-Holds k [] ds h s r = r
  push_node_list-Holds k (na ∷ nas) [] h s r = r
  push_node_list-Holds k (na ∷ nas) (d ∷ ds) h s r =
      push_node_list-Holds k nas ds (push_node fl na d h) (see fl (point_index na) d s)
        (push_node-Holds k na d h.1 h.0 s r)

  push-Holds :
      (k : ℕ) (p : Push fl) (h : KnnQueryHeap fl) (s : Seen fl)
      → Holds k h s
      → Holds k (push fl p h) (see_push fl p s)
  unfolding push push_nodes increase_estimated_distance
  push-Holds k (nodes nas ds none) h s r = push_node_list-Holds k nas ds (h, max_dist fl h) s r
  push-Holds k (nodes nas ds (some a)) h s r =
      let q = push_node_list-Holds k nas ds (h, max_dist fl h) s r in
      record { size = q.size; known = q.known; nearest = q.nearest }
  push-Holds k (outliers is ds) h s r = push_outliers-Holds k is ds h s r

  push_all-Holds :
      (k : ℕ) (ps : List (Push fl)) (h : KnnQueryHeap fl) (s : Seen fl)
      → Holds k h s
      → Holds k (push_all fl ps h) (see_all fl ps s)
  push_all-Holds k [] h s r = r
  push_all-Holds k (p ∷ ps) h s r =
      push_all-Holds k ps (push fl p h) (see_push fl p s) (push-Holds k p h s r)

  pub new-Holds : (k : ℕ) → Holds k (new fl k) (unseen fl)
  unfolding new
  new-Holds k = record {
    size = refl;
    known = refl;
    nearest = record {
      dropped = [];
      perm = Permᴰ.nil;
      falling = tt;
      farther = tt;
      bound = omega arith;
      full = inl refl;
    };
  }

  -- After any pushes of nodes and of single points on a new heap, the distance heap holds the `k`
  -- nearest of the points pushed, each with the distance it came with first: see `IsNearest`. The
  -- distances are to be ordered as floats without NaN are.
  pub push_all-IsNearest :
      (k : ℕ) (ps : List (Push fl))
      → IsNearest o k (push_all fl ps (new fl k)).dist_heap (see_all fl ps (unseen fl)).points
  push_all-IsNearest k ps = (push_all-Holds k ps (new fl k) (unseen fl) (new-Holds k)).nearest

  -- Results that are nearer than none of the rest of the heap.
  abbrev Beyond : List (QuerySingleton fl) → List (ℕ × F) → Type 0
  Beyond l rs = All (λ (z : QuerySingleton fl). All (λ (r : ℕ × F). lt r.1 z.dist ≡ false) rs) l

  Beyond-cons :
      (x : QuerySingleton fl) (l : List (QuerySingleton fl)) (rs : List (ℕ × F))
      → NotNearer o x l
      → Beyond l rs
      → Beyond l ((x.index, x.dist) ∷ rs)
  Beyond-cons x [] rs n b = tt
  Beyond-cons x (z ∷ l) rs n b = ((n.0, b.0), Beyond-cons x l rs n.1 b.1)

  pub unpack_onto-Rising :
      (l : List (QuerySingleton fl)) (rs : List (ℕ × F))
      → Falling o l
      → Beyond l rs
      → Rising fl rs
      → Rising fl (unpack_onto fl l rs)
  unfolding unpack_onto
  unpack_onto-Rising [] rs f b r = r
  unpack_onto-Rising (x ∷ l) rs f b r =
      unpack_onto-Rising l ((x.index, x.dist) ∷ rs) f.1 (Beyond-cons x l rs f.0 b.1) (b.0, r)

  pub length-unpack_onto :
      (l : List (QuerySingleton fl)) (rs : List (ℕ × F))
      → length (unpack_onto fl l rs) ≡ length l + length rs
  unfolding unpack_onto
  length-unpack_onto [] rs = omega arith
  length-unpack_onto (x ∷ l) rs = omega (arith, length-unpack_onto l ((x.index, x.dist) ∷ rs))

  abbrev pub result : QuerySingleton fl → ℕ × F
  result x = (x.index, x.dist)

  pub unpack_onto-perm :
      (l : List (QuerySingleton fl)) (rs : List (ℕ × F))
      → Perm (unpack_onto fl l rs) (map result l ++ rs)
  unfolding unpack_onto
  unpack_onto-perm [] rs = Perm.refl rs
  unpack_onto-perm (x ∷ l) rs =
      Perm.trans (unpack_onto-perm l (result x ∷ rs)) (perm_middle (map result l) rs)

  pub nothing : (l : List (QuerySingleton fl)) → Beyond l []
  nothing [] = tt
  nothing (x ∷ l) = (tt, nothing l)

  -- Unpacking the heap after any pushes gives the points of the distance heap with their distances,
  -- at most `k`, from near to far, if the distances are ordered as floats without NaN are.
  pub unpack-Rising :
      (k : ℕ) (ps : List (Push fl))
      → Rising fl (unpack fl (push_all fl ps (new fl k)))
        × (length (unpack fl (push_all fl ps (new fl k))) ≤ k)
        × Perm
            (unpack fl (push_all fl ps (new fl k)))
            (map result (push_all fl ps (new fl k)).dist_heap)
  unfolding unpack
  unpack-Rising k ps =
      let heap = (push_all fl ps (new fl k)).dist_heap in
      let n = push_all-IsNearest k ps in
      (
        unpack_onto-Rising heap [] n.falling (nothing heap) tt,
        omega (arith, length-unpack_onto heap [], n.bound),
        subst (Perm (unpack_onto fl heap [])) (append-nil (map result heap))
            (unpack_onto-perm heap []),
      )
