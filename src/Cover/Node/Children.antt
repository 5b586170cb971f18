-- ===== src/Cover/Node/Children.antt =====
-- goko/src/covertree/node.rs: the child of a node that covers a point, the nearest and the first.
use goko.Common.{
  ◌⊎◌, All, ℕ, zero, suc, ◌+◌, ◌≡◌, ◌∙◌, refl, sym, ap, Bool, true, false, Option, none, some, List,
  [], ◌∷◌, map, get_elem?, if◌then◌else◌, arith, Bool-cases, inl, inr,
}
use goko.Common.Outcome.{Outcome, ok, err, panic, ◌>>=◌, asserted}
use goko.Address.{NodeAddress, point_index, scale_index}
use goko.Points.Float.{Float, Cloud, IsOrder}
use goko.Points.Distances.{distances, distances_cons}
use goko.Cover.Node.{GokoError, point_cloud_error, CoverNode}

-- `?` on a result of the point cloud; `distances_to_point` is taken at the dimensions for which it is
-- the sequential computation.
abbrev or_cloud_error : {A : Type 0} → Option A → Outcome GokoError A
or_cloud_error none = err point_cloud_error
or_cloud_error (some a) = ok a

module _ {fl : Float} (cloud : Cloud fl) where
  open fl use {F, lt, max_value, powi}
  open cloud use {Point}

  -- The test against the radius of the child's scale.
  abbrev pub covers : NodeAddress → F → Bool
  covers c d = lt d (powi (scale_index c))

  abbrev pub Covering : Type 0
  Covering = Outcome GokoError (Option (NodeAddress × F))

  -- The loop over `children[1..].iter().zip(distances)`.
  unfoldable pub first_covering : List NodeAddress → List F → Option (NodeAddress × F)
  first_covering (ca ∷ cs) (d ∷ ds) =
      let rest = first_covering cs ds in if covers ca d then some (ca, d) else rest
  first_covering _ _ = none

  -- A slice of an empty list of children panics.
  unfoldable pub first_covering_child : F → Point → CoverNode F → Covering
  first_covering_child dist_to_center x n = elim n.children [
    | none ↦ ok none
    | some [] ↦ panic
    | some (c ∷ cs) ↦ if covers c dist_to_center then ok (some (c, dist_to_center)) else do
      ds ← or_cloud_error (distances cloud x (map point_index cs))
      ok (first_covering cs ds)
  ]

  -- `enumerate().min_by(..)` from the index `i`, with the first of the least so far.
  unfoldable pub min_from : ℕ → ℕ × F → List F → ℕ × F
  min_from i best [] = best
  min_from i best (d ∷ ds) = min_from (suc i) (if lt d best.1 then (i, d) else best) ds

  unfoldable pub min_by : List F → ℕ × F
  min_by [] = (0, max_value)
  min_by (d ∷ ds) = min_from 1 (0, d) ds

  abbrev if_covers : NodeAddress → F → Option (NodeAddress × F)
  if_covers c d = if covers c d then some (c, d) else none

  -- The centre's child, or the one of the least distance; `children[min_index + 1]` may panic.
  unfoldable pub nearer : NodeAddress → List NodeAddress → F → ℕ × F → Covering
  nearer c cs dist_to_center (min_index, min_dist) =
      if lt dist_to_center min_dist
      then ok (if_covers c dist_to_center)
      else do m ← asserted (get_elem? cs min_index); ok (if_covers m min_dist)

  unfoldable pub nearest_covering_child : F → Point → CoverNode F → Covering
  nearest_covering_child dist_to_center x n = elim n.children [
    | none ↦ ok none
    | some [] ↦ panic
    | some (c ∷ cs) ↦ do
      ds ← or_cloud_error (distances cloud x (map point_index cs))
      nearer c cs dist_to_center (min_by ds)
  ]

  -- The child at an index and its distance, which no distance is below.
  pub record Least (cs : List NodeAddress) (ds : List F) (c : NodeAddress) (d : F) : Type 0 where
    pub index : ℕ
    pub child : get_elem? cs index ≡ some c
    pub dist : get_elem? ds index ≡ some d
    pub least : All (λ y. lt y d ≡ false) ds

  module _ (o : IsOrder fl) where
    not_below : (a b c : F) → lt a b ≡ false → lt b c ≡ false → lt a c ≡ false
    not_below a b c e f = elim (Bool-cases (lt a c)) [
      | inr n ↦ n
      | inl y ↦ elim (o.split a b c y) [ inl g ↦ cc | inr g ↦ cc ]
    ]

    below_not : (a b : F) → lt a b ≡ true → lt b a ≡ false
    below_not a b e = elim (Bool-cases (lt b a)) [
      | inr n ↦ n
      | inl y ↦ let loop = o.trans a b a e y in let never = o.irrefl a in cc
    ]

    -- The result is the best so far or one of the rest, and nothing is below it.
    record MinFrom (i : ℕ) (best : ℕ × F) (ds : List F) (r : ℕ × F) : Type 0 where
      pub origin : (r ≡ best) ⊎ ((j : ℕ) × (r.0 ≡ i + j) × (get_elem? ds j ≡ some r.1))
      pub from_best : lt best.1 r.1 ≡ false
      pub least : All (λ y. lt y r.1 ≡ false) ds

    min_from-MinFrom : (i : ℕ) (best : ℕ × F) (ds : List F) → MinFrom i best ds (min_from i best ds)
    unfolding min_from
    min_from-MinFrom i best [] = record {
      origin = inl refl;
      from_best = o.irrefl best.1;
      least = tt;
    }
    min_from-MinFrom i best (d ∷ ds) = elim (Bool-cases (lt d best.1)) [
      | inl below ↦
          let g = min_from-MinFrom (suc i) (i, d) ds in
          rw below (record {
            origin = elim g.origin [
              | inl e ↦
                  inr (
                    0,
                    ap (λ (p : ℕ × F). p.0) e ∙ omega arith,
                    ap (λ (p : ℕ × F). some p.1) (sym e),
                  )
              | inr (j, a, b) ↦ inr (suc j, a ∙ omega arith, b)
            ];
            from_best = not_below best.1 d _ (below_not d best.1 below) g.from_best;
            least = (g.from_best, g.least);
          })
      | inr above ↦
          let g = min_from-MinFrom (suc i) best ds in
          rw above (record {
            origin = elim g.origin [
              | inl e ↦ inl e
              | inr (j, a, b) ↦ inr (suc j, a ∙ omega arith, b)
            ];
            from_best = g.from_best;
            least = (not_below d best.1 _ above g.from_best, g.least);
          })
    ]

    -- The least distance of a list that is not empty is at its index.
    pub min_by_lem :
        (d : F) (ds : List F)
        → (get_elem? (d ∷ ds) (min_by (d ∷ ds)).0 ≡ some (min_by (d ∷ ds)).1)
          × All (λ y. lt y (min_by (d ∷ ds)).1 ≡ false) (d ∷ ds)
    unfolding min_by
    min_by_lem d ds =
        let g = min_from-MinFrom 1 (0, d) ds in
        (
          elim g.origin [
            | inl e ↦
                let r0 = ap (λ (p : ℕ × F). p.0) e in
                let r1 = ap (λ (p : ℕ × F). p.1) e in ap (get_elem? (d ∷ ds)) r0 ∙ ap some (sym r1)
            | inr (j, a, b) ↦ ap (get_elem? (d ∷ ds)) {y = suc j} (a ∙ omega arith) ∙ b
          ],
          (g.from_best, g.least),
        )

  distances_child :
      (x : Point) (cs : List NodeAddress) (ds : List F) (i : ℕ) (d : F)
      → distances cloud x (map point_index cs) ≡ some ds
      → get_elem? ds i ≡ some d
      → (m : NodeAddress) × (get_elem? cs i ≡ some m)
  unfolding distances
  distances_child x [] [] i d e g = cc
  distances_child x [] (b ∷ ds) i d e g = cc
  distances_child x (c ∷ cs) ds zero d e g = (c, refl)
  distances_child x (c ∷ cs) ds (suc i) d e g =
      let (a, es, u, v, w) = distances_cons cloud x (point_index c) (map point_index cs) ds e in
      distances_child x cs es i d v (ap (λ l. get_elem? l (suc i)) (sym w) ∙ g)

  module _ (o : IsOrder fl) where
    All-not_below :
        (a b : F)
        → lt a b ≡ false
        → (ds : List F) → All (λ y. lt y a ≡ false) ds
        → All (λ y. lt y b ≡ false) ds
    All-not_below a b e [] h = tt
    All-not_below a b e (d ∷ ds) (h, hs) = (not_below o d a b h e, All-not_below a b e ds hs)

    nearer_found :
        (c m : NodeAddress) (cs : List NodeAddress) (dist_to_center : F) (ds : List F) (p : ℕ × F)
        → get_elem? cs p.0 ≡ some m
        → get_elem? ds p.0 ≡ some p.1
        → All (λ y. lt y p.1 ≡ false) ds
        → (m : NodeAddress) × (d : F) × Least (c ∷ cs) (dist_to_center ∷ ds) m d
          × (nearer c cs dist_to_center p ≡ ok (if_covers m d))
    unfolding nearer
    nearer_found c m cs z ds (i, d) a b l = elim (Bool-cases (lt z d)) [
      | inl below ↦ (
        c,
        z,
        record {
          index = 0;
          child = refl;
          dist = refl;
          least = (o.irrefl z, All-not_below d z (below_not o z d below) ds l);
        },
        rw below refl,
      )
      | inr above ↦ (
        m,
        d,
        record { index = suc i; child = a; dist = b; least = (above, l) },
        rw above (rw a refl),
      )
    ]

    nearer_lem :
        (x : Point) (c : NodeAddress) (cs : List NodeAddress) (dist_to_center : F) (ds : List F)
        → distances cloud x (map point_index cs) ≡ some ds
        → lt dist_to_center max_value ≡ true
        → (m : NodeAddress) × (d : F) × Least (c ∷ cs) (dist_to_center ∷ ds) m d
          × (nearer c cs dist_to_center (min_by ds) ≡ ok (if_covers m d))
    unfolding nearer min_by
    nearer_lem x c cs z [] e h =
        (c, z, record { index = 0; child = refl; dist = refl; least = (o.irrefl z, tt) }, rw h refl)
    nearer_lem x c cs z (d ∷ ds) e h =
        let (g, l) = min_by_lem o d ds in
        let (m, a) = distances_child x cs (d ∷ ds) _ _ e g in
        nearer_found c m cs z (d ∷ ds) (min_by (d ∷ ds)) a g l

    -- For a node with children whose distances to a point can be read, if the distances are ordered
    -- as floats without NaN are and the distance to the centre is below the greatest float, there is
    -- a child of least distance, with the first child at the distance to the centre, and
    -- `nearest_covering_child` gives it when that distance is below the radius of its scale, and none
    -- otherwise.
    pub nearest_covering_child-Least :
        (x : Point) (n : CoverNode F) (c : NodeAddress) (cs : List NodeAddress) (dist_to_center : F)
        (ds : List F)
        → n.children ≡ some (c ∷ cs)
        → distances cloud x (map point_index cs) ≡ some ds
        → lt dist_to_center max_value ≡ true
        → (m : NodeAddress) × (d : F) × Least (c ∷ cs) (dist_to_center ∷ ds) m d
          × (nearest_covering_child dist_to_center x n
              ≡ ok (if covers m d then some (m, d) else none))
    unfolding nearest_covering_child
    nearest_covering_child-Least x n c cs z ds k e h = rw k (rw e (nearer_lem x c cs z ds e h))
