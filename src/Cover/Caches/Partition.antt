-- ===== src/Cover/Caches/Partition.antt =====
-- goko/src/covertree/data_caches.rs: a split loses no point, and keeps the true distances.
use mathlib.Core.List.{Perm, perm_middle}
use mathlib.Core.List.Perm
use goko.Common.{
  All, ℕ, suc, ◌≡◌, refl, ap, true, false, some, List, [], ◌∷◌, ◌++◌, length, Bool-cases, inl, inr,
  arith,
}
use goko.Points.Float.{Float, Cloud}
use goko.Points.Distances.{distances, distance, distances_cons}
use goko.Cover.Caches.{FirstCoveredData, Parts, partition, first_split}

module _ (fl : Float) where
  open fl use {F, lt}

  pub partition-perm :
      (r : F) (is : List ℕ) (ds : List F)
      → length ds ≡ length is
      → Perm ((partition fl r is ds).close_index ++ (partition fl r is ds).far) is
  unfolding partition
  partition-perm r [] ds e = Perm.refl []
  partition-perm r (i ∷ is) [] e = absurd (omega arith)
  partition-perm r (i ∷ is) (d ∷ ds) e = elim (Bool-cases (lt d r)) [
    | inl close ↦ rw (close, partition) (Perm.cons i (partition-perm r is ds (omega arith)))
    | inr far ↦
        rw (far, partition)
          (Perm.trans (perm_middle _ _) (Perm.cons i (partition-perm r is ds (omega arith))))
  ]

module _ {fl : Float} (cloud : Cloud fl) where
  open fl use {F, lt}
  open cloud use {Point, point}

  -- The point at `i` is at least `r` away.
  abbrev pub FarFrom : Point → F → ℕ → Type 0
  FarFrom x r i = (d : F) × (distance cloud x i ≡ some d) × (lt d r ≡ false)

  -- What a partition by true distances gives.
  pub record Split (x : Point) (r : F) (p : Parts F) : Type 0 where
    pub true_dists : distances cloud x p.close_index ≡ some p.close_dist
    pub close : All (λ d. lt d r ≡ true) p.close_dist
    pub far : All (FarFrom x r) p.far

  pub partition-Split :
      (x : Point) (r : F) (is : List ℕ) (ds : List F)
      → distances cloud x is ≡ some ds
      → Split x r (partition fl r is ds)
  unfolding partition distances
  partition-Split x r [] ds e = record { true_dists = refl; close = tt; far = tt }
  partition-Split x r (i ∷ is) ds e =
      let (d, es, one, rest, split) = distances_cons cloud x i is ds e in
      let ih = partition-Split x r is es rest in
      rw split (elim (Bool-cases (lt d r)) [
        | inl near ↦
            rw (near, partition)
              (record {
                true_dists = rw (distances, one, ih.true_dists);
                close = (near, ih.close);
                far = ih.far;
              })
        | inr away ↦
            rw (away, partition)
              (record {
                true_dists = ih.true_dists;
                close = ih.close;
                far = ((d, one, away), ih.far);
              })
      ])

  pub length-distances :
      (x : Point) (is : List ℕ) (ds : List F)
      → distances cloud x is ≡ some ds
      → length ds ≡ length is
  unfolding distances
  length-distances x [] ds e = ground arith
  length-distances x (i ∷ is) ds e =
      let (d, es, one, rest, split) = distances_cons cloud x i is ds e in
      rw split (ap suc (length-distances x is es rest))

  -- A cache whose distances are those to its centre.
  pub record IsCached (c : FirstCoveredData F) : Type 0 where
    pub center_point : Point
    pub center : point c.center_index ≡ some center_point
    pub cached : distances cloud center_point c.coverage ≡ some c.dists

  -- Splitting a cache loses no point and makes none up: the close and the far points are together
  -- the covered ones. The close part has the same centre and its true distances, all below the
  -- threshold, and no far point is nearer to the centre than the threshold.
  pub first_split-partitions :
      (c : FirstCoveredData F) (r : F)
      → (k : IsCached c)
      → Perm ((first_split fl c r).0.coverage ++ (first_split fl c r).1.coverage) c.coverage
        × ((first_split fl c r).0.center_index ≡ c.center_index)
        × IsCached (first_split fl c r).0
        × All (λ d. lt d r ≡ true) (first_split fl c r).0.dists
        × All (FarFrom k.center_point r) (first_split fl c r).1.coverage
  unfolding first_split
  first_split-partitions c r k =
      let s = partition-Split k.center_point r c.coverage c.dists k.cached in
      (
        partition-perm fl r c.coverage c.dists (length-distances _ c.coverage c.dists k.cached),
        refl,
        record { center_point = k.center_point; center = k.center; cached = s.true_dists },
        s.close,
        s.far,
      )
