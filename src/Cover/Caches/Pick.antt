-- ===== src/Cover/Caches/Pick.antt =====
-- goko/src/covertree/data_caches.rs: picking a centre among the uncovered points.
use mathlib.Core.List.{Perm}
use mathlib.Core.List.Perm
use goko.Common.{All, ℕ, zero, suc, ◌<◌, ◌≡◌, refl, true, some, List, [], ◌∷◌, ◌++◌, length, arith}
use goko.Common.Outcome.{ok}
use goko.Points.Float.{Float, Cloud}
use goko.Points.Distances.{distances, distance}
use goko.Cover.Caches.{
  FirstCoveredData, UncoveredData, partition, pick_center, remove_at, distances_to_index,
}
use goko.Cover.Caches.Partition.{
  FarFrom, IsCached, partition-perm, partition-Split, length-distances,
}

-- What is left after a removal, with the removed element first, is the list in another order.
pub remove_at-perm {ℓ κ} :
    {A : Type ℓ} (P : A → Type κ) (i : ℕ) (l : List A)
    → i < length l
    → All P l
    → (z : A) × (rest : List A) × (remove_at i l ≡ some (z, rest))
      × Perm (z ∷ rest) l
      × P z
      × All P rest
unfolding remove_at
remove_at-perm P i [] h a = absurd (omega arith)
remove_at-perm P zero (x ∷ l) h a = (x, l, refl, Perm.refl (x ∷ l), a.0, a.1)
remove_at-perm P (suc i) (x ∷ l) h a =
    let (z, rest, e, p, pz, pr) = remove_at-perm P i l (omega arith) a.1 in
    (z, x ∷ rest, rw e, Perm.trans (Perm.swap x z rest) (Perm.cons x p), pz, (a.0, pr))

module _ {fl : Float} (cloud : Cloud fl) where
  open fl use {F, lt}
  open cloud use {Point, point}

  -- The cloud has a point at `i`.
  abbrev pub Readable : ℕ → Type 0
  Readable i = (x : Point) × (point i ≡ some x)

  pub distances-Readable :
      (x : Point) (is : List ℕ) → All Readable is → (ds : List F) × (distances cloud x is ≡ some ds)
  unfolding distances distance
  distances-Readable x [] a = ([], refl)
  distances-Readable x (i ∷ is) ((y, e), a) =
      let (ds, es) = distances-Readable x is a in (cloud.dist x y ∷ ds, rw (e, es))

  -- A draw within the uncovered points, all readable, picks a centre: the centre, the points it
  -- covers and the points left are together the uncovered points. The new cache has its true
  -- distances, all below the radius, and no point left is nearer to the centre than the radius.
  pub pick_center-partitions :
      (draw : ℕ) (u : UncoveredData) (r : F)
      → draw < length u.coverage
      → All Readable u.coverage
      → (c : FirstCoveredData F) × (left : UncoveredData) × (k : IsCached cloud c) × (pick_center
            cloud draw u r
          ≡ ok (c, left))
        × Perm (c.center_index ∷ c.coverage ++ left.coverage) u.coverage
        × All (λ d. lt d r ≡ true) c.dists
        × All (FarFrom cloud k.center_point r) left.coverage
  unfolding pick_center distances_to_index
  pick_center-partitions draw u r h a =
      let (z, rest, e, p, (x, at), pr) = remove_at-perm Readable draw u.coverage h a in
      let (ds, es) = distances-Readable x rest pr in
      let s = partition-Split cloud x r rest ds es in
      let q = partition-perm fl r rest ds (length-distances cloud x rest ds es) in
      (
        record {
          dists = (partition fl r rest ds).close_dist;
          coverage = (partition fl r rest ds).close_index;
          center_index = z;
        },
        record { coverage = (partition fl r rest ds).far },
        record { center_point = x; center = at; cached = s.true_dists },
        rw (e, at, es),
        Perm.trans (Perm.cons z q) p,
        s.close,
        s.far,
      )
