-- ===== src/Points/Distances.antt =====
-- pointcloud/src/base_traits.rs: `distances_to_point`, one index after the other or in chunks.
use goko.Common.{
  Option-cases, inl, inr, ℕ, zero, suc, ◌*◌, ◌<◌, ◌≤◌, ◌≡◌, refl, Bool, true, false, Option, none,
  some, List, [], ◌∷◌, ◌++◌, length, ◌>>=◌, length-drop, take-append-drop, ◌==◌, ◌||◌, ◌/◌, ltb,
  if◌then◌else◌, arith, take, drop,
}
use Prim.Native.Nat.{min}
use goko.Common.Outcome.{Outcome, ok, err, panic}
use goko.Points.Float.{Float, Cloud}

-- The error is a `PointCloudError`.
abbrev pub result {ℓ} : {A : Type ℓ} → Option A → Outcome (Unit {ℓ}) A
result none = err tt
result (some a) = ok a

module _ {fl : Float} (cloud : Cloud fl) where
  open fl use {F, zero_value}
  open cloud use {Point, point, dist, dim}

  -- `let y = self.point(*i)?; Ok(dist(&x, &y))`
  unfoldable pub distance : Point → ℕ → Option F
  distance x i = do y ← point i; some (dist x y)

  pub distance-some :
      (x : Point) (p : ℕ) (d : F)
      → distance x p ≡ some d
      → (y : Point) × (point p ≡ some y) × (dist x y ≡ d)
  unfolding distance
  distance-some x p d e = elim (Option-cases (point p)) [
    | inl none_there ↦ let bad : none ≡ some d = rw none_there at e in absurd (cc)
    | inr (y, there) ↦ let good : some (dist x y) ≡ some d = rw there at e in (y, there, cc)
  ]

  -- The sequential branch: `collect` of the results stops at the first error.
  unfoldable pub distances : Point → List ℕ → Option (List F)
  distances x [] = some []
  distances x (i ∷ is) = do d ← distance x i; ds ← distances x is; some (d ∷ ds)

  pub distances_cons :
      (x : Point) (i : ℕ) (is : List ℕ) (ds : List F)
      → distances x (i ∷ is) ≡ some ds
      → (d : F) × (es : List F) × (distance x i ≡ some d)
        × (distances x is ≡ some es)
        × (ds ≡ d ∷ es)
  unfolding distances
  distances_cons x i is ds e = go (distance x i) (distances x is) refl refl e
    where
      go :
          (o : Option F) (p : Option (List F))
          → distance x i ≡ o
          → distances x is ≡ p
          → (do d ← o; es ← p; some (d ∷ es)) ≡ some ds
          → (d : F) × (es : List F) × (distance x i ≡ some d)
            × (distances x is ≡ some es)
            × (ds ≡ d ∷ es)
      go none p u v w = cc
      go (some d) none u v w = cc
      go (some d) (some es) u v w = (d, es, u, v, cc)

  -- One chunk of the parallel branch: the distances, zero where there is an error, and whether the
  -- error cell is set.
  unfoldable pub chunk_distances : Point → List ℕ → List F × Bool
  chunk_distances x [] = ([], false)
  chunk_distances x (i ∷ is) =
      let (ds, failed) = chunk_distances x is in
      elim (distance x i) [ none ↦ (zero_value ∷ ds, true) | some d ↦ (d ∷ ds, failed) ]

  -- `chunk(self.dim())`
  unfoldable pub chunk : ℕ
  chunk = min (300000 / dim) 100

  -- `par_chunks(chunk)` on fuel, each chunk on its own.
  unfoldable pub all_chunks : ℕ → Point → List ℕ → List F × Bool
  all_chunks zero x is = ([], false)
  all_chunks (suc fuel) x [] = ([], false)
  all_chunks (suc fuel) x (i ∷ is) =
      let (ds, failed) = chunk_distances x (take chunk (i ∷ is)) in
      let (es, failed') = all_chunks fuel x (drop chunk (i ∷ is)) in (ds ++ es, failed || failed')

  -- The panics are those of a division by 0 and of `par_chunks(0)`.
  unfoldable pub distances_to_point : Point → List ℕ → Outcome (Unit {0}) (List F)
  distances_to_point x is =
      let (ds, failed) = all_chunks (length is) x is in
      if dim == 0
      then panic
      else if ltb (chunk * 3) (length is)
      then (if chunk == 0 then panic else if failed then err tt else ok ds)
      else result (distances x is)

  chunk_pos : 0 < dim → dim ≤ 300000 → 0 < chunk
  unfolding chunk
  chunk_pos d h = grind arith

  chunk_zero : 300000 < dim → chunk ≡ 0
  unfolding chunk
  chunk_zero d = grind arith

  -- A chunk reports an error exactly where the loop over it stops.
  abbrev settled : List F × Bool → Option (List F)
  settled r = if r.1 then none else some r.0

  chunk_distances_lem : (x : Point) (is : List ℕ) → settled (chunk_distances x is) ≡ distances x is
  unfolding chunk_distances distances
  chunk_distances_lem x [] = refl
  chunk_distances_lem x (i ∷ is) = ground (arith, chunk_distances_lem x is)

  distances-append :
      (x : Point) (is js : List ℕ)
      → distances x (is ++ js) ≡ (do ds ← distances x is; es ← distances x js; some (ds ++ es))
  unfolding distances
  distances-append x [] js = ground arith
  distances-append x (i ∷ is) js = ground (arith, distances-append x is js)

  all_chunks_lem :
      (fuel : ℕ) (x : Point) (is : List ℕ)
      → 0 < chunk
      → length is ≤ fuel
      → settled (all_chunks fuel x is) ≡ distances x is
  unfolding all_chunks distances
  all_chunks_lem zero x [] c h = refl
  all_chunks_lem zero x (i ∷ is) c h = absurd (omega arith)
  all_chunks_lem (suc fuel) x [] c h = refl
  all_chunks_lem (suc fuel) x (i ∷ is) c h = ground (
    arith,
    chunk_distances_lem x (take chunk (i ∷ is)),
    all_chunks_lem fuel x (drop chunk (i ∷ is)) c (omega (arith, length-drop chunk (i ∷ is))),
    distances-append x (take chunk (i ∷ is)) (drop chunk (i ∷ is)),
    take-append-drop chunk (i ∷ is),
  )

  -- For dimensions from 1 to 300000 the chunked computation is the sequential one: the same
  -- distances in the same order, and an error exactly when some point cannot be read.
  pub distances_to_point-eq-distances :
      (x : Point) (is : List ℕ)
      → 0 < dim
      → dim ≤ 300000
      → distances_to_point x is ≡ result (distances x is)
  unfolding distances_to_point
  distances_to_point-eq-distances x is d h =
      ground (arith, chunk_pos d h, all_chunks_lem (length is) x is (chunk_pos d h) (omega arith))

  -- For a dimension above 300000 the distances from a point to one or more indexes panic.
  pub distances_to_point_panics :
      (x : Point) (i : ℕ) (is : List ℕ) → 300000 < dim → distances_to_point x (i ∷ is) ≡ panic
  unfolding distances_to_point
  distances_to_point_panics x i is d = ground (arith, chunk_zero d)
