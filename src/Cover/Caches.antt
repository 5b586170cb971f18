-- ===== src/Cover/Caches.antt =====
-- goko/src/covertree/data_caches.rs: the points that a node covers with their distances to its
-- centre, and how the first-come partition splits them.
pub mod Partition
pub mod Pick
use goko.Common.{
  ℕ, zero, suc, ◌+◌, ◌≡◌, Bool, true, false, Option, none, some, List, [], ◌∷◌, ◌++◌, length,
  if◌then◌else◌, is_nil, get_elem?,
}
use goko.Common.Outcome.{Outcome, ok, err, panic, ◌>>=◌, asserted}
use goko.Points.Float.{Float, Cloud}
use goko.Points.Distances.{distances, distance}
use goko.Cover.Node.{GokoError, point_cloud_error}

pub record FirstCoveredData (F : Type 0) : Type 0 where
  pub dists : List F
  pub coverage : List ℕ
  pub center_index : ℕ

pub record UncoveredData : Type 0 where
  pub coverage : List ℕ

-- `?` on a result of the point cloud.
abbrev pub or_point_cloud_error : {A : Type 0} → Option A → Outcome GokoError A
or_point_cloud_error none = err point_cloud_error
or_point_cloud_error (some a) = ok a

-- `Vec::pop`: the last element and the rest.
unfoldable pub pop {ℓ} : {A : Type ℓ} → List A → Option (A × List A)
pop [] = none
pop (x ∷ []) = some (x, [])
pop (x ∷ y ∷ l) = elim (pop (y ∷ l)) [ none ↦ none | some (z, rest) ↦ some (z, x ∷ rest) ]

-- `Vec::remove`: `none` is the panic of an index out of range.
unfoldable pub remove_at {ℓ} : {A : Type ℓ} → ℕ → List A → Option (A × List A)
remove_at i [] = none
remove_at zero (x ∷ l) = some (x, l)
remove_at (suc i) (x ∷ l) = elim (remove_at i l) [
  | none ↦ none
  | some (z, rest) ↦ some (z, x ∷ rest)
]

-- The close indexes, their distances, and the far indexes.
pub record Parts (F : Type 0) : Type 0 where
  pub close_index : List ℕ
  pub close_dist : List F
  pub far : List ℕ

module _ {fl : Float} (cloud : Cloud fl) where
  open fl use {F, lt, neg_inf}
  open cloud use {point, reference_indexes}

  -- `distances_to_point_index`, at the dimensions for which it is the sequential computation.
  unfoldable pub distances_to_index : ℕ → List ℕ → Outcome GokoError (List F)
  distances_to_index i is = do
    x ← or_point_cloud_error (point i)
    or_point_cloud_error (distances cloud x is)

  -- `FirstCoveredData::new`
  unfoldable pub first_new : Outcome GokoError (FirstCoveredData F)
  first_new = do
    (center, coverage) ← asserted (pop reference_indexes)
    dists ← distances_to_index center coverage
    ok (record { dists = dists; coverage = coverage; center_index = center })

module _ (fl : Float) where
  open fl use {F, lt, neg_inf}

  -- The loop over `coverage.iter().zip(&dists)` in `split` and `pick_center`.
  unfoldable pub partition : F → List ℕ → List F → Parts F
  partition radius [] ds = record { close_index = []; close_dist = []; far = [] }
  partition radius (i ∷ is) [] = record { close_index = []; close_dist = []; far = [] }
  partition radius (i ∷ is) (d ∷ ds) =
      let p = partition radius is ds in
      if lt d radius
      then record p { close_index = i ∷ p.close_index; close_dist = d ∷ p.close_dist }
      else record p { far = i ∷ p.far }

  -- `FirstCoveredData::split`
  unfoldable pub first_split : FirstCoveredData F → F → FirstCoveredData F × UncoveredData
  first_split c thresh =
      let p = partition thresh c.coverage c.dists in
      (
        record { dists = p.close_dist; coverage = p.close_index; center_index = c.center_index },
        record { coverage = p.far },
      )

  -- `dists.iter().cloned().fold(-inf, f32::max)`
  unfoldable pub fold_max : F → List F → F
  fold_max m [] = m
  fold_max m (d ∷ ds) = fold_max (if lt m d then d else m) ds

  unfoldable pub max_distance : FirstCoveredData F → F
  unfolding fold_max
  max_distance c = fold_max neg_inf c.dists

module _ {F : Type 0} where
  unfoldable pub covered_len : FirstCoveredData F → ℕ
  covered_len c = length c.coverage + 1

  unfoldable pub into_indexes : FirstCoveredData F → List ℕ
  into_indexes c = c.coverage

unfoldable pub uncovered_len : UncoveredData → ℕ
uncovered_len u = length u.coverage

module _ {fl : Float} (cloud : Cloud fl) where
  open fl use {F, lt, neg_inf}

  -- `UncoveredData::pick_center`; `draw` is `rng.gen_range(0..len)`.
  unfoldable pub pick_center :
      ℕ → UncoveredData → F → Outcome GokoError (FirstCoveredData F × UncoveredData)
  pick_center draw u radius = do
    (center, rest) ← asserted (remove_at draw u.coverage)
    dists ← distances_to_index cloud center rest
    let p = partition fl radius rest dists
    ok (
      record { dists = p.close_dist; coverage = p.close_index; center_index = center },
      record { coverage = p.far },
    )
