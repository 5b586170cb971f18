-- ===== src/Cover/Nearest.antt =====
-- goko/src/covertree/data_caches.rs: the points that a node covers, for the nearest partition, and
-- the centres that are picked to cover them at a smaller radius.
pub mod Marks
pub mod Covers
pub mod Rows
pub mod Held
pub mod Assign
pub mod Split
mod Tests
use goko.Common.{
  ℕ, zero, suc, Bool, true, false, Option, none, some, List, [], ◌∷◌, ◌++◌, length, map, ◌||◌, ◌+◌,
  if◌then◌else◌, get_elem?, is_nil, not, ◌==◌,
}
use goko.Common.Outcome.{Outcome, ok, err, panic, ◌>>=◌, asserted}
use goko.Points.Float.{Float, Cloud}
use goko.Cover.Node.{GokoError}
use goko.Cover.Caches.{pop, fold_max, distances_to_index}
use goko.Cover.Node.Children.{min_by}
use goko.Cover.Build.{SmallRng}

pub record NearestCoveredData (F : Type 0) : Type 0 where
  pub centers : List ℕ
  pub dists : List (List F)
  pub point_indexes : List ℕ
  pub center_dists : List F
  pub center_index : ℕ

-- The points whose mark is false: `zip(&coverage).filter(|(_, b)| !**b)`.
unfoldable pub uncovered : List ℕ → List Bool → List ℕ
uncovered (p ∷ ps) (b ∷ bs) = if b then uncovered ps bs else p ∷ uncovered ps bs
uncovered _ _ = []

-- `coverage.iter().any(|b| !b)`
unfoldable pub any_uncovered : List Bool → Bool
any_uncovered [] = false
any_uncovered (b ∷ bs) = not b || any_uncovered bs

module _ {F : Type 0} where
  -- `NearestCoveredData::add_point`
  unfoldable pub add_point : ℕ → F → NearestCoveredData F → NearestCoveredData F
  add_point p d c = if p == c.center_index then c else record c {
    center_dists = c.center_dists ++ d ∷ [];
    point_indexes = c.point_indexes ++ p ∷ [];
  }

  unfoldable pub nearest_into_indexes : NearestCoveredData F → List ℕ
  nearest_into_indexes c = c.point_indexes

  unfoldable pub nearest_len : NearestCoveredData F → ℕ
  nearest_len c = length c.point_indexes + 1

module _ (fl : Float) where
  open fl use {F, lt, neg_inf}

  -- `coverage.iter_mut().zip(&new_dists)`: a mark becomes true where the distance is below the radius.
  unfoldable pub mark : F → List Bool → List F → List Bool
  mark radius (b ∷ bs) (d ∷ ds) = (b || lt d radius) ∷ mark radius bs ds
  mark radius bs _ = bs

  unfoldable pub nearest_max_distance : NearestCoveredData F → F
  nearest_max_distance c = fold_max fl neg_inf c.center_dists

module _ {fl : Float} (cloud : Cloud fl) where
  open fl use {F, lt}
  open cloud use {reference_indexes}

  -- `dists.iter().map(|dists| dists[i])`
  unfoldable pub column : ℕ → List (List F) → Outcome GokoError (List F)
  column i [] = ok []
  column i (row ∷ rows) = do d ← asserted (get_elem? row i); ds ← column i rows; ok (d ∷ ds)

  -- `new_coverage[index].add_point(*pi, d)`
  unfoldable pub add_at :
      ℕ → ℕ → F → List (NearestCoveredData F) → Outcome GokoError (List (NearestCoveredData F))
  add_at index p d [] = panic
  add_at zero p d (c ∷ cs) = ok (add_point p d c ∷ cs)
  add_at (suc index) p d (c ∷ cs) = do cs' ← add_at index p d cs; ok (c ∷ cs')

  abbrev pub Splits : Type 0
  Splits = NearestCoveredData F × List (NearestCoveredData F)

  -- The choice between the cache's own centre, at `z`, and the nearest of the others.
  unfoldable pub assign_point : ℕ → F → ℕ × F → Splits → Outcome GokoError Splits
  assign_point p z best s =
      if lt z best.1
      then ok (add_point p z s.0, s.1)
      else do splits ← add_at best.0 p best.1 s.1; ok (s.0, splits)

  -- `for (i, pi) in self.point_indexes.iter().enumerate()`, from the index `i` on.
  unfoldable pub assign_from : NearestCoveredData F → ℕ → List ℕ → Splits → Outcome GokoError Splits
  assign_from c i [] s = ok s
  assign_from c i (p ∷ ps) s = do
    ds ← column i c.dists
    z ← asserted (get_elem? c.center_dists i)
    s' ← assign_point p z (min_by cloud ds) s
    assign_from c (suc i) ps s'

  abbrev pub empty_cache : ℕ → NearestCoveredData F
  empty_cache m = record {
    centers = [];
    dists = [];
    point_indexes = [];
    center_dists = [];
    center_index = m;
  }

  -- `NearestCoveredData::assign_to_nearest`
  unfoldable pub assign_to_nearest : NearestCoveredData F → Outcome GokoError Splits
  assign_to_nearest c =
      assign_from c 0 c.point_indexes (empty_cache c.center_index, map empty_cache c.centers)

  -- `NearestCoveredData::new`
  unfoldable pub nearest_new : Outcome GokoError (NearestCoveredData F)
  nearest_new = do
    (center, points) ← asserted (pop reference_indexes)
    dists ← distances_to_index cloud center points
    ok (record {
      centers = [];
      dists = [];
      point_indexes = points;
      center_dists = dists;
      center_index = center;
    })

  module _ (small : SmallRng) where
    open small use {State, gen_range}

    -- `uncovered_indexes.choose(rng).unwrap()`: an empty list is not drawn from.
    unfoldable pub choose : List ℕ → State → Outcome GokoError (ℕ × State)
    choose [] rng = panic
    choose (i ∷ is) rng = do
      let (draw, rng') = gen_range (length (i ∷ is)) rng
      center ← asserted (get_elem? (i ∷ is) draw)
      ok (center, rng')

    -- `while coverage.iter().any(|b| !b)`, on fuel: each turn covers at least the centre it picks.
    unfoldable pub cover_loop :
        ℕ
        → F
        → List Bool
        → NearestCoveredData F
        → State
        → Outcome GokoError (NearestCoveredData F × State)
    cover_loop zero radius coverage c rng = if any_uncovered coverage then panic else ok (c, rng)
    cover_loop (suc fuel) radius coverage c rng =
        if not (any_uncovered coverage) then ok (c, rng) else do
          (center, rng') ← choose (uncovered c.point_indexes coverage) rng
          new_dists ← distances_to_index cloud center c.point_indexes
          cover_loop fuel radius (mark fl radius coverage new_dists)
              (record c { dists = c.dists ++ new_dists ∷ []; centers = c.centers ++ center ∷ [] })
              rng'

    -- `NearestCoveredData::cover_thyself`
    unfoldable pub cover_thyself :
        ℕ → F → NearestCoveredData F → State → Outcome GokoError (NearestCoveredData F × State)
    cover_thyself fuel radius c rng =
        cover_loop fuel radius (map (λ d. lt d radius) c.center_dists) c rng

    -- `NearestCoveredData::split`
    unfoldable pub nearest_split :
        ℕ → F → NearestCoveredData F → State → Outcome GokoError (Splits × State)
    nearest_split fuel radius c rng = do
      (covered, rng') ← cover_thyself fuel radius c rng
      s ← assign_to_nearest covered
      ok (s, rng')
