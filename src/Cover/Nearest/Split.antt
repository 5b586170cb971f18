-- ===== src/Cover/Nearest/Split.antt =====
-- goko/src/covertree/data_caches.rs: `NearestCoveredData::split`.
use mathlib.Core.List.{Memᴰ, Perm}
use goko.Common.{All, ℕ, ◌≤◌, ◌≡◌, ◌∙◌, refl, ap, true, some, List, [], ◌∷◌, ◌++◌, length}
use goko.Common.Outcome.{ok}
use goko.Points.Float.{Float, Cloud, IsOrder}
use goko.Points.Distances.{distance}
use goko.Cover.Caches.{distances_to_index}
use goko.Cover.Caches.Pick.{Readable}
use goko.Cover.Build.{SmallRng}
use goko.Cover.Build.Grown.{DrawsInRange}
use goko.Cover.Nearest.{NearestCoveredData, Splits, assign_to_nearest, nearest_split}
use goko.Cover.Nearest.Covers.{IsCovered, cover_thyself-IsCovered}
use goko.Cover.Nearest.Rows.{Spread-Rows}
use goko.Cover.Nearest.Held.{points_of}
use goko.Cover.Nearest.Assign.{AreNearest, assign_to_nearest-Assigned}

module _ {fl : Float} (o : IsOrder fl) (cloud : Cloud fl) where
  open fl use {F, lt, max_value}
  open cloud use {Point, point}

  -- A cache without centres, whose points are all readable and whose true distances to its own
  -- centre are finite, is split by `NearestCoveredData::split` without an error, on fuel for its
  -- points, with draws in range, distances that are ordered as floats without NaN are, and points at
  -- less than the radius from themselves: the centres are points of the cache, none nearer to those
  -- before it than the radius, until every point is nearer to one of them than the radius; there is
  -- one cache for the old centre and one for each new one, each holds points to which none of the
  -- centres is nearer, with their distances, and together with dropped centres they hold the points
  -- that were there.
  pub nearest_split-AreNearest :
      (r : F) (small : SmallRng)
      → DrawsInRange small
      → (c : NearestCoveredData F) (rng : small.State) (fuel : ℕ) → c.centers ≡ []
      → c.dists ≡ []
      → distances_to_index cloud c.center_index c.point_indexes ≡ ok c.center_dists
      → All (Readable cloud) c.point_indexes
      → All (λ d. lt d max_value ≡ true) c.center_dists
      → ((p : ℕ) (x : Point) (e : F)
          → Memᴰ p c.point_indexes
          → point p ≡ some x
          → distance cloud x p ≡ some e
          → lt e r ≡ true)
      → length c.point_indexes ≤ fuel
      → (c' : NearestCoveredData F) × (s : Splits cloud) × (rng' : small.State) × (nearest_split
            cloud small fuel r c rng
          ≡ ok (s, rng'))
        × IsCovered cloud r c c'
        × AreNearest cloud c.center_index c'.centers s
        × (dropped : List ℕ) × All (λ p. Memᴰ p (c.center_index ∷ c'.centers)) dropped
        × Perm (s.0.point_indexes ++ points_of cloud s.1 ++ dropped) c.point_indexes
  unfolding nearest_split
  nearest_split-AreNearest r small draws c rng fuel none_yet no_rows row a finite self h =
      let (c', rng', run, f) =
        cover_thyself-IsCovered cloud r small draws c rng fuel none_yet no_rows row a self h in
      let (_, rows) = Spread-Rows cloud f.spread in
      let (s, assigned, near, dropped, centers, perm) =
        assign_to_nearest-Assigned o cloud (record c { centers = c'.centers; dists = c'.dists }) row
          rows finite in
      (
        c',
        s,
        rng',
        rw (run, ap (assign_to_nearest cloud) f.kept ∙ assigned) refl,
        f,
        near,
        dropped,
        centers,
        perm,
      )
