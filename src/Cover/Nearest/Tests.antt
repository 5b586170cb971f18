-- ===== src/Cover/Nearest/Tests.antt =====
-- goko/src/covertree/data_caches.rs: the nearest partition of the four points of `line`.
use mathlib.Core.List.{Memᴰ, Perm}
use goko.Common.{
  All, List, ℕ, suc, ◌≡◌, ◌<◌, ◌+◌, ◌-◌, lt→ltb, Option, refl, some, [], ◌∷◌, ◌++◌, arith,
  get_elem?,
}
use goko.Common.Outcome.{ok}
use goko.Points.Tests.{line, naturals-IsOrder}
use goko.Points.Distances.{distance, distances}
use goko.Cover.Caches.{distances_to_index}
use goko.Cover.Build.{SmallRng}
use goko.Cover.Nearest.{NearestCoveredData, Splits, nearest_split}
use goko.Cover.Nearest.Covers.{IsCovered}
use goko.Cover.Nearest.Held.{points_of}
use goko.Cover.Nearest.Assign.{AreNearest}
use goko.Cover.Nearest.Split.{nearest_split-AreNearest}

abbrev cache : NearestCoveredData ℕ
cache = record {
  centers = [];
  dists = [];
  point_indexes = 0 ∷ 1 ∷ 2 ∷ [];
  center_dists = 1 ∷ 2 ∷ 9 ∷ [];
  center_index = 3;
}

abbrev last_drawn : SmallRng
last_drawn = record { State = ℕ; seeded = λ a. 0; gen_range = λ n s. (n - 1, suc s) }

cache_row : distances_to_index (line 1) 3 (0 ∷ 1 ∷ 2 ∷ []) ≡ ok (1 ∷ 2 ∷ 9 ∷ [])
unfolding distances_to_index distances distance
cache_row = refl

self_near :
    (p x e : ℕ) → get_elem? (1 ∷ 2 ∷ 9 ∷ 0 ∷ []) p ≡ some x → distance (line 1) x p ≡ some e → e < 2
unfolding distance
self_near p x e there run =
    let got : ◌≡◌ {A = Option ℕ} (some ((x - x) + (x - x))) (some e) = rw there at run in
    let zero_apart : (x - x) + (x - x) ≡ e = cc in omega arith

nearest_split-AreNearest_example :
    (c' : NearestCoveredData ℕ) × (s : Splits (line 1)) × (rng : ℕ) × (nearest_split
        (line 1)
        last_drawn
        3
        2
        cache
        0
      ≡ ok (s, rng))
    × IsCovered (line 1) 2 cache c'
    × AreNearest (line 1) 3 c'.centers s
    × (dropped : List ℕ) × All (λ p. Memᴰ p (3 ∷ c'.centers)) dropped
    × Perm (s.0.point_indexes ++ points_of (line 1) s.1 ++ dropped) (0 ∷ 1 ∷ 2 ∷ [])
nearest_split-AreNearest_example =
    nearest_split-AreNearest naturals-IsOrder (line 1) 2 last_drawn (λ n s h. omega arith) cache 0 3
      refl refl cache_row ((1, refl), ((2, refl), ((9, refl), tt))) (refl, (refl, (refl, tt)))
      (λ p x e mem there run. lt→ltb e 2 (self_near p x e there run)) (omega arith)
