-- ===== src/Points/Tests.antt =====
-- pointcloud/src/base_traits.rs: the distances on a cloud of four points on a line.
use goko.Common.{
  none, some, ◌≤◌, ◌<◌, ◌⊎◌, ℕ_discrete, refl, false, ◌>>=◌, ℕ, ◌-◌, ◌+◌, ◌^◌, ◌≡◌, [], ◌∷◌,
  get_elem?, ltb, arith,
}
use goko.Common.Int.{ℤ, pos, negsuc}
use goko.Common.Outcome.{ok, panic}
use goko.Points.Float.{Float, Cloud, IsOrder}
use goko.Monomap.Table.{get}
use goko.Points.Glued.{
  Source, HashGluedCloud, glued_point, in_turn, glued_point-in_turn, reindex, renamed,
  reindex-renamed, get_address, glued_len, get_address-glued_len,
}
use goko.Points.Glued
use goko.Points.Distances.{
  distances, result, distances_to_point, distances_to_point-eq-distances, distances_to_point_panics,
}

abbrev pub powers : ℤ → ℕ
powers (pos n) = 2 ^ n
powers (negsuc n) = 0

abbrev pub naturals : Float
naturals = record {
  F = ℕ;
  lt = ltb;
  zero_value = 0;
  max_value = 1000;
  neg_inf = 0;
  sub = λ a b. a - b;
  powi = powers;
  log_ceil = λ d. pos 3;
}

pub naturals-IsOrder : IsOrder naturals
naturals-IsOrder = record {
  irrefl = λ a. ground arith;
  trans = λ a b c x y. ground arith;
  split = λ a b c x. ground arith;
}

abbrev pub line : ℕ → Cloud naturals
line dim = record {
  Point = ℕ;
  point = λ i. get_elem? (1 ∷ 2 ∷ 9 ∷ 0 ∷ []) i;
  dist = λ a b. (a - b) + (b - a);
  reference_indexes = 0 ∷ 1 ∷ 2 ∷ 3 ∷ [];
  dim = dim;
}

distances_to_point-eq-distances_example :
    distances_to_point (line 100000) 5 (0 ∷ 1 ∷ 2 ∷ 3 ∷ 0 ∷ 1 ∷ 2 ∷ 3 ∷ 1 ∷ 1 ∷ [])
    ≡ result (distances (line 100000) 5 (0 ∷ 1 ∷ 2 ∷ 3 ∷ 0 ∷ 1 ∷ 2 ∷ 3 ∷ 1 ∷ 1 ∷ []))
distances_to_point-eq-distances_example =
    distances_to_point-eq-distances (line 100000) 5 (0 ∷ 1 ∷ 2 ∷ 3 ∷ 0 ∷ 1 ∷ 2 ∷ 3 ∷ 1 ∷ 1 ∷ [])
      (omega arith) (omega arith)

distances_to_point_panics_example : distances_to_point (line 400000) 5 (0 ∷ []) ≡ panic
distances_to_point_panics_example = distances_to_point_panics (line 400000) 5 0 [] (omega arith)

abbrev low : Source ℕ
low = record { size = 2; is_empty = false; point = λ j. get_elem? (10 ∷ 11 ∷ []) j }

abbrev high : Source ℕ
high = record { size = 3; is_empty = false; point = λ j. get_elem? (20 ∷ 21 ∷ 22 ∷ []) j }

glued_point-in_turn_example :
    glued_point 3 (Glued.new (low ∷ high ∷ [])) ≡ in_turn (low ∷ high ∷ []) 3
glued_point-in_turn_example = glued_point-in_turn (low ∷ high ∷ []) 3

abbrev swapped : HashGluedCloud ℕ
swapped = record { addresses = (0, (0, 0)) ∷ (1, (0, 1)) ∷ []; data_sources = low ∷ [] }

reindex-renamed_example :
    (d : HashGluedCloud ℕ) × (reindex ((0, 7) ∷ (1, 8) ∷ []) swapped ≡ ok d)
    × ((k : ℕ) → glued_point k d ≡ (do o ← renamed k ((0, 7) ∷ (1, 8) ∷ []); glued_point o swapped))
unfolding get_address get ℕ_discrete
reindex-renamed_example =
    reindex-renamed ((0, 7) ∷ (1, 8) ∷ []) swapped refl (((0, 0), refl), (((0, 1), refl), tt))

get_address-glued_len_example :
    (glued_len (Glued.new (low ∷ high ∷ [])) ≤ 3)
      × (get_address 3 (Glued.new (low ∷ high ∷ [])) ≡ none)
    ⊎ (3 < glued_len (Glued.new (low ∷ high ∷ [])))
      × (a : ℕ × ℕ) × (get_address 3 (Glued.new (low ∷ high ∷ [])) ≡ some a)
      × (s : Source ℕ) × (get_elem? (low ∷ high ∷ []) a.0 ≡ some s)
      × (a.1 < s.size)
get_address-glued_len_example = get_address-glued_len (low ∷ high ∷ []) 3
