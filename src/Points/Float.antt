-- ===== src/Points/Float.antt =====
-- The distances: `f32` without NaN, as a type with its comparison and the operations that the tree
-- uses, and a point cloud over it. The values and the metric are the cloud's own.
use goko.Common.{ℕ, ◌≡◌, ◌⊎◌, Bool, true, false, Option, List}
use goko.Common.Int.{ℤ}

pub record Float : Type 1 where
  pub F : Type 0
  -- `a < b`
  pub lt : F → F → Bool
  pub zero_value : F
  -- `std::f32::MAX`
  pub max_value : F
  -- `-1. / 0.`
  pub neg_inf : F
  pub sub : F → F → F
  -- `scale_base.powi(si)` and `d.log(scale_base).ceil() as i32`
  pub powi : ℤ → F
  pub log_ceil : F → ℤ

-- What holds of `<` on floats that are not NaN.
pub record IsOrder (fl : Float) : Type 0 where
  pub irrefl : (a : fl.F) → fl.lt a a ≡ false
  pub trans : (a b c : fl.F) → fl.lt a b ≡ true → fl.lt b c ≡ true → fl.lt a c ≡ true
  pub split : (a b c : fl.F) → fl.lt a c ≡ true → (fl.lt a b ≡ true) ⊎ (fl.lt b c ≡ true)

-- `PointCloud`: `none` is a `PointCloudError`.
pub record Cloud (fl : Float) : Type 1 where
  pub Point : Type 0
  pub point : ℕ → Option Point
  pub dist : Point → Point → fl.F
  pub reference_indexes : List ℕ
  pub dim : ℕ
