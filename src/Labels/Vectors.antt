-- ===== src/Labels/Vectors.antt =====
-- pointcloud/src/summaries/mod.rs: the summary of vectors. The arithmetic of the floats is a
-- parameter.
use goko.Common.{
  ℕ, suc, ◌+◌, ◌<◌, ◌≡◌, ◌∙◌, refl, ap, true, false, Option, none, some, List, [], ◌∷◌, length, map,
  ◌==◌, is_nil, if◌then◌else◌, ◌>>=◌, arith,
}

pub record VecSummary (F : Type 0) : Type 0 where
  pub moment1 : List F
  pub moment2 : List F
  pub count : ℕ

-- All vectors have the dimension.
abbrev pub AllOf : {F : Type 0} → ℕ → List (List F) → Type 0
AllOf d [] = Unit
AllOf d (v ∷ vs) = (length v ≡ d) × AllOf d vs

module _ {F : Type 0} (plus times : F → F → F) where
  unfoldable pub vec_default : VecSummary F
  vec_default = record { moment1 = []; moment2 = []; count = 0 }

  -- `ms.iter_mut().zip(xs).for_each(|(m, x)| *m += x)`
  unfoldable pub add_zip : List F → List F → List F
  add_zip [] xs = []
  add_zip (m ∷ ms) [] = m ∷ ms
  add_zip (m ∷ ms) (x ∷ xs) = plus m x ∷ add_zip ms xs

  abbrev squares : List F → List F
  squares xs = map (λ x. times x x) xs

  -- `none` is the panic at vectors of two lengths.
  unfoldable pub vec_add : VecSummary F → List F → Option (VecSummary F)
  vec_add s val =
      if is_nil s.moment1
      then some (record s { moment1 = val; moment2 = squares val })
      else if length s.moment1 == length val
      then some (record {
        moment1 = add_zip s.moment1 val;
        moment2 = add_zip s.moment2 (squares val);
        count = s.count + 1;
      })
      else none

  unfoldable pub vec_combine : VecSummary F → VecSummary F → VecSummary F
  vec_combine s other = record {
    moment1 = add_zip s.moment1 other.moment1;
    moment2 = add_zip s.moment2 other.moment2;
    count = s.count + other.count;
  }

  unfoldable pub vec_adds : VecSummary F → List (List F) → Option (VecSummary F)
  vec_adds s [] = some s
  vec_adds s (v ∷ vs) = do s' ← vec_add s v; vec_adds s' vs

  length-add_zip : (ms xs : List F) → length (add_zip ms xs) ≡ length ms
  unfolding add_zip
  length-add_zip [] xs = refl
  length-add_zip (m ∷ ms) [] = refl
  length-add_zip (m ∷ ms) (x ∷ xs) = ap suc (length-add_zip ms xs)

  not_nil : (l : List F) → 0 < length l → is_nil l ≡ false
  not_nil [] h = absurd (omega arith)
  not_nil (x ∷ l) h = refl

  vec_adds_lem :
      (d : ℕ) (vs : List (List F)) (s : VecSummary F)
      → 0 < d
      → length s.moment1 ≡ d
      → AllOf d vs
      → (t : VecSummary F) × (vec_adds s vs ≡ some t)
        × (length t.moment1 ≡ d)
        × (t.count ≡ s.count + length vs)
  unfolding vec_adds vec_add
  vec_adds_lem d [] s h e a = (s, refl, e, omega arith)
  vec_adds_lem d (v ∷ vs) s h e a =
      let s' : VecSummary F = record {
        moment1 = add_zip s.moment1 v;
        moment2 = add_zip s.moment2 (squares v);
        count = s.count + 1;
      } in
      let (t, run, l, c) = vec_adds_lem d vs s' h (length-add_zip s.moment1 v ∙ e) a.1 in
      let some_values = not_nil s.moment1 (omega arith) in
      let same : (length s.moment1 == length v) ≡ true = ground (arith, a.0, e) in
      (t, rw (some_values, same) run, l, omega (arith, c))

  -- Adding one or more vectors of one dimension above 0 to an empty summary does not panic, and the
  -- count that results is one less than the number of vectors: the first is not counted.
  pub vec_adds-count :
      (d : ℕ) (v : List F) (vs : List (List F))
      → 0 < d
      → AllOf d (v ∷ vs)
      → (t : VecSummary F) × (vec_adds vec_default (v ∷ vs) ≡ some t)
        × (length t.moment1 ≡ d)
        × (t.count + 1 ≡ length (v ∷ vs))
  unfolding vec_adds vec_add vec_default
  vec_adds-count d v vs h a =
      let (t, run, l, c) =
        vec_adds_lem d vs (record { moment1 = v; moment2 = squares v; count = 0 }) h a.0 a.1 in
      (t, run, l, omega (arith, c))
