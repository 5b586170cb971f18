-- ===== src/Labels/Counter.antt =====
-- pointcloud/src/base_traits.rs: the `Summary` trait and `SummaryCounter`, which counts the labels
-- that are missing or failed beside the summary of those that are there.
use goko.Common.{ℕ, suc, ◌+◌, ◌≡◌, refl, Option, none, some, List, [], ◌∷◌, arith}
use goko.Common.Int.{ℤ}
use goko.Labels.Category.{
  CategorySummary, category_default, category_add, category_combine, category_count,
  sum_counts-bump, sum_counts-bump_all,
}

pub record Summary : Type 1 where
  pub S : Type 0
  pub Label : Type 0
  pub default : S
  pub add : S → Label → S
  pub combine : S → S → S
  pub count : S → ℕ

-- What a summary promises of its count.
pub record Counts (s : Summary) : Type 0 where
  pub count-default : s.count s.default ≡ 0
  pub count-add : (a : s.S) (v : s.Label) → s.count (s.add a v) ≡ s.count a + 1
  pub count-combine : (a b : s.S) → s.count (s.combine a b) ≡ s.count a + s.count b

-- `PointCloudResult<Option<&Label>>`
pub data LabelResult (L : Type 0) : Type 0 where
  failed : LabelResult L
  read : Option L → LabelResult L

pub record SummaryCounter (S : Type 0) : Type 0 where
  pub summary : S
  pub nones : ℕ
  pub errors : ℕ

module _ (s : Summary) where
  open s use {S, Label}

  unfoldable pub counter_default : SummaryCounter S
  counter_default = record { summary = s.default; nones = 0; errors = 0 }

  unfoldable pub counter_add : SummaryCounter S → LabelResult Label → SummaryCounter S
  counter_add c (read (some val)) = record c { summary = s.add c.summary val }
  counter_add c (read none) = record c { nones = c.nones + 1 }
  counter_add c failed = record c { errors = c.errors + 1 }

  unfoldable pub counter_combine : SummaryCounter S → SummaryCounter S → SummaryCounter S
  counter_combine c other = record {
    summary = s.combine c.summary other.summary;
    nones = c.nones + other.nones;
    errors = c.errors + other.errors;
  }

  unfoldable pub counter_count : SummaryCounter S → ℕ
  counter_count c = s.count c.summary + c.nones + c.errors

  abbrev pub counter_adds : SummaryCounter S → List (LabelResult Label) → SummaryCounter S
  counter_adds c [] = c
  counter_adds c (v ∷ vs) = counter_adds (counter_add c v) vs

  count-add :
      Counts s
      → (c : SummaryCounter S) (v : LabelResult Label)
      → counter_count (counter_add c v) ≡ counter_count c + 1
  unfolding counter_count counter_add
  count-add k c (read (some val)) = omega (arith, k.count-add c.summary val)
  count-add k c (read none) = omega arith
  count-add k c failed = omega arith

  -- The labels that are there, and how many are missing or failed.
  abbrev pub labels : List (LabelResult Label) → List Label
  labels [] = []
  labels (read (some v) ∷ vs) = v ∷ labels vs
  labels (read none ∷ vs) = labels vs
  labels (failed ∷ vs) = labels vs

  abbrev pub missing : List (LabelResult Label) → ℕ
  missing [] = 0
  missing (read (some v) ∷ vs) = missing vs
  missing (read none ∷ vs) = suc (missing vs)
  missing (failed ∷ vs) = missing vs

  abbrev pub failures : List (LabelResult Label) → ℕ
  failures [] = 0
  failures (read (some v) ∷ vs) = failures vs
  failures (read none ∷ vs) = failures vs
  failures (failed ∷ vs) = suc (failures vs)

  abbrev pub add_labels : S → List Label → S
  add_labels a [] = a
  add_labels a (v ∷ vs) = add_labels (s.add a v) vs

  -- Two counters, filled and combined.
  abbrev pub both_counted : List (LabelResult Label) → List (LabelResult Label) → SummaryCounter S
  both_counted vs ws =
      counter_combine (counter_adds counter_default vs) (counter_adds counter_default ws)

abbrev pub category : Summary
category = record {
  S = CategorySummary;
  Label = ℤ;
  default = category_default;
  add = category_add;
  combine = category_combine;
  count = category_count;
}

-- The summary of categories keeps the promise.
pub category-Counts : Counts category
unfolding category_default category_add category_combine category_count
category-Counts = record {
  count-default = refl;
  count-add = λ a v. sum_counts-bump v 1 a.items;
  count-combine = λ a b. sum_counts-bump_all b.items a.items;
}
