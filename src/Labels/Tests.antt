-- ===== src/Labels/Tests.antt =====
-- The summaries of labels at small inputs.
use goko.Common.{
  ◌==◌, if◌then◌else◌, ℕ, ◌+◌, ◌*◌, ◌≡◌, refl, none, some, List, [], ◌∷◌, length, arith,
}
use goko.Common.Int.{ℤ, pos, negsuc}
use goko.Labels.Category.{
  CategorySummary, entries, category_combine, category_adds, category_default, tally, occurrences,
  category_combine-occurrences,
}
use goko.Labels.Vectors.{VecSummary, vec_adds, vec_default, vec_adds-count}
use goko.Labels.Counter.{LabelResult, failed, read}

abbrev left_labels : List ℤ
left_labels = pos 1 ∷ pos 0 ∷ pos 1 ∷ []

abbrev right_labels : List ℤ
right_labels = negsuc 0 ∷ pos 1 ∷ []

abbrev combined : CategorySummary
combined =
    category_combine (category_adds category_default left_labels)
      (category_adds category_default right_labels)

category_combine-occurrences_example :
    (entries (pos 1) combined.items
      ≡ (if occurrences (pos 1) left_labels + occurrences (pos 1) right_labels == 0 then 0 else 1))
    × (tally (pos 1) combined.items
        ≡ occurrences (pos 1) left_labels + occurrences (pos 1) right_labels)
category_combine-occurrences_example = category_combine-occurrences (pos 1) left_labels right_labels

abbrev left_results : List (LabelResult ℤ)
left_results = read (some (pos 1)) ∷ failed ∷ read none ∷ []

abbrev right_results : List (LabelResult ℤ)
right_results = read (some (pos 1)) ∷ read (some (pos 2)) ∷ []

abbrev plus : ℕ → ℕ → ℕ
plus a b = a + b

abbrev times : ℕ → ℕ → ℕ
times a b = a * b

vec_adds-count_example :
    (t : VecSummary ℕ) × (vec_adds plus times
        (vec_default plus times)
        ((1 ∷ 2 ∷ []) ∷ (3 ∷ 4 ∷ []) ∷ [])
      ≡ some t)
    × (length t.moment1 ≡ 2)
    × (t.count + 1 ≡ 2)
vec_adds-count_example =
    vec_adds-count plus times 2 (1 ∷ 2 ∷ []) ((3 ∷ 4 ∷ []) ∷ []) (omega arith) (refl, (refl, tt))
