-- ===== src/Labels/Category.antt =====
-- pointcloud/src/summaries/mod.rs: the summary of a small number of categories.
use goko.Common.{
  ℕ, suc, ◌+◌, ◌≡◌, ◌∙◌, Bool, true, false, List, [], ◌∷◌, ◌==◌, ◌&&◌, not, if◌then◌else◌, arith,
}
use goko.Common.Int.{ℤ, pos, negsuc}

-- `==` on `i64`.
abbrev pub same_label : ℤ → ℤ → Bool
same_label (pos a) (pos b) = a == b
same_label (negsuc a) (negsuc b) = a == b
same_label (pos a) (negsuc b) = false
same_label (negsuc a) (pos b) = false

pub record CategorySummary : Type 0 where
  pub items : List (ℤ × ℕ)

unfoldable pub category_default : CategorySummary
category_default = record { items = [] }

-- The loop that `add` and `combine` share: the first stored value that is the same gets `count`
-- more, or the value is pushed.
unfoldable pub bump : ℤ → ℕ → List (ℤ × ℕ) → List (ℤ × ℕ)
bump val count [] = (val, count) ∷ []
bump val count ((stored_val, totals) ∷ items) =
    let rest = bump val count items in
    if same_label val stored_val
    then (stored_val, totals + count) ∷ items
    else (stored_val, totals) ∷ rest

unfoldable pub category_add : CategorySummary → ℤ → CategorySummary
category_add s val = record { items = bump val 1 s.items }

unfoldable pub bump_all : List (ℤ × ℕ) → List (ℤ × ℕ) → List (ℤ × ℕ)
bump_all [] items = items
bump_all ((val, count) ∷ other) items = bump_all other (bump val count items)

unfoldable pub category_combine : CategorySummary → CategorySummary → CategorySummary
category_combine s other = record { items = bump_all other.items s.items }

abbrev sum_counts : List (ℤ × ℕ) → ℕ
sum_counts [] = 0
sum_counts ((a, b) ∷ items) = b + sum_counts items

unfoldable pub category_count : CategorySummary → ℕ
category_count s = sum_counts s.items

abbrev pub category_adds : CategorySummary → List ℤ → CategorySummary
category_adds s [] = s
category_adds s (v ∷ vs) = category_adds (category_add s v) vs

-- How often the summary has seen a value.
abbrev pub tally : ℤ → List (ℤ × ℕ) → ℕ
tally k [] = 0
tally k ((a, b) ∷ items) = if same_label k a then b + tally k items else tally k items

-- How often a value stands in a list of labels.
abbrev pub occurrences : ℤ → List ℤ → ℕ
occurrences k [] = 0
occurrences k (v ∷ vs) = if same_label k v then suc (occurrences k vs) else occurrences k vs

same_label-eq : (a b : ℤ) → same_label a b ≡ true → a ≡ b
same_label-eq a b e = ground arith

tally-bump :
    (k val : ℤ) (count : ℕ) (items : List (ℤ × ℕ))
    → tally k (bump val count items) ≡ tally k items + (if same_label k val then count else 0)
unfolding bump
tally-bump k val count [] = ground arith
tally-bump k val count ((a, b) ∷ items) =
    ground (arith, tally-bump k val count items, same_label-eq val a)

tally-bump_all :
    (k : ℤ) (other items : List (ℤ × ℕ))
    → tally k (bump_all other items) ≡ tally k items + tally k other
unfolding bump_all
tally-bump_all k [] items = omega arith
tally-bump_all k ((a, b) ∷ other) items =
    ground (arith, tally-bump_all k other (bump a b items), tally-bump k a b items)

tally-adds :
    (k : ℤ) (s : CategorySummary) (vs : List ℤ)
    → tally k (category_adds s vs).items ≡ tally k s.items + occurrences k vs
unfolding category_add
tally-adds k s [] = omega arith
tally-adds k s (v ∷ vs) =
    ground (arith, tally-adds k (category_add s v) vs, tally-bump k v 1 s.items)

pub sum_counts-bump :
    (val : ℤ) (count : ℕ) (items : List (ℤ × ℕ))
    → sum_counts (bump val count items) ≡ sum_counts items + count
unfolding bump
sum_counts-bump val count [] = omega arith
sum_counts-bump val count ((a, b) ∷ items) = ground (arith, sum_counts-bump val count items)

pub sum_counts-bump_all :
    (other items : List (ℤ × ℕ))
    → sum_counts (bump_all other items) ≡ sum_counts items + sum_counts other
unfolding bump_all
sum_counts-bump_all [] items = omega arith
sum_counts-bump_all ((a, b) ∷ other) items =
    omega (arith, sum_counts-bump_all other (bump a b items), sum_counts-bump a b items)

-- How many entries a summary has for a value.
abbrev pub entries : ℤ → List (ℤ × ℕ) → ℕ
entries k [] = 0
entries k ((a, b) ∷ items) = if same_label k a then suc (entries k items) else entries k items

-- The entries of a value that may be there already.
abbrev one_if : Bool → ℕ → ℕ
one_if seen n = if seen && (n == 0) then 1 else n

entries-bump :
    (k val : ℤ) (count : ℕ) (items : List (ℤ × ℕ))
    → entries k (bump val count items) ≡ one_if (same_label k val) (entries k items)
unfolding bump
entries-bump k val count [] = ground arith
entries-bump k val count ((a, b) ∷ items) =
    ground (arith, entries-bump k val count items, same_label-eq val a)

entries-bump_all :
    (k : ℤ) (other items : List (ℤ × ℕ))
    → entries k (bump_all other items) ≡ one_if (not (entries k other == 0)) (entries k items)
unfolding bump_all
entries-bump_all k [] items = ground arith
entries-bump_all k ((a, b) ∷ other) items =
    ground (arith, entries-bump_all k other (bump a b items), entries-bump k a b items)

entries-adds :
    (k : ℤ) (s : CategorySummary) (vs : List ℤ)
    → entries k (category_adds s vs).items
      ≡ one_if (not (occurrences k vs == 0)) (entries k s.items)
unfolding category_add
entries-adds k s [] = ground arith
entries-adds k s (v ∷ vs) =
    ground (arith, entries-adds k (category_add s v) vs, entries-bump k v 1 s.items)

-- The summary that `combine` makes of the summaries of two lists of labels has exactly one entry for
-- a value that occurs in the lists, with the number of its occurrences in the two together, and none
-- for a value that does not occur.
pub category_combine-occurrences :
    (k : ℤ) (vs ws : List ℤ)
    → (entries k
          (category_combine
            (category_adds category_default vs)
            (category_adds category_default ws)).items
        ≡ (if occurrences k vs + occurrences k ws == 0 then 0 else 1))
      × (tally k
            (category_combine
              (category_adds category_default vs)
              (category_adds category_default ws)).items
          ≡ occurrences k vs + occurrences k ws)
unfolding category_combine category_default
category_combine-occurrences k vs ws = (
  ground (
    arith,
    entries-bump_all k (category_adds category_default ws).items
        (category_adds category_default vs).items,
    entries-adds k category_default vs,
    entries-adds k category_default ws,
  ),
  tally-bump_all k (category_adds category_default ws).items
        (category_adds category_default vs).items
      ∙ omega (arith, tally-adds k category_default vs, tally-adds k category_default ws),
)
