-- ===== src/Discrete/Tests.antt =====
-- The stores of counts of stats_goko at small inputs.
use goko.Common.{ℕ, ◌⊎◌, true, false, ◌≡◌, refl, none, some, List, [], ◌∷◌, ◌>>=◌, arith}
use goko.Common.Int.{pos}
use goko.Address.{NodeAddress, raw}
use goko.Discrete.Params.{DiscreteParams, number, get, new}
use goko.Discrete.Pairs.{Sorted}
use goko.Discrete.Updates.{
  IsWellFormed, all_accepted, Update, adding, replacing, removing, promise_all, counts,
}
use goko.Discrete.Refine.{apply_all, apply_all-refines}
use goko.Discrete.Merge.{
  Item, double_iter, collect, collect-double_iter, places, Paired, lookup_both, both,
}
use goko.Discrete.Data.{DiscreteData, merge, merge-adds, added}

abbrev address : ℕ → NodeAddress
address n = record { na = n }

abbrev updates : List Update
updates =
    adding (address 5) (number (pos 4))
    ∷ adding (address 2) (number (pos 3))
    ∷ replacing (address 5) (number (pos 1))
    ∷ removing (address 2) (number (pos 7))
    ∷ removing (address 9) (number (pos 1))
    ∷ []

apply_all-refines_example :
    (all_accepted updates ≡ false) × (apply_all updates new ≡ none)
    ⊎ (all_accepted updates ≡ true)
      × (p : DiscreteParams) × (apply_all updates new ≡ some p)
      × IsWellFormed p
      × ((loc : NodeAddress) → get loc p ≡ some (promise_all updates (λ k. none) (raw loc)))
apply_all-refines_example = apply_all-refines updates

abbrev first : DiscreteParams
first = record {
  indexes = record { indexes = 0 ∷ 1 ∷ 3 ∷ []; hashed_indexes = none };
  values = 5 ∷ 3 ∷ 4 ∷ [];
  total = 12;
}

abbrev second : DiscreteParams
second = record {
  indexes = record { indexes = 1 ∷ 2 ∷ []; hashed_indexes = none };
  values = 3 ∷ 4 ∷ [];
  total = 7;
}

first-IsWellFormed : IsWellFormed first
first-IsWellFormed = record {
  sorted = ((omega arith, (omega arith, tt)), ((omega arith, tt), (tt, tt)));
  unhashed = refl;
  lengths = refl;
  total = refl;
}

second-IsWellFormed : IsWellFormed second
second-IsWellFormed = record {
  sorted = ((omega arith, tt), (tt, tt));
  unhashed = refl;
  lengths = refl;
  total = refl;
}

collect-double_iter_example :
    (l : List (Item × Item)) × ((do it ← double_iter first second; collect 6 it) ≡ some l)
    × Sorted (places l)
    × Paired l
    × ((k : ℕ) → lookup_both k l ≡ both (counts first k) (counts second k))
collect-double_iter_example =
    collect-double_iter first second 6 first-IsWellFormed second-IsWellFormed (omega arith)

merge-adds_example :
    (d : DiscreteData) × (merge (record { params = first }) (record { params = second }) ≡ some d)
    × IsWellFormed d.params
    × ((loc : NodeAddress)
        → get loc d.params ≡ some (added (counts first (raw loc)) (counts second (raw loc))))
merge-adds_example =
    merge-adds (record { params = first }) (record { params = second }) first-IsWellFormed
      second-IsWellFormed
