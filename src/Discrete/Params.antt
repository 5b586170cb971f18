-- ===== src/Discrete/Params.antt =====
-- The store of counts, parameter_store.rs: sorted indexes with their values beside them. A count
-- that is stored is an `f64` that holds a whole number, and sums of counts stay in the range where an
-- `f64` is exact; a count that is given may also be negative or NaN. Where the code panics the result
-- is `none`.
use goko.Common.{
  ℕ, zero, suc, ◌+◌, ◌-◌, Option, none, some, List, [], ◌∷◌, length, ◌==◌, ltb, if◌then◌else◌,
  get_elem?, set, ◌>>=◌,
}
use goko.Common.Int.{ℤ, pos, negsuc}
use goko.Address.{NodeAddress, raw}

-- The `Result` of `binary_search`.
pub data Search : Type 0 where
  found : ℕ → Search
  missing : ℕ → Search

abbrev pub after : Search → Search
after (found i) = found (suc i)
after (missing i) = missing (suc i)

-- `slice::binary_search` on a sorted slice without repetitions, where its result is determined: the
-- place of the element, or the place where it may be inserted.
unfoldable pub binary_search : ℕ → List ℕ → Search
binary_search x [] = missing 0
binary_search x (y ∷ ys) =
    let rest = binary_search x ys in
    if x == y then found 0 else if ltb x y then missing 0 else after rest

-- `Vec::insert`: `none` is the panic of a place out of range.
unfoldable pub insert {ℓ} : {A : Type ℓ} → ℕ → A → List A → Option (List A)
insert zero a l = some (a ∷ l)
insert (suc i) a [] = none
insert (suc i) a (x ∷ l) = do rest ← insert i a l; some (x ∷ rest)

-- `values[index] = v`
unfoldable pub write {ℓ} : {A : Type ℓ} → ℕ → A → List A → Option (List A)
write i v l = do old ← get_elem? l i; some (set l i v)

pub record DiscreteParamsIndexes : Type 0 where
  pub indexes : List ℕ
  pub hashed_indexes : Option (List (ℕ × ℕ))

pub record DiscreteParams : Type 0 where
  pub indexes : DiscreteParamsIndexes
  pub values : List ℕ
  pub total : ℕ

-- The hash map, as an association list.
abbrev pub hash_get : ℕ → List (ℕ × ℕ) → Option ℕ
hash_get k [] = none
hash_get k ((a, i) ∷ l) = if k == a then some i else hash_get k l

abbrev pub hashed : ℕ → Option (List (ℕ × ℕ)) → Option ℕ
hashed k none = none
hashed k (some hm) = hash_get k hm

abbrev pub enumerate : ℕ → List ℕ → List (ℕ × ℕ)
enumerate i [] = []
enumerate i (a ∷ l) = (a, i) ∷ enumerate (suc i) l

-- The new indexes and values, and the old and new count at the place.
abbrev pub Updated : Type 0
Updated = Option (DiscreteParamsIndexes × List ℕ × (ℕ × ℕ))

unfoldable pub new_indexes : DiscreteParamsIndexes
new_indexes = record { indexes = []; hashed_indexes = none }

-- The map is built and dropped at once.
unfoldable pub enable_hashmap : DiscreteParamsIndexes → DiscreteParamsIndexes
enable_hashmap ix =
    let built : DiscreteParamsIndexes = record ix {
      hashed_indexes = some (enumerate 0 ix.indexes);
    } in
    record built { hashed_indexes = none }

unfoldable pub get_index : NodeAddress → DiscreteParamsIndexes → Option ℕ
get_index loc ix = elim ix.hashed_indexes [
  | some hm ↦ hash_get (raw loc) hm
  | none ↦ elim (binary_search (raw loc) ix.indexes) [ found i ↦ some i | missing i ↦ none ]
]

unfoldable pub get_from : NodeAddress → List ℕ → DiscreteParamsIndexes → Option (Option ℕ)
get_from loc values ix = elim (get_index loc ix) [
  | none ↦ some none
  | some i ↦ do v ← get_elem? values i; some (some v)
]

-- What follows `indexes.insert` in the three places where it stands.
unfoldable pub index_hash : ℕ → ℕ → DiscreteParamsIndexes → DiscreteParamsIndexes
index_hash na i ix = elim ix.hashed_indexes [
  | some hm ↦ record ix { hashed_indexes = some ((na, i) ∷ hm) }
  | none ↦ if ltb 100 (length ix.indexes) then enable_hashmap ix else ix
]

unfoldable pub get_or_insert :
    NodeAddress → DiscreteParamsIndexes → Option (DiscreteParamsIndexes × Search)
get_or_insert loc ix = elim (hashed (raw loc) ix.hashed_indexes) [
  | some i ↦ some (ix, found i)
  | none ↦ elim (binary_search (raw loc) ix.indexes) [
    | found i ↦ some (ix, found i)
    | missing i ↦ do
      indexes ← insert i (raw loc) ix.indexes
      some (index_hash (raw loc) i (record ix { indexes = indexes }), missing i)
  ]
]

-- `let old_pop = values[index]; values[index] = f(old_pop); (old_pop, values[index])`
unfoldable pub update_at : (ℕ → ℕ) → ℕ → List ℕ → DiscreteParamsIndexes → Updated
update_at f i values ix = do
  old_pop ← get_elem? values i
  values' ← write i (f old_pop) values
  new_pop ← get_elem? values' i
  some (ix, values', (old_pop, new_pop))

-- The `Err(index)` branch of `replace` and `add`.
unfoldable pub insert_count : NodeAddress → ℕ → ℕ → List ℕ → DiscreteParamsIndexes → Updated
insert_count loc count i values ix = do
  indexes ← insert i (raw loc) ix.indexes
  values' ← insert i count values
  new_pop ← get_elem? values' i
  some (index_hash (raw loc) i (record ix { indexes = indexes }), values', (0, new_pop))

unfoldable pub replace : NodeAddress → ℕ → List ℕ → DiscreteParamsIndexes → Updated
replace loc count values ix = elim (hashed (raw loc) ix.hashed_indexes) [
  | some i ↦ update_at (λ old. count) i values ix
  | none ↦ elim (binary_search (raw loc) ix.indexes) [
    | found i ↦ update_at (λ old. count) i values ix
    | missing i ↦ insert_count loc count i values ix
  ]
]

unfoldable pub add : NodeAddress → ℕ → List ℕ → DiscreteParamsIndexes → Updated
add loc count values ix = elim (hashed (raw loc) ix.hashed_indexes) [
  | some i ↦ update_at (λ old. old + count) i values ix
  | none ↦ elim (binary_search (raw loc) ix.indexes) [
    | found i ↦ update_at (λ old. old + count) i values ix
    | missing i ↦ insert_count loc count i values ix
  ]
]

-- `if old_pop > count { values[index] -= count } else { values[index] = 0.0 }`
abbrev pub lessened : ℕ → ℕ → ℕ
lessened count old_pop = if ltb count old_pop then old_pop - count else 0

unfoldable pub subtract : NodeAddress → ℕ → List ℕ → DiscreteParamsIndexes → Updated
subtract loc count values ix = elim ix.hashed_indexes [
  | some hm ↦ elim (hash_get (raw loc) hm) [
    | some i ↦ update_at (lessened count) i values ix
    | none ↦ some (ix, values, (0, 0))
  ]
  | none ↦ elim (binary_search (raw loc) ix.indexes) [
    | found i ↦ update_at (lessened count) i values ix
    | missing i ↦ some (ix, values, (0, 0))
  ]
]

unfoldable pub new : DiscreteParams
new = record { indexes = new_indexes; values = []; total = 0 }

unfoldable pub len : DiscreteParams → ℕ
len p = length p.values

-- A count as a caller gives it.
pub data Amount : Type 0 where
  number : ℤ → Amount
  not_a_number : Amount

-- `assert!(count >= 0.0)`: NaN fails the test.
abbrev pub assert_count : Amount → Option ℕ
assert_count (number (pos count)) = some count
assert_count (number (negsuc n)) = none
assert_count not_a_number = none

unfoldable pub add_pop : NodeAddress → Amount → DiscreteParams → Option (DiscreteParams × (ℕ × ℕ))
add_pop loc amount p = do
  count ← assert_count amount
  (indexes, values, pops) ← add loc count p.values p.indexes
  some (record { indexes = indexes; values = values; total = p.total + count }, pops)

-- `self.total += new - old`; the total is never below `old - new` (see Refine).
unfoldable pub replace_pop :
    NodeAddress → Amount → DiscreteParams → Option (DiscreteParams × (ℕ × ℕ))
replace_pop loc amount p = do
  count ← assert_count amount
  (indexes, values, (old, new)) ← replace loc count p.values p.indexes
  some (record { indexes = indexes; values = values; total = p.total + new - old }, (old, new))

unfoldable pub remove_pop :
    NodeAddress → Amount → DiscreteParams → Option (DiscreteParams × (ℕ × ℕ))
remove_pop loc amount p = do
  count ← assert_count amount
  (indexes, values, (old, new)) ← subtract loc count p.values p.indexes
  some (record { indexes = indexes; values = values; total = p.total + new - old }, (old, new))

-- `none` is the panic of a value out of range.
unfoldable pub get : NodeAddress → DiscreteParams → Option (Option ℕ)
get loc p = elim (get_index loc p.indexes) [
  | none ↦ some none
  | some i ↦ do v ← get_elem? p.values i; some (some v)
]
