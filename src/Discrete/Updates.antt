-- ===== src/Discrete/Updates.antt =====
-- parameter_store.rs: what one update does to the lists of the store.
use goko.Common.{
  ℕ, ◌+◌, ◌-◌, ◌≡◌, sym, Option, none, some, List, [], ◌∷◌, length, ◌==◌, ltb, if◌then◌else◌, arith,
  Bool, true, false, ◌&&◌, Bool-cases, inl, inr, unwrap_or, ==_iff,
}
use goko.Common.Int.{pos, negsuc}
use goko.Address.{NodeAddress, raw}
use goko.Discrete.Params.{
  found, missing, DiscreteParamsIndexes, DiscreteParams, Updated, enable_hashmap, index_hash,
  update_at, insert_count, Amount, number, not_a_number, add_pop, replace_pop, remove_pop, new,
}
use goko.Discrete.Pairs.{zip, lookup, put, sum, Sorted, Located, lookup-put_self, lookup-put_ne}

-- The pairs of a store.
abbrev pub pairs : DiscreteParams → List (ℕ × ℕ)
pairs p = zip p.indexes.indexes p.values

-- The indexes are strictly sorted with a value each, the hash map is not in use, and the total is
-- the sum of the values.
pub record IsWellFormed (p : DiscreteParams) : Type 0 where
  pub sorted : Sorted p.indexes.indexes
  pub unhashed : p.indexes.hashed_indexes ≡ none
  pub lengths : length p.indexes.indexes ≡ length p.values
  pub total : p.total ≡ sum p.values

-- The sum goes from `old` to `new`, and `x` now reads as `now`; nothing else changes.
pub record Puts (x : ℕ) (p : DiscreteParams) (ix : DiscreteParamsIndexes) (vs : List ℕ)
    (old new : ℕ) (now : Option ℕ) : Type 0 where
  pub sorted : Sorted ix.indexes
  pub unhashed : ix.hashed_indexes ≡ none
  pub lengths : length ix.indexes ≡ length vs
  pub sums : sum vs + old ≡ sum p.values + new
  pub seen : (k : ℕ) → lookup k (zip ix.indexes vs) ≡ (if k == x then now else lookup k (pairs p))

index_hash_lem :
    (na i : ℕ) (ix : DiscreteParamsIndexes) → ix.hashed_indexes ≡ none → index_hash na i ix ≡ ix
unfolding index_hash enable_hashmap
index_hash_lem na i ix e =
    rw e (elim (Bool-cases (ltb 100 (length ix.indexes))) [ inl many ↦ rw many | inr few ↦ rw few ])

lookup-put :
    (x k w : ℕ) (ps : List (ℕ × ℕ))
    → lookup k (put x w ps) ≡ (if k == x then some w else lookup k ps)
lookup-put x k w ps = elim (Bool-cases (k == x)) [
  | inl same ↦ rw same (rw ((==_iff k x).0 same) (lookup-put_self x w ps))
  | inr other ↦ rw other (lookup-put_ne x k w ps (λ e. ground (arith, e)))
]

pub update-Puts :
    (f : ℕ → ℕ) (x i : ℕ) (p : DiscreteParams)
    → IsWellFormed p
    → Located x p.indexes.indexes p.values (found i)
    → (vs : List ℕ) × (v : ℕ) × (lookup x (pairs p) ≡ some v)
      × (update_at f i p.values p.indexes ≡ some (p.indexes, vs, (v, f v)))
      × Puts x p p.indexes vs v (f v) (some (f v))
unfolding update_at
update-Puts f x i p k (v, at, seen, changed) =
    let (vs, e, new, l, s, q) = changed (f v) in
    (
      vs,
      v,
      seen,
      rw (at, e, new),
      record {
        sorted = k.sorted;
        unhashed = k.unhashed;
        lengths = omega (arith, k.lengths);
        sums = s;
        seen = λ y. rw q (lookup-put x y (f v) (pairs p));
      },
    )

pub insert-Puts :
    (loc : NodeAddress) (count i : ℕ) (p : DiscreteParams)
    → IsWellFormed p
    → Located (raw loc) p.indexes.indexes p.values (missing i)
    → (ix : DiscreteParamsIndexes) × (vs : List ℕ) × (lookup (raw loc) (pairs p) ≡ none)
      × (insert_count loc count i p.values p.indexes ≡ some (ix, vs, (0, count)))
      × Puts (raw loc) p ix vs 0 count (some count)
unfolding insert_count
insert-Puts loc count i p k (unseen, grown) =
    let (ks, vs, e, f, new, l, s, sorted, bound, q) = grown count in
    let ix : DiscreteParamsIndexes = record p.indexes { indexes = ks } in
    (
      ix,
      vs,
      unseen,
      rw (e, f, new, index_hash_lem (raw loc) i ix k.unhashed),
      record {
        sorted = sorted;
        unhashed = k.unhashed;
        lengths = sym l;
        sums = omega arith;
        seen = λ y. rw q (lookup-put (raw loc) y count (pairs p));
      },
    )

-- The three updates of a distribution.
pub data Update : Type 0 where
  adding : NodeAddress → Amount → Update
  replacing : NodeAddress → Amount → Update
  removing : NodeAddress → Amount → Update

unfoldable pub apply : Update → DiscreteParams → Option (DiscreteParams × (ℕ × ℕ))
apply (adding loc count) p = add_pop loc count p
apply (replacing loc count) p = replace_pop loc count p
apply (removing loc count) p = remove_pop loc count p

abbrev pub place : Update → ℕ
place (adding loc count) = raw loc
place (replacing loc count) = raw loc
place (removing loc count) = raw loc

-- The count of an update passes the assertion.
abbrev pub is_count : Amount → Bool
is_count (number (pos count)) = true
is_count (number (negsuc n)) = false
is_count not_a_number = false

abbrev pub accepted : Update → Bool
accepted (adding loc amount) = is_count amount
accepted (replacing loc amount) = is_count amount
accepted (removing loc amount) = is_count amount

abbrev pub all_accepted : List Update → Bool
all_accepted [] = true
all_accepted (u ∷ us) = accepted u && all_accepted us

-- The whole number of a count that passes.
abbrev pub whole : Amount → ℕ
whole (number (pos count)) = count
whole (number (negsuc n)) = 0
whole not_a_number = 0

-- The count at the place, from what was there: removing from an address that is not there changes
-- nothing, and a count never falls below 0.
abbrev pub new_count : Update → Option ℕ → Option ℕ
new_count (adding loc amount) old = some (unwrap_or old 0 + whole amount)
new_count (replacing loc amount) old = some (whole amount)
new_count (removing loc amount) none = none
new_count (removing loc amount) (some old) = some (old - whole amount)

-- A map from addresses to counts.
abbrev pub Counts : Type 0
Counts = ℕ → Option ℕ

abbrev pub promise : Update → Counts → Counts
promise u m k = if k == place u then new_count u (m k) else m k

abbrev pub promise_all : List Update → Counts → Counts
promise_all [] m = m
promise_all (u ∷ us) m = promise_all us (promise u m)

-- A lookup in the `Counts` of a store.
abbrev pub counts : DiscreteParams → Counts
counts p k = lookup k (pairs p)

-- One of the three updates of the lists, and what it returns.
pub record Runs (u : Update) (p : DiscreteParams) (r : Updated) : Type 0 where
  pub ix : DiscreteParamsIndexes
  pub vs : List ℕ
  pub old : ℕ
  pub new : ℕ
  pub run : r ≡ some (ix, vs, (old, new))
  pub puts : Puts (place u) p ix vs old new (new_count u (counts p (place u)))
  pub was : old ≡ unwrap_or (counts p (place u)) 0
  pub now : new ≡ unwrap_or (new_count u (counts p (place u))) 0
