-- ===== src/Address/Lists.antt =====
-- core_goko/src/lib.rs: `AddressesToVec`, `PairAddressesToVec`, `TuplesToAddresses` and
-- `SliceToAddresses`, the conversions of slices. `none` is the panic of one of the conversions.
use goko.Common.{ℕ, ◌≡◌, refl, Option, none, some, List, [], ◌∷◌, map, arith}
use goko.Common.Int.{ℤ, negsuc, ◌-ℤ◌, ◌≤ℤ◌}
use goko.Address.{
  NodeAddress, point_index, scale_index, to_tuple, from_tuple, from_option, from_u64, new_unchecked,
  singleton_address,
}
use goko.Address.RoundTrip.{Packs, to_tuple-from_tuple}

module _ {ℓ} {B : Type ℓ} where
  abbrev pub keep : Option B → List B → List B
  keep none ys = ys
  keep (some y) ys = y ∷ ys

  abbrev pub push_some : Option B → Option (List B) → Option (List B)
  push_some (some y) (some ys) = some (y ∷ ys)
  push_some (some y) none = none
  push_some none rest = none

-- The library's `filter_map`, in a form that computes, and `map` by a function that may panic.
module _ {ℓ κ} {A : Type ℓ} {B : Type κ} where
  abbrev pub filter_map : (A → Option B) → List A → List B
  filter_map f [] = []
  filter_map f (x ∷ xs) = keep (f x) (filter_map f xs)

  abbrev pub map_all : (A → Option B) → List A → Option (List B)
  map_all f [] = some []
  map_all f (x ∷ xs) = push_some (f x) (map_all f xs)

unfoldable pub to_point_indexes : List NodeAddress → List ℕ
to_point_indexes = map point_index

unfoldable pub to_scale_indexes : List NodeAddress → List ℤ
to_scale_indexes = map scale_index

unfoldable pub to_tuples : List NodeAddress → List (Option (ℤ × ℕ))
to_tuples = map to_tuple

unfoldable pub to_valid_tuples : List NodeAddress → List (ℤ × ℕ)
to_valid_tuples = filter_map to_tuple

unfoldable pub tuples_to_addresses : List (ℤ × ℕ) → Option (List NodeAddress)
tuples_to_addresses = map_all from_tuple

unfoldable pub tuples_to_addresses_unchecked : List (ℤ × ℕ) → List NodeAddress
tuples_to_addresses_unchecked = map (λ t. new_unchecked t.0 t.1)

unfoldable pub options_to_addresses : List (Option (ℤ × ℕ)) → Option (List NodeAddress)
options_to_addresses = map_all from_option

abbrev unchecked_or_singleton : Option (ℤ × ℕ) → NodeAddress
unchecked_or_singleton (some (si, pi)) = new_unchecked si pi
unchecked_or_singleton none = singleton_address

unfoldable pub options_to_addresses_unchecked : List (Option (ℤ × ℕ)) → List NodeAddress
options_to_addresses_unchecked = map unchecked_or_singleton

unfoldable pub slice_to_addresses : List ℕ → List NodeAddress
slice_to_addresses = map from_u64

-- The pairs of `PairAddressesToVec`.
module _ {T : Type 0} where
  pub pairs_to_point_indexes : List (NodeAddress × T) → List (ℕ × T)
  pairs_to_point_indexes = map (λ na. (point_index na.0, na.1))

  pub pairs_to_scale_indexes : List (NodeAddress × T) → List (ℤ × T)
  pairs_to_scale_indexes = map (λ na. (scale_index na.0, na.1))

  pub pairs_to_tuples : List (NodeAddress × T) → List (Option (ℤ × ℕ) × T)
  pairs_to_tuples = map (λ na. (to_tuple na.0, na.1))

  abbrev with_value : T → Option (ℤ × ℕ) → Option ((ℤ × ℕ) × T)
  with_value v none = none
  with_value v (some n) = some (n, v)

  pub pairs_to_valid_tuples : List (NodeAddress × T) → List ((ℤ × ℕ) × T)
  pairs_to_valid_tuples = filter_map (λ na. with_value na.1 (to_tuple na.0))

  pub keys-pairs_to_valid_tuples :
      (l : List (NodeAddress × T))
      → map (λ e. e.0) (pairs_to_valid_tuples l) ≡ to_valid_tuples (map (λ e. e.0) l)
  unfolding pairs_to_valid_tuples to_valid_tuples
  keys-pairs_to_valid_tuples [] = refl
  keys-pairs_to_valid_tuples (x ∷ l) = ground (arith, keys-pairs_to_valid_tuples l)

-- Pairs that pack, from scale -63 on, where there is a pair.
abbrev pub AllPack : List (Option (ℤ × ℕ)) → Type 0
AllPack [] = Unit
AllPack (none ∷ l) = AllPack l
AllPack (some t ∷ l) = Packs t.0 t.1 × (negsuc 62 ≤ℤ t.0) × AllPack l

-- The pairs that are there.
abbrev pub present : List (Option (ℤ × ℕ)) → List (ℤ × ℕ)
present [] = []
present (none ∷ l) = present l
present (some t ∷ l) = t ∷ present l

singleton_address-none : to_tuple singleton_address ≡ none
unfolding to_tuple ◌-ℤ◌
singleton_address-none = refl

-- For a list of pairs within the bounds, from scale -63 on, with singletons anywhere between them,
-- the checked conversion does not panic and agrees with the unchecked one; `to_tuples` gives the list
-- back, and `to_valid_tuples` the pairs in order without the singletons.
pub to_valid_tuples-options_to_addresses :
    (l : List (Option (ℤ × ℕ)))
    → AllPack l
    → (addresses : List NodeAddress) × (options_to_addresses l ≡ some addresses)
      × (options_to_addresses_unchecked l ≡ addresses)
      × (to_tuples addresses ≡ l)
      × (to_valid_tuples addresses ≡ present l)
unfolding options_to_addresses options_to_addresses_unchecked to_valid_tuples to_tuples from_option
to_valid_tuples-options_to_addresses [] h = ([], refl, refl, refl, refl)
to_valid_tuples-options_to_addresses (none ∷ l) h =
    let (bs, e, f, g, u) = to_valid_tuples-options_to_addresses l h in
    (
      singleton_address ∷ bs,
      rw e,
      rw f,
      rw (singleton_address-none, g),
      rw (singleton_address-none, u),
    )
to_valid_tuples-options_to_addresses (some (si, p) ∷ l) h =
    let (a, e, f, g, u) = to_tuple-from_tuple si p h.0 h.1 in
    let (bs, e', f', g', u') = to_valid_tuples-options_to_addresses l h.2 in
    (a ∷ bs, rw (e, e'), rw (u, f'), rw (f, g'), rw (f, u'))
