-- ===== src/Address/Tests.antt =====
-- core_goko/src/lib.rs: the reconstruction tests of the crate, and the theorems at such inputs.
use goko.Common.{
  Option, ℕ, ◌+◌, ◌-◌, ◌*◌, ◌^◌, ◌≡◌, ◌≢◌, ◌↔◌, refl, true, false, none, some, List, [], ◌∷◌, arith,
}
use goko.Common.Int.{ℤ, pos, negsuc, ◌+ℤ◌, ◌-ℤ◌}
use goko.Address.{
  pmask_u64, NodeAddress, from_tuple, new_unchecked, singleton_address, singleton, to_tuple,
  scale_index, point_index,
}
use goko.Address.Words.{word}
use goko.Address.RoundTrip.{
  Packs, to_tuple-from_tuple, from_tuple-to_tuple, from_tuple_iff, from_tuple_lost,
}
use goko.Address.Order.{address_ltb, LexLt, address_ltb_iff}
use goko.Address.Lists.{
  options_to_addresses, options_to_addresses_unchecked, to_valid_tuples, to_tuples,
  to_valid_tuples-options_to_addresses,
}

reconstruction : from_tuple (pos 10, 12345) ≡ some (record { na = 74 * 2 ^ 55 + 12345 })
unfolding from_tuple ◌+ℤ◌
reconstruction = refl

maximum_scale : from_tuple (pos 447, 2 ^ 55 - 1) ≡ some (record { na = 2 ^ 64 - 1 })
unfolding from_tuple ◌+ℤ◌
maximum_scale = refl

too_large : (from_tuple (pos 448, 0) ≡ none) × (from_tuple (negsuc 64, 0) ≡ none)
unfolding from_tuple ◌+ℤ◌
too_large = (refl, refl)

singleton_in_correct_spot :
    (scale_index singleton_address ≡ negsuc 63) × (point_index singleton_address ≡ 2 ^ 55 - 1)
unfolding scale_index point_index ◌-ℤ◌
singleton_in_correct_spot = (refl, refl)

packs : Packs (pos 10) 12345
packs = omega arith

to_tuple-from_tuple_example :
    (a : NodeAddress) × (from_tuple (pos 10, 12345) ≡ some a)
    × (to_tuple a ≡ some (pos 10, 12345))
    × (singleton a ≡ false)
    × (new_unchecked (pos 10) 12345 ≡ a)
to_tuple-from_tuple_example = to_tuple-from_tuple (pos 10) 12345 packs (omega arith)

abbrev top_word : NodeAddress
top_word = record { na = 2 ^ 64 - 1 }

from_tuple-to_tuple_example :
    ((t : ℤ × ℕ) → to_tuple top_word ≡ some t → from_tuple t ≡ some top_word)
    × ((to_tuple top_word ≡ none) ↔ (singleton top_word ≡ true))
from_tuple-to_tuple_example = from_tuple-to_tuple top_word (omega arith)

from_tuple_iff_example :
    (from_tuple (negsuc 63, pmask_u64) ≢ none)
    ↔ (Packs (negsuc 63) pmask_u64 × ¬ ((negsuc 63 ≡ negsuc 63) × (pmask_u64 ≡ pmask_u64)))
from_tuple_iff_example = from_tuple_iff (negsuc 63) pmask_u64

from_tuple_lost_example :
    (a : NodeAddress) × (from_tuple (negsuc 63, 7) ≡ some a)
    × (to_tuple a ≡ none)
    × (singleton a ≡ true)
    × (a ≢ singleton_address)
from_tuple_lost_example = from_tuple_lost 7 (omega arith)

low : to_tuple (word 65 3) ≡ some (pos 1, 3)
unfolding to_tuple ◌-ℤ◌
low = refl

high : to_tuple (word 66 2) ≡ some (pos 2, 2)
unfolding to_tuple ◌-ℤ◌
high = refl

address_ltb_iff_example : (address_ltb (word 65 3) (word 66 2) ≡ true) ↔ LexLt (pos 1, 3) (pos 2, 2)
address_ltb_iff_example =
    address_ltb_iff (word 65 3) (word 66 2) (omega arith) (omega arith) low high

abbrev pairs_between : List (Option (ℤ × ℕ))
pairs_between = none ∷ some (pos 10, 12345) ∷ none ∷ some (negsuc 4, 8) ∷ []

to_valid_tuples-options_to_addresses_example :
    (addresses : List NodeAddress) × (options_to_addresses pairs_between ≡ some addresses)
    × (options_to_addresses_unchecked pairs_between ≡ addresses)
    × (to_tuples addresses ≡ pairs_between)
    × (to_valid_tuples addresses ≡ (pos 10, 12345) ∷ (negsuc 4, 8) ∷ [])
to_valid_tuples-options_to_addresses_example =
    to_valid_tuples-options_to_addresses pairs_between (omega arith)
