-- ===== src/Address.antt =====
-- core_goko/src/lib.rs: the 64-bit address of a node, a scale index in the top 9 bits (offset by
-- 64) and a point index in the other 55. An `i32` is a ℤ and a `u64` or `usize` a number below
-- 2 ^ 64. `none` is a panic of an `assert!`.
pub mod Words
pub mod RoundTrip
pub mod Order
pub mod Lists
mod Tests
use Prim.Native.Nat.{bit_and, bit_or}
use goko.Common.{
  ℕ, suc, ◌+◌, ◌-◌, ◌*◌, ◌/◌, ◌%◌, ◌^◌, ◌≡◌, Bool, true, false, ◌&&◌, not, Option, none, some, List,
  [], ◌∷◌, map, ltb, leb, ◌==◌, if◌then◌else◌,
}
use goko.Common.Int.{ℤ, pos, negsuc, pos_part, neg_part, ◌+ℤ◌, ◌-ℤ◌, ltb_ℤ}

abbrev pub smask_u64 : ℕ
smask_u64 = 0b1111111110000000000000000000000000000000000000000000000000000000

abbrev pub pmask_u64 : ℕ
pmask_u64 = 0b0000000001111111111111111111111111111111111111111111111111111111

pub record NodeAddress : Type 0 where
  pub na : ℕ

-- An `as u64` cast of an `i32`.
abbrev pub as_u64 : ℤ → ℕ
as_u64 (pos n) = n
as_u64 (negsuc n) = 2 ^ 64 - suc n

-- `x.leading_zeros() >= 64 - k` for a `u64`.
abbrev fits_bits : ℕ → ℕ → Bool
fits_bits k x = ltb x (2 ^ k)

abbrev pub minus_64 : ℤ
minus_64 = negsuc 63

-- `scale_index_u64 << 55`, in 64 bits.
abbrev shl_55 : ℕ → ℕ
shl_55 x = x * 2 ^ 55 % 2 ^ 64

-- An `i32` sum that overflows is negative or panics; the second `assert!` refuses it either way,
-- as it refuses the sum in ℤ.
unfoldable pub from_tuple : ℤ × ℕ → Option NodeAddress
from_tuple (scale_index, point_index) =
    let scale_index_u64 = as_u64 (scale_index +ℤ pos 64) in
    let na = bit_or (shl_55 scale_index_u64) point_index in
    if ltb_ℤ scale_index minus_64
    then none
    else if not (fits_bits 9 scale_index_u64)
    then none
    else if not (fits_bits 55 point_index)
    then none
    else if na == pmask_u64
    then none
    else some (record { na = na })

abbrev pub singleton_address : NodeAddress
singleton_address = record { na = pmask_u64 }

unfoldable pub from_option : Option (ℤ × ℕ) → Option NodeAddress
from_option (some n) = from_tuple n
from_option none = some singleton_address

-- The release build: the `debug_assert!`s are gone, and the caller owes the bounds.
unfoldable pub new_unchecked : ℤ → ℕ → NodeAddress
new_unchecked scale_index point_index = record {
  na = bit_or (shl_55 (as_u64 (scale_index +ℤ pos 64))) point_index;
}

unfoldable pub from_u64 : ℕ → NodeAddress
from_u64 na = record { na = na }

unfoldable pub raw : NodeAddress → ℕ
raw a = a.na

unfoldable pub point_index : NodeAddress → ℕ
point_index a = bit_and a.na pmask_u64

unfoldable pub scale_index : NodeAddress → ℤ
scale_index a = pos (bit_and a.na smask_u64 / 2 ^ 55) -ℤ pos 64

unfoldable pub singleton : NodeAddress → Bool
singleton a = bit_and a.na pmask_u64 == a.na

-- The test `si == -64`.
abbrev is_minus_64 : ℤ → Bool
is_minus_64 (pos n) = false
is_minus_64 (negsuc n) = n == 63

unfoldable pub to_tuple : NodeAddress → Option (ℤ × ℕ)
unfolding scale_index point_index
to_tuple a = if is_minus_64 (scale_index a) then none else some (scale_index a, point_index a)
