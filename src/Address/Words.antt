-- ===== src/Address/Words.antt =====
-- The words that an address packs, `s * 2 ^ 55 + p`, and the two fields read back.
use Prim.Native.Nat.{bit_and, bit_or}
use goko.Common.{
  ℕ, ◌+◌, ◌*◌, ◌/◌, ◌%◌, ◌^◌, ◌<◌, ◌≡◌, ◌∙◌, ap, none, some, ◌==◌, if◌then◌else◌, arith,
}
use goko.Common.Int.{pos, ◌-ℤ◌}
use goko.Common.Bits.{ones, bit_and-ones, bit_and_high, bit_or_disjoint}
use goko.Address.{smask_u64, pmask_u64, NodeAddress, point_index, scale_index, singleton, to_tuple}

-- The low field of a word.
pub bit_and-pmask : (s p : ℕ) → p < 2 ^ 55 → bit_and (s * 2 ^ 55 + p) pmask_u64 ≡ p
unfolding ones
bit_and-pmask s p h = bit_and-ones 55 s p h

-- The high field of a word.
pub bit_and-smask :
    (s p : ℕ) → s < 512 → p < 2 ^ 55 → bit_and (s * 2 ^ 55 + p) smask_u64 / 2 ^ 55 ≡ s
unfolding ones
bit_and-smask s p k h =
    let top : bit_and (s * 2 ^ 55 + p) smask_u64 ≡ bit_and s 511 * 2 ^ 55 =
      bit_and_high 55 s p 511 h in
    let e : s ≡ 0 * 2 ^ 9 + s = omega arith in
    let nine : bit_and s 511 ≡ s = ap (λ t. bit_and t 511) e ∙ bit_and-ones 9 0 s (omega arith) in
    rw top (omega (arith, nine))

-- What `scale_index_u64 << 55 | point_index` packs, within the bounds.
pub bit_or-shl : (s p : ℕ) → s < 512 → p < 2 ^ 55 → bit_or (s * 2 ^ 55 % 2 ^ 64) p ≡ s * 2 ^ 55 + p
bit_or-shl s p k h =
    let e : s * 2 ^ 55 % 2 ^ 64 ≡ s * 2 ^ 55 = omega arith in rw e (bit_or_disjoint 55 s p h)

-- The address that packs the two fields.
abbrev pub word : ℕ → ℕ → NodeAddress
word s p = record { na = s * 2 ^ 55 + p }

pub point_index-word : (s p : ℕ) → p < 2 ^ 55 → point_index (word s p) ≡ p
unfolding point_index
point_index-word s p h = bit_and-pmask s p h

pub scale_index-word : (s p : ℕ) → s < 512 → p < 2 ^ 55 → scale_index (word s p) ≡ pos s -ℤ pos 64
unfolding scale_index
scale_index-word s p k h = ap (λ t. pos t -ℤ pos 64) (bit_and-smask s p k h)

-- A word is a singleton exactly when its scale field is 0.
pub singleton-word : (s p : ℕ) → p < 2 ^ 55 → singleton (word s p) ≡ (s == 0)
unfolding singleton
singleton-word s p h = rw (bit_and-pmask s p h) (ground arith)

pub to_tuple-word :
    (s p : ℕ)
    → s < 512
    → p < 2 ^ 55
    → to_tuple (word s p) ≡ (if s == 0 then none else some (pos s -ℤ pos 64, p))
unfolding to_tuple ◌-ℤ◌
to_tuple-word s p k h = rw (scale_index-word s p k h, point_index-word s p h) (ground arith)

-- Every 64-bit word packs some fields.
pub word_fields :
    (a : NodeAddress) → a.na < 2 ^ 64 → (s p : ℕ) × (a ≡ word s p) × (s < 512) × (p < 2 ^ 55)
word_fields a h = (a.na / 2 ^ 55, a.na % 2 ^ 55, ground arith, omega arith, omega arith)
