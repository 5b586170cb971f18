-- ===== src/Address/RoundTrip.antt =====
-- core_goko/src/lib.rs: packing an address and reading it back, both ways.
use goko.Common.{
  ℕ, ◌+◌, ◌*◌, ◌^◌, ◌<◌, ◌≡◌, ◌∙◌, sym, ap, ◌≢◌, ◌↔◌, refl, true, false, none, some, arith,
}
use goko.Common.Int.{ℤ, pos, negsuc, ◌+ℤ◌, ◌-ℤ◌, ◌≤ℤ◌}
use goko.Address.{
  pmask_u64, scale_index, point_index, NodeAddress, as_u64, from_tuple, new_unchecked,
  singleton_address, singleton, to_tuple,
}
use goko.Address.Words.{
  scale_index-word, point_index-word, word, word_fields, bit_or-shl, singleton-word, to_tuple-word,
}

-- The scale and point indexes that an address may hold.
pub record Packs (scale_index : ℤ) (point_index : ℕ) : Type 0 where
  pub lower : negsuc 63 ≤ℤ scale_index
  pub upper : scale_index ≤ℤ pos 447
  pub point : point_index < 2 ^ 55

-- The scale field of an index in range.
pub offset : ℤ → ℕ
offset si = as_u64 (si +ℤ pos 64)

pub offset_lem :
    (si : ℤ)
    → negsuc 63 ≤ℤ si
    → si ≤ℤ pos 447
    → (offset si < 512) × (pos (offset si) -ℤ pos 64 ≡ si)
unfolding offset ◌+ℤ◌ ◌-ℤ◌
offset_lem si l u = ground arith

-- What `from` does within the bounds.
pub from_tuple-Packs :
    (si : ℤ) (p : ℕ)
    → Packs si p
    → (offset si * 2 ^ 55 + p ≢ pmask_u64)
    → from_tuple (si, p) ≡ some (word (offset si) p)
unfolding from_tuple offset
from_tuple-Packs si p k h = ground (
  arith,
  offset_lem si k.lower k.upper,
  bit_or-shl (as_u64 (si +ℤ pos 64)) p (offset_lem si k.lower k.upper).0 k.point,
)

below_512 : (si : ℤ) → negsuc 63 ≤ℤ si → offset si < 512 → si ≤ℤ pos 447
unfolding offset ◌+ℤ◌
below_512 si l h = ground arith

new_unchecked-word :
    (si : ℤ) (p : ℕ) → offset si < 512 → p < 2 ^ 55 → new_unchecked si p ≡ word (offset si) p
unfolding new_unchecked offset
new_unchecked-word si p k h =
    ap (λ (n : ℕ). let a : NodeAddress = record { na = n } in a)
      (bit_or-shl (as_u64 (si +ℤ pos 64)) p k h)

offset_first : offset (negsuc 63) ≡ 0
unfolding offset ◌+ℤ◌
offset_first = refl

-- The fields of an accepted pair are in range.
pub from_tuple_inv :
    (si : ℤ) (p : ℕ) → from_tuple (si, p) ≢ none → Packs si p × (offset si * 2 ^ 55 + p ≢ pmask_u64)
unfolding from_tuple offset
from_tuple_inv si p h = ground (arith, below_512 si, bit_or-shl (as_u64 (si +ℤ pos 64)) p)

offset_scale : (s : ℕ) → offset (pos s -ℤ pos 64) ≡ s
unfolding offset ◌+ℤ◌ ◌-ℤ◌
offset_scale s = ground arith

offset_zero : (si : ℤ) → negsuc 63 ≤ℤ si → offset si ≡ 0 → si ≡ negsuc 63
unfolding offset ◌+ℤ◌
offset_zero si l e = ground arith

offset_pos : (si : ℤ) → negsuc 62 ≤ℤ si → 0 < offset si
unfolding offset ◌+ℤ◌
offset_pos si l = ground arith

Packs-scale : (s p : ℕ) → s < 512 → p < 2 ^ 55 → Packs (pos s -ℤ pos 64) p
unfolding ◌-ℤ◌
Packs-scale s p k h = ground arith

-- `from` accepts a pair exactly when the scale index is in [-64, 447], the point index is below
-- 2^55, and the pair is not (-64, 2^55 - 1); on every other pair it panics.
pub from_tuple_iff :
    (si : ℤ) (p : ℕ)
    → (from_tuple (si, p) ≢ none) ↔ (Packs si p × ¬ ((si ≡ negsuc 63) × (p ≡ pmask_u64)))
from_tuple_iff si p = (
  λ ok. let (k, h) = from_tuple_inv si p ok in (k, λ (e, f). h (rw (e, f, offset_first))),
  λ (k, h) e. cc (
      from_tuple-Packs si p k
        (λ q. h (offset_zero si k.lower (omega arith), omega (arith, k.point)))),
)

-- Within the bounds, from scale -63 on, `from` does not panic, and the address gives the scale
-- index and the point index back; it is no singleton, and `new_unchecked` builds the same one.
pub to_tuple-from_tuple :
    (si : ℤ) (p : ℕ)
    → Packs si p
    → negsuc 62 ≤ℤ si
    → (a : NodeAddress) × (from_tuple (si, p) ≡ some a)
      × (to_tuple a ≡ some (si, p))
      × (singleton a ≡ false)
      × (new_unchecked si p ≡ a)
to_tuple-from_tuple si p k h =
    let (small, back) = offset_lem si k.lower k.upper in
    let some_scale : 0 < offset si = offset_pos si h in
    (
      word (offset si) p,
      from_tuple-Packs si p k (omega arith),
      ground (arith, to_tuple-word (offset si) p small k.point),
      ground (arith, singleton-word (offset si) p k.point),
      new_unchecked-word si p small k.point,
    )

word_back :
    (s p : ℕ)
    → s < 512
    → p < 2 ^ 55
    → (t : ℤ × ℕ) → to_tuple (word s p) ≡ some t
    → from_tuple t ≡ some (word s p)
word_back s p small point t q = ground (
  arith,
  to_tuple-word s p small point,
  offset_scale s,
  from_tuple-Packs (pos s -ℤ pos 64) p (Packs-scale s p small point),
)

word-eq_none :
    (s p : ℕ) → s < 512 → p < 2 ^ 55 → (to_tuple (word s p) ≡ none) ↔ (singleton (word s p) ≡ true)
word-eq_none s p small point =
    ground (arith, to_tuple-word s p small point, singleton-word s p point)

-- Every 64-bit word that reads as a pair is what `from` builds of that pair; every other one is a
-- singleton, and its `to_tuple` is `None`.
pub from_tuple-to_tuple :
    (a : NodeAddress)
    → a.na < 2 ^ 64
    → ((t : ℤ × ℕ) → to_tuple a ≡ some t → from_tuple t ≡ some a)
      × ((to_tuple a ≡ none) ↔ (singleton a ≡ true))
from_tuple-to_tuple a h =
    let (s, p, e, small, point) = word_fields a h in
    rw e (word_back s p small point, word-eq_none s p small point)

-- A pair of scale -64 is accepted by `from`, yet its address is a singleton and reads as `None`:
-- the point index is lost.
pub from_tuple_lost :
    (p : ℕ)
    → p < pmask_u64
    → (a : NodeAddress) × (from_tuple (negsuc 63, p) ≡ some a)
      × (to_tuple a ≡ none)
      × (singleton a ≡ true)
      × (a ≢ singleton_address)
from_tuple_lost p h =
    let first : offset (negsuc 63) ≡ 0 = offset_first in
    let k : Packs (negsuc 63) p = omega arith in
    (
      word (offset (negsuc 63)) p,
      from_tuple-Packs (negsuc 63) p k (omega arith),
      ground (arith, to_tuple-word (offset (negsuc 63)) p (omega arith) (omega arith)),
      ground (arith, singleton-word (offset (negsuc 63)) p (omega arith)),
      λ e. absurd (omega (arith, ap (λ (a : NodeAddress). a.na) e)),
    )

-- The fields of any 64-bit word but the reserved one build the word again.
pub from_tuple-fields :
    (a : NodeAddress)
    → a.na < 2 ^ 64
    → a.na ≢ pmask_u64
    → from_tuple (scale_index a, point_index a) ≡ some a
from_tuple-fields a h n =
    let (s, p, e, small, point) = word_fields a h in
    rw e (
      rw (scale_index-word s p small point, point_index-word s p point)
        (ground (
          arith,
          offset_scale s,
          from_tuple-Packs (pos s -ℤ pos 64) p (Packs-scale s p small point),
          ap (λ (w : NodeAddress). w.na) e,
        )))

-- The two constructors agree within the bounds.
pub from_tuple-new_unchecked :
    (si : ℤ) (p : ℕ) → Packs si p → negsuc 62 ≤ℤ si → from_tuple (si, p) ≡ some (new_unchecked si p)
from_tuple-new_unchecked si p k h =
    let (a, e, read, alone, same) = to_tuple-from_tuple si p k h in e ∙ ap some (sym same)

pub point_index-new_unchecked : (si : ℤ) (p : ℕ) → Packs si p → point_index (new_unchecked si p) ≡ p
unfolding new_unchecked offset
point_index-new_unchecked si p k =
    rw (bit_or-shl (offset si) p (offset_lem si k.lower k.upper).0 k.point)
      (point_index-word (offset si) p k.point)
