-- ===== src/Common/Bits.antt =====
-- `&` and `|` with masks, at variables: a word is read as `h * 2 ^ k + l` with `l` below `2 ^ k`.
use Prim.Native.Nat.{min, max, bit_and, bit_or, digits, bit_and-bitwise, bit_or-bitwise}
use native.Mathlib.Nat.{pow-suc}
use goko.Common.{ℕ, zero, suc, ◌+◌, ◌*◌, ◌/◌, ◌%◌, ◌^◌, ◌≤◌, ◌<◌, ◌≡◌, ◌∙◌, refl, arith}

-- Both operations walk the binary digits of their first argument, on fuel. `edge` is what is left
-- when it is 0, and `bit` combines two digits.
module _ (edge : ℕ → ℕ) (bit : ℕ → ℕ → ℕ) where
  walk_enough :
      (x y fuel more : ℕ)
      → x ≤ fuel
      → x ≤ more
      → digits edge bit fuel x y ≡ digits edge bit more x y
  walk_enough x y zero zero h k = refl
  walk_enough zero y zero (suc more) h k = refl
  walk_enough zero y (suc fuel) zero h k = refl
  walk_enough zero y (suc fuel) (suc more) h k = refl
  walk_enough (suc x) y zero more h k = absurd (omega arith)
  walk_enough (suc x) y fuel zero h k = absurd (omega arith)
  walk_enough (suc x) y (suc fuel) (suc more) h k =
      let rest = walk_enough (suc x / 2) (y / 2) fuel more (omega arith) (omega arith) in
      omega (arith, rest)

-- One digit of `&`.
split_and : (x y : ℕ) → bit_and x y ≡ bit_and (x / 2) (y / 2) * 2 + min (x % 2) (y % 2)
split_and zero y =
    let first = bit_and-bitwise 0 y in
    let second = bit_and-bitwise 0 (y / 2) in omega (arith, first, second)
split_and (suc x) y =
    let half = suc x / 2 in
    let fuel = walk_enough (λ _. 0) min half (y / 2) x half (omega arith) (omega arith) in
    omega (arith, fuel, bit_and-bitwise (suc x) y, bit_and-bitwise half (y / 2))

-- One digit of `|`.
split_or : (x y : ℕ) → bit_or x y ≡ bit_or (x / 2) (y / 2) * 2 + max (x % 2) (y % 2)
split_or zero y =
    let first = bit_or-bitwise 0 y in
    let second = bit_or-bitwise 0 (y / 2) in omega (arith, first, second)
split_or (suc x) y =
    let half = suc x / 2 in
    let fuel = walk_enough (λ t. t) max half (y / 2) x half (omega arith) (omega arith) in
    omega (arith, fuel, bit_or-bitwise (suc x) y, bit_or-bitwise half (y / 2))

bit_and_nothing : (fuel x : ℕ) → x ≤ fuel → bit_and x 0 ≡ 0
bit_and_nothing fuel zero h = refl
bit_and_nothing zero (suc x) h = absurd (omega arith)
bit_and_nothing (suc fuel) (suc x) h =
    let rest = bit_and_nothing fuel (suc x / 2) (omega arith) in
    omega (arith, rest, split_and (suc x) 0)

bit_or_nothing : (fuel x : ℕ) → x ≤ fuel → bit_or x 0 ≡ x
bit_or_nothing fuel zero h = refl
bit_or_nothing zero (suc x) h = absurd (omega arith)
bit_or_nothing (suc fuel) (suc x) h =
    let rest = bit_or_nothing fuel (suc x / 2) (omega arith) in
    omega (arith, rest, split_or (suc x) 0)

-- The mask of `k` ones.
unfoldable pub ones : ℕ → ℕ
ones zero = 0
ones (suc k) = ones k * 2 + 1

pub ones_add_one : (k : ℕ) → ones k + 1 ≡ 2 ^ k
unfolding ones
ones_add_one zero = refl
ones_add_one (suc k) = omega (arith, ones_add_one k, pow-suc 2 k)

double_pow : (h k : ℕ) → h * 2 ^ suc k ≡ h * 2 ^ k * 2
double_pow h k = simp pow-suc (grind arith)

half_word : (k h l : ℕ) → (h * 2 ^ suc k + l) / 2 ≡ h * 2 ^ k + l / 2
half_word k h l = omega (arith, double_pow h k)

half_top : (k h : ℕ) → h * 2 ^ suc k / 2 ≡ h * 2 ^ k
half_top k h = omega (arith, double_pow h k)

-- `x & (2^k - 1)` keeps the low part.
pub bit_and-ones : (k h l : ℕ) → l < 2 ^ k → bit_and (h * 2 ^ k + l) (ones k) ≡ l
unfolding ones
bit_and-ones zero h l b = omega (arith, bit_and_nothing (h * 1 + l) (h * 1 + l))
bit_and-ones (suc k) h l b =
    let b' : l / 2 < 2 ^ k = omega (arith, pow-suc 2 k) in
    let e : (ones k * 2 + 1) / 2 ≡ ones k = omega arith in
    split_and (h * 2 ^ suc k + l) (ones k * 2 + 1)
    ∙ rw (half_word k h l, e, bit_and-ones k h (l / 2) b') (omega (arith, double_pow h k))

-- `x & (m << k)` masks the high part.
pub bit_and_high :
    (k h l m : ℕ) → l < 2 ^ k → bit_and (h * 2 ^ k + l) (m * 2 ^ k) ≡ bit_and h m * 2 ^ k
bit_and_high zero h l m b =
    let e : h * 2 ^ 0 + l ≡ h = omega arith in
    let f : m * 2 ^ 0 ≡ m = omega arith in rw (e, f) (omega arith)
bit_and_high (suc k) h l m b =
    let b' : l / 2 < 2 ^ k = omega (arith, pow-suc 2 k) in
    split_and (h * 2 ^ suc k + l) (m * 2 ^ suc k)
    ∙ rw (half_word k h l, half_top k m, bit_and_high k h (l / 2) m b')
        (omega (arith, double_pow m k, double_pow (bit_and h m) k))

-- `(h << k) | l` is a sum where the parts do not overlap.
pub bit_or_disjoint : (k h l : ℕ) → l < 2 ^ k → bit_or (h * 2 ^ k) l ≡ h * 2 ^ k + l
bit_or_disjoint zero h l b =
    let e : l ≡ 0 = omega arith in rw e (omega (arith, bit_or_nothing (h * 1) (h * 1)))
bit_or_disjoint (suc k) h l b =
    let b' : l / 2 < 2 ^ k = omega (arith, pow-suc 2 k) in
    split_or (h * 2 ^ suc k) l
    ∙ rw (half_top k h, bit_or_disjoint k h (l / 2) b') (omega (arith, double_pow h k))
