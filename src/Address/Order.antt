-- ===== src/Address/Order.antt =====
-- core_goko/src/lib.rs: the derived order of the addresses, that of their words.
use goko.Common.{ℕ, ◌^◌, ◌<◌, ◌≡◌, ◌↔◌, ◌⊎◌, some, ltb, Bool, true, arith}
use goko.Common.Int.{ℤ, ◌-ℤ◌, ltb_ℤ}
use goko.Address.{NodeAddress, to_tuple}
use goko.Address.Words.{word, word_fields, to_tuple-word}

-- The derived `PartialOrd`: `a < b`.
unfoldable pub address_ltb : NodeAddress → NodeAddress → Bool
address_ltb a b = ltb a.na b.na

-- Scale indexes first, then point indexes.
abbrev pub LexLt : ℤ × ℕ → ℤ × ℕ → Type 0
LexLt (s, p) (t, q) = (ltb_ℤ s t ≡ true) ⊎ ((s ≡ t) × (p < q))

-- The same for two packed words.
word_order :
    (s p t q : ℕ) {x y : ℤ × ℕ}
    → s < 512
    → p < 2 ^ 55
    → t < 512
    → q < 2 ^ 55
    → to_tuple (word s p) ≡ some x
    → to_tuple (word t q) ≡ some y
    → (address_ltb (word s p) (word t q) ≡ true) ↔ LexLt x y
unfolding address_ltb ◌-ℤ◌
word_order s p t q a b c d e f = ground (arith, to_tuple-word s p a b, to_tuple-word t q c d)

-- The addresses of nodes are ordered by scale index, and on one scale by point index.
pub address_ltb_iff :
    (a b : NodeAddress) {x y : ℤ × ℕ}
    → a.na < 2 ^ 64
    → b.na < 2 ^ 64
    → to_tuple a ≡ some x
    → to_tuple b ≡ some y
    → (address_ltb a b ≡ true) ↔ LexLt x y
address_ltb_iff a b h k e f =
    let (s, p, u, s_small, p_small) = word_fields a h in
    let (t, q, v, t_small, q_small) = word_fields b k in
    rw (u, v) (word_order s p t q s_small p_small t_small q_small (rw (← u) e) (rw (← v) f))
