-- ===== src/Tree/Levels.antt =====
-- goko/src/covertree/tree.rs: the nodes that are reached from an address, and their number, which
-- bounds the walks.
use Prim.Native.Nat.{bit_and}
use mathlib.Core.List.{Memᴰ}
use mathlib.Core.List.Memᴰ
use goko.Common.{
  ℕ, zero, suc, ◌+◌, ◌<◌, ◌/◌, ◌^◌, ◌≡◌, ◌∙◌, ◌⊎◌, inl, inr, refl, sym, ap, Option, none, some,
  List, [], ◌∷◌, arith,
}
use goko.Common.Outcome.{ok}
use goko.Address.{NodeAddress, smask_u64}
use goko.Cover.Node.{CoverNode}
use goko.Tree.Reader.{CoverTree, get_node, children_of, extend}

-- The scale index of an address, counted from -64.
abbrev pub level : NodeAddress → ℕ
level a = bit_and a.na smask_u64 / 2 ^ 55

unfoldable pub sum_of : (NodeAddress → ℕ) → List NodeAddress → ℕ
sum_of f [] = 0
sum_of f (a ∷ as') = f a + sum_of f as'

pub sum-extend :
    (f : NodeAddress → ℕ) (xs st : List NodeAddress)
    → sum_of f (extend xs st) ≡ sum_of f xs + sum_of f st
unfolding sum_of extend
sum-extend f [] st = omega arith
sum-extend f (x ∷ xs) st = omega (arith, sum-extend f xs (x ∷ st))

sum_congr :
    (f g : NodeAddress → ℕ) (xs : List NodeAddress)
    → ((a : NodeAddress) → Memᴰ a xs → f a ≡ g a)
    → sum_of f xs ≡ sum_of g xs
unfolding sum_of
sum_congr f g [] h = refl
sum_congr f g (x ∷ xs) h =
    omega (arith, h x (Memᴰ.head refl), sum_congr f g xs (λ a m. h a (Memᴰ.tail m)))

pub Memᴰ-extend {ℓ} : {A : Type ℓ} (a : A) (xs st : List A) → Memᴰ a st → Memᴰ a (extend xs st)
unfolding extend
Memᴰ-extend a [] st m = m
Memᴰ-extend a (x ∷ xs) st m = Memᴰ-extend a xs (x ∷ st) (Memᴰ.tail m)

pub Memᴰ-extended {ℓ} : {A : Type ℓ} (a : A) (xs st : List A) → Memᴰ a xs → Memᴰ a (extend xs st)
unfolding extend
Memᴰ-extended a [] st m = elim m [ ]
Memᴰ-extended a (x ∷ xs) st (Memᴰ.head e) = Memᴰ-extend a xs (x ∷ st) (Memᴰ.head e)
Memᴰ-extended a (x ∷ xs) st (Memᴰ.tail m) = Memᴰ-extended a xs (x ∷ st) m

module _ {F : Type 0} (t : CoverTree F) where
  -- The addresses below an address, itself included.
  pub data Below (a : NodeAddress) : NodeAddress → Type 0 where
    itself : Below a a
    child :
        {b c : NodeAddress} (n : CoverNode F)
        → Below a b
        → get_node t b ≡ ok (some n)
        → Memᴰ c (children_of n)
        → Below a c

  -- A read of an address does not panic, and the children of a node are at lower scales.
  pub record Descends (root : NodeAddress) : Type 0 where
    pub read : (a : NodeAddress) → Below root a → (o : Option (CoverNode F)) × (get_node t a ≡ ok o)
    pub lower :
        (a c : NodeAddress) (n : CoverNode F)
        → Below root a
        → get_node t a ≡ ok (some n)
        → Memᴰ c (children_of n)
        → level c < level a

  child_sum : (NodeAddress → ℕ) → NodeAddress → ℕ
  child_sum f a = elim (get_node t a) [ ok (some n) ↦ sum_of f (children_of n) | _ ↦ 0 ]

  -- The number of nodes within some levels below an address.
  within : ℕ → NodeAddress → ℕ
  within zero a = 1
  within (suc levels) a = suc (child_sum (within levels) a)

  -- The number of nodes below an address.
  unfoldable pub nodes_below : NodeAddress → ℕ
  unfolding within child_sum sum_of
  nodes_below a = within (suc (level a)) a

  child_sum-some :
      (f : NodeAddress → ℕ) (a : NodeAddress) (n : CoverNode F)
      → get_node t a ≡ ok (some n)
      → child_sum f a ≡ sum_of f (children_of n)
  unfolding child_sum
  child_sum-some f a n e = rw (e, child_sum)

  child_sum-none :
      (f : NodeAddress → ℕ) (a : NodeAddress) → get_node t a ≡ ok none → child_sum f a ≡ 0
  unfolding child_sum
  child_sum-none f a e = rw (e, child_sum)

  child_sum_congr :
      (f g : NodeAddress → ℕ) (a : NodeAddress) (o : Option (CoverNode F))
      → get_node t a ≡ ok o
      → ((n : CoverNode F) (c : NodeAddress)
          → get_node t a ≡ ok (some n)
          → Memᴰ c (children_of n)
          → f c ≡ g c)
      → child_sum f a ≡ child_sum g a
  child_sum_congr f g a none e h = child_sum-none f a e ∙ sym (child_sum-none g a e)
  child_sum_congr f g a (some n) e h =
      child_sum-some f a n e
      ∙ sum_congr f g (children_of n) (λ c i. h n c e i)
      ∙ sym (child_sum-some g a n e)

  module _ {root : NodeAddress} (d : Descends root) where
    enough_levels :
        (l m : ℕ) (a : NodeAddress)
        → Below root a
        → level a < l
        → level a < m
        → within l a ≡ within m a
    unfolding within
    enough_levels zero m a b h k = absurd (omega arith)
    enough_levels (suc l) zero a b h k = absurd (omega arith)
    enough_levels (suc l) (suc m) a b h k =
        let (o, e) = d.read a b in
        ap suc (
          child_sum_congr (within l) (within m) a o e (λ n c e' i.
            let low = d.lower a c n b e' i in
            enough_levels l m c (child n b e' i) (omega arith) (omega arith)))

    pub nodes_below-children :
        (a : NodeAddress) (n : CoverNode F)
        → Below root a
        → get_node t a ≡ ok (some n)
        → nodes_below a ≡ suc (sum_of nodes_below (children_of n))
    unfolding nodes_below within
    nodes_below-children a n b e = ap suc (
        child_sum-some (within (level a)) a n e
        ∙ sum_congr (within (level a)) nodes_below (children_of n) (λ c m.
          enough_levels (level a) (suc (level c)) c (child n b e m) (d.lower a c n b e m)
            (omega arith)))

    pub nodes_below-pos : (a : NodeAddress) → 0 < nodes_below a
    unfolding nodes_below within
    nodes_below-pos a = omega arith

  pub Below-trans : {a b c : NodeAddress} → Below a b → Below b c → Below a c
  Below-trans p itself = p
  Below-trans p (child n q e m) = child n (Below-trans p q) e m

  -- The first step of the way down.
  pub data FirstStep (a : NodeAddress) (b : NodeAddress) : Type 0 where
    here : b ≡ a → FirstStep a b
    down :
        (n : CoverNode F) (c : NodeAddress)
        → get_node t a ≡ ok (some n)
        → Memᴰ c (children_of n)
        → Below c b
        → FirstStep a b

  pub Below-FirstStep : {a b : NodeAddress} → Below a b → FirstStep a b
  Below-FirstStep itself = here refl
  Below-FirstStep (child {b} {c} n p e m) = step (Below-FirstStep p)
    where
      step : {a : NodeAddress} → FirstStep a b → FirstStep a c
      step (here q) = down n c (ap (get_node t) (sym q) ∙ e) m itself
      step (down n' c' e' m' q) = down n' c' e' m' (child n q e m)

pub Memᴰ-extend_cases {ℓ} :
    {A : Type ℓ} (a : A) (xs st : List A) → Memᴰ a (extend xs st) → Memᴰ a xs ⊎ Memᴰ a st
unfolding extend
Memᴰ-extend_cases a [] st m = inr m
Memᴰ-extend_cases a (x ∷ xs) st m = elim (Memᴰ-extend_cases a xs (x ∷ st) m) [
  | inl i ↦ inl (Memᴰ.tail i)
  | inr i ↦ elim (Memᴰ.cases_cons i) [ inl e ↦ inl (Memᴰ.head e) | inr j ↦ inr j ]
]
