-- ===== src/Tree/Dangling.antt =====
-- goko/src/covertree/tree.rs: `no_dangling_refs` tells whether every reference leads to a node.
use mathlib.Core.List.{Memᴰ}
use goko.Common.{
  All, ℕ, zero, suc, ◌≤◌, ◌≡◌, ◌∙◌, refl, sym, ap, Bool, true, false, Option, none, some, List, [],
  ◌∷◌, arith, ◌↔◌,
}
use goko.Common.Outcome.{Outcome, ok}
use goko.Address.{NodeAddress}
use goko.Cover.Node.{GokoError, CoverNode}
use mathlib.Core.Path.{subst}
use goko.Tree.Reader.{CoverTree, get_node, children_of, extend, check_refs, no_dangling_refs}
use goko.Tree.Levels.{
  Below, itself, child, Descends, sum_of, sum-extend, nodes_below, nodes_below-children,
  nodes_below-pos, FirstStep, Below-FirstStep, here, down, Memᴰ-extend, Memᴰ-extended,
}

module _ {F : Type 0} (t : CoverTree F) where
  -- Every reference below an address leads to a node.
  abbrev pub Whole : NodeAddress → Type 0
  Whole a = (b : NodeAddress) → Below t a b → (n : CoverNode F) × (get_node t b ≡ ok (some n))

  -- A reference below an address that leads to no node.
  abbrev pub Dangling : NodeAddress → Type 0
  Dangling a = (b : NodeAddress) × Below t a b × (get_node t b ≡ ok none)

  module _ {root : NodeAddress} (d : Descends t root) where
    pub All-children :
        (a : NodeAddress) (n : CoverNode F)
        → Below t root a
        → get_node t a ≡ ok (some n)
        → (st : List NodeAddress) → All (Below t root) st
        → All (Below t root) (extend (children_of n) st)
    unfolding extend
    All-children a n b e st h = go (children_of n) st (λ c m. child n b e m) h
      where
        go :
            (cs st : List NodeAddress)
            → ((c : NodeAddress) → Memᴰ c cs → Below t root c)
            → All (Below t root) st
            → All (Below t root) (extend cs st)
        go [] st f h = h
        go (c ∷ cs) st f h = go cs (c ∷ st) (λ x m. f x (Memᴰ.tail m)) (f c (Memᴰ.head refl), h)

    -- The stack after a visit needs one step less.
    pub less_fuel :
        (fuel : ℕ) (a : NodeAddress) (n : CoverNode F) (st : List NodeAddress)
        → Below t root a
        → get_node t a ≡ ok (some n)
        → sum_of (nodes_below t) (a ∷ st) ≤ suc fuel
        → sum_of (nodes_below t) (extend (children_of n) st) ≤ fuel
    unfolding sum_of
    less_fuel fuel a n st b e h =
        omega
          (arith, sum-extend (nodes_below t) (children_of n) st, nodes_below-children t d a n b e)

    abbrev Checked : List NodeAddress → Bool → Type 0
    Checked st true = (a : NodeAddress) → Memᴰ a st → Whole a
    Checked st false = Dangling root

    same_node :
        (n n' : CoverNode F)
        → ◌≡◌ {A = Outcome GokoError (Option (CoverNode F))} (ok (some n)) (ok (some n'))
        → n ≡ n'
    same_node n n' e = cc

    Whole-step :
        (a : NodeAddress) (n : CoverNode F) (st : List NodeAddress)
        → get_node t a ≡ ok (some n)
        → ((c : NodeAddress) → Memᴰ c (extend (children_of n) st) → Whole c)
        → (c : NodeAddress) → Memᴰ c (a ∷ st)
        → Whole c
    Whole-step a n st e w c (Memᴰ.tail m) = w c (Memᴰ-extend c (children_of n) st m)
    Whole-step a n st e w c (Memᴰ.head q) = λ b p. first b (Below-FirstStep t p)
      where
        first :
            (b : NodeAddress) → FirstStep t c b → (n : CoverNode F) × (get_node t b ≡ ok (some n))
        first b (here r) = (n, ap (get_node t) (r ∙ q) ∙ e)
        first b (down n' x e' m p) =
            w x
              (Memᴰ-extended x (children_of n) st (
                subst (λ l. Memᴰ x (children_of l))
                  (same_node n' n (sym e' ∙ ap (get_node t) q ∙ e)) m))
              b p

    check_refs_lem :
        (fuel : ℕ) (st : List NodeAddress)
        → All (Below t root) st
        → sum_of (nodes_below t) st ≤ fuel
        → (b : Bool) × (check_refs fuel t st ≡ ok b) × Checked st b
    unfolding check_refs sum_of
    check_refs_lem fuel [] h f = (true, refl, λ a m. elim m [ ])
    check_refs_lem zero (a ∷ st) h f = absurd (omega (arith, nodes_below-pos t d a))
    check_refs_lem (suc fuel) (a ∷ st) h f = visit (d.read a h.0) (check_refs_lem fuel)
      where
        visit :
            (o : Option (CoverNode F)) × (get_node t a ≡ ok o)
            → ((st : List NodeAddress)
                → All (Below t root) st
                → sum_of (nodes_below t) st ≤ fuel
                → (b : Bool) × (check_refs fuel t st ≡ ok b) × Checked st b)
            → (b : Bool) × (check_refs (suc fuel) t (a ∷ st) ≡ ok b) × Checked (a ∷ st) b
        visit (none, e) ih = (false, rw (e, check_refs) refl, (a, h.0, e))
        visit (some n, e) ih =
            let (b, run, c) =
              ih (extend (children_of n) st) (All-children a n h.0 e st h.1)
                (less_fuel fuel a n st h.0 e f) in
            (b, rw (e, check_refs) run, after b c)
          where
            after : (b : Bool) → Checked (extend (children_of n) st) b → Checked (a ∷ st) b
            after true w = Whole-step a n st e w
            after false x = x

    both_ways : (b : Bool) → Checked (root ∷ []) b → (b ≡ true) ↔ Whole root
    both_ways true w = (λ e. w root (Memᴰ.head refl), λ h. refl)
    both_ways false (a, below, e) =
        (λ q. absurd (cc), λ h. let (n, e') = h a below in absurd (missing n (sym e ∙ e')))
      where
        missing :
            (n : CoverNode F)
            → ◌≡◌ {A = Outcome GokoError (Option (CoverNode F))} (ok none) (ok (some n))
            → ⊥
        missing n e = cc

-- In a tree whose reads do not panic and whose children are at lower scales, `no_dangling_refs`
-- ends within as many turns as there are nodes below the root, and answers whether every address
-- that is reached from the root by references leads to a node.
pub no_dangling_refs_iff :
    {F : Type 0} (t : CoverTree F) (fuel : ℕ)
    → Descends t t.root_address
    → nodes_below t t.root_address ≤ fuel
    → (b : Bool) × (no_dangling_refs fuel t ≡ ok b) × ((b ≡ true) ↔ Whole t t.root_address)
unfolding no_dangling_refs sum_of
no_dangling_refs_iff t fuel d h =
    let (b, run, c) = check_refs_lem t d fuel (t.root_address ∷ []) (itself, tt) (omega arith) in
    (b, run, both_ways t d b c)
