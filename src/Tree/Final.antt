-- ===== src/Tree/Final.antt =====
-- goko/src/covertree/tree.rs: what `refresh_final_indexes` writes.
use mathlib.Core.Path.{subst}
use mathlib.Core.Logic.{if_pos, if_neg}
use mathlib.Core.List.{Memᴰ}
use mathlib.Core.List.Memᴰ
use goko.Common.{
  All, ℕ, zero, suc, ◌≤◌, ◌≡◌, ◌∙◌, ◌⊎◌, inl, inr, refl, sym, ap, Option, none, some, List, [], ◌∷◌,
  arith, ℕ_discrete, Option-cases,
}
use goko.Common.Outcome.{Outcome, ok}
use goko.Monomap.Table.{get, insert, get-insert}
use goko.Address.{NodeAddress, point_index}
use goko.Cover.Node.{GokoError, CoverNode}
use goko.Tree.Reader.{
  CoverTree, get_node, children_of, extend, insert_all, write_final, write_finals,
  refresh_final_indexes,
}
use goko.Tree.Levels.{
  Below, itself, child, Descends, sum_of, nodes_below, nodes_below-pos, FirstStep, Below-FirstStep,
  here, down, Memᴰ-extend, Memᴰ-extended, Memᴰ-extend_cases, Below-trans,
}
use goko.Tree.Dangling.{Whole, All-children, less_fuel}

-- The entry of a point after some writes: the address written, or the old entry.
abbrev Written : Type 0 → NodeAddress → Option NodeAddress → Option NodeAddress → Type 0
Written E a old now = (E × (now ≡ some a)) ⊎ ((E → ⊥) × (now ≡ old))

insert-Written :
    (a : NodeAddress) (p i : ℕ) (m : List (ℕ × NodeAddress))
    → Written (p ≡ i) a (get ℕ_discrete p m) (get ℕ_discrete p (insert ℕ_discrete i a m))
insert-Written a p i m = elim (ℕ_discrete i p) [
  | yes q ↦ inl (
    sym q,
    get-insert ℕ_discrete i p a m ∙ if_pos (ℕ_discrete i p) q (some a) (get ℕ_discrete p m),
  )
  | no q ↦ inr (
    λ e. q (sym e),
    get-insert ℕ_discrete i p a m ∙ if_neg (ℕ_discrete i p) q (some a) (get ℕ_discrete p m),
  )
]

insert_all-Written :
    (a : NodeAddress) (p : ℕ) (is : List ℕ) (m : List (ℕ × NodeAddress))
    → Written (Memᴰ p is) a (get ℕ_discrete p m) (get ℕ_discrete p (insert_all a is m))
unfolding insert_all
insert_all-Written a p [] m = inr (λ i. elim i [ ], refl)
insert_all-Written a p (i ∷ is) m = elim (insert_all-Written a p is (insert ℕ_discrete i a m)) [
  | inl (x, e) ↦ inl (Memᴰ.tail x, e)
  | inr (f, e) ↦ elim (insert-Written a p i m) [
    | inl (q, e') ↦ inl (Memᴰ.head q, e ∙ e')
    | inr (g, e') ↦ inr (λ x. elim (Memᴰ.cases_cons x) [ inl q ↦ g q | inr y ↦ f y ], e ∙ e')
  ]
]

module _ {F : Type 0} where
  -- The points that end at a node: its singletons, and its centre where it is a leaf.
  pub data EndsAt (a : NodeAddress) (n : CoverNode F) (p : ℕ) : Type 0 where
    single : Memᴰ p n.singles_indexes → EndsAt a n p
    centre : n.children ≡ none → p ≡ point_index a → EndsAt a n p

  EndsAt-cases :
      (a : NodeAddress) (n : CoverNode F) (p : ℕ)
      → EndsAt a n p
      → Memᴰ p n.singles_indexes ⊎ ((n.children ≡ none) × (p ≡ point_index a))
  EndsAt-cases a n p (single x) = inl x
  EndsAt-cases a n p (centre z q) = inr (z, q)

  write_final-Written :
      (a : NodeAddress) (p : ℕ) (n : CoverNode F) (m : List (ℕ × NodeAddress))
      → Written (EndsAt a n p) a (get ℕ_discrete p m) (get ℕ_discrete p (write_final a n m))
  unfolding write_final
  write_final-Written a p n m = elim (Option-cases n.children) [
    | inr (cs, k) ↦ elim (insert_all-Written a p n.singles_indexes m) [
      | inl (x, e) ↦ inl (single x, rw (k, write_final) e)
      | inr (f, e) ↦ inr (
        λ h. elim (EndsAt-cases a n p h) [
          | inl x ↦ f x
          | inr (z, q) ↦ let no_leaf = sym k ∙ z in absurd (cc)
        ],
        rw (k, write_final) e,
      )
    ]
    | inl k ↦ elim (insert-Written a p (point_index a) (insert_all a n.singles_indexes m)) [
      | inl (q, e) ↦ inl (centre k q, rw (k, write_final) e)
      | inr (g, e) ↦ elim (insert_all-Written a p n.singles_indexes m) [
        | inl (x, e') ↦ inl (single x, rw (k, write_final) (e ∙ e'))
        | inr (f, e') ↦ inr (
          λ h. elim (EndsAt-cases a n p h) [ inl x ↦ f x | inr (z, q) ↦ g q ],
          rw (k, write_final) (e ∙ e'),
        )
      ]
    ]
  ]

module _ {F : Type 0} (t : CoverTree F) where
  -- A node below an address at which a point ends.
  pub record Ends (s : NodeAddress) (p : ℕ) (a : NodeAddress) : Type 0 where
    pub node : CoverNode F
    pub below : Below t s a
    pub read : get_node t a ≡ ok (some node)
    pub ends : EndsAt a node p

  from_below : {s x a : NodeAddress} {p : ℕ} → Ends s p a → Below t x a → Ends x p a
  from_below h w = record { node = h.node; below = w; read = h.read; ends = h.ends }

  -- The final address of a point after the visits below some addresses.
  data Refreshed (p : ℕ) (st : List NodeAddress) (old now : Option NodeAddress) : Type 0 where
    found : (s a : NodeAddress) → Memᴰ s st → Ends s p a → now ≡ some a → Refreshed p st old now
    absent : ((s a : NodeAddress) → Memᴰ s st → Ends s p a → ⊥) → now ≡ old → Refreshed p st old now

  same_node :
      (n n' : CoverNode F)
      → ◌≡◌ {A = Outcome GokoError (Option (CoverNode F))} (ok (some n)) (ok (some n'))
      → n ≡ n'
  same_node n n' e = cc

  module _ (p : ℕ) (a : NodeAddress) (n : CoverNode F) (e : get_node t a ≡ ok (some n)) where
    -- A point that ends below the visited address ends there or below the stack after the visit.
    below_visit :
        (st : List NodeAddress) (s b : NodeAddress)
        → Memᴰ s (a ∷ st)
        → Ends s p b
        → EndsAt a n p ⊎ ((s' : NodeAddress) × Memᴰ s' (extend (children_of n) st) × Ends s' p b)
    below_visit st s b (Memᴰ.tail m) h = inr (s, Memᴰ-extend s (children_of n) st m, h)
    below_visit st s b (Memᴰ.head q) h = first (Below-FirstStep t h.below)
      where
        first :
            FirstStep t s b
            → EndsAt a n p
              ⊎ ((s' : NodeAddress) × Memᴰ s' (extend (children_of n) st) × Ends s' p b)
        first (here r) = inl (
            subst (λ x. EndsAt x n p) (r ∙ q)
              (subst (λ x. EndsAt b x p)
                (same_node h.node n (sym h.read ∙ ap (get_node t) (r ∙ q) ∙ e)) h.ends))
        first (down n' x e' m w) = inr (
          x,
          Memᴰ-extended x (children_of n) st (
              subst (λ l. Memᴰ x (children_of l)) (same_node n' n (sym e' ∙ ap (get_node t) q ∙ e))
                m),
          from_below h w,
        )

    above_visit :
        (st : List NodeAddress) (s b : NodeAddress)
        → Memᴰ s (extend (children_of n) st)
        → Ends s p b
        → (s' : NodeAddress) × Memᴰ s' (a ∷ st) × Ends s' p b
    above_visit st s b m h = elim (Memᴰ-extend_cases s (children_of n) st m) [
      | inl i ↦ (a, Memᴰ.head refl, from_below h (Below-trans t (child n itself e i) h.below))
      | inr i ↦ (s, Memᴰ.tail i, h)
    ]

    visit-Refreshed :
        (st : List NodeAddress) (old mid now : Option NodeAddress)
        → Written (EndsAt a n p) a old mid
        → Refreshed p (extend (children_of n) st) mid now
        → Refreshed p (a ∷ st) old now
    visit-Refreshed st old mid now w (found s b m h q) =
        let (s', m', h') = above_visit st s b m h in found s' b m' h' q
    visit-Refreshed st old mid now (inl (x, q)) (absent f r) =
        found a a (Memᴰ.head refl) (record { node = n; below = itself; read = e; ends = x }) (r ∙ q)
    visit-Refreshed st old mid now (inr (g, q)) (absent f r) =
        absent
          (λ s b m h. elim (below_visit st s b m h) [
            | inl x ↦ g x
            | inr (s', m', h') ↦ f s' b m' h'
          ])
          (r ∙ q)

  module _ {root : NodeAddress} (d : Descends t root) (whole : Whole t root) (p : ℕ) where
    write_finals-Refreshed :
        (fuel : ℕ) (st : List NodeAddress) (m : List (ℕ × NodeAddress))
        → All (Below t root) st
        → sum_of (nodes_below t) st ≤ fuel
        → (m' : List (ℕ × NodeAddress)) × (write_finals fuel t st m ≡ ok m')
          × Refreshed p st (get ℕ_discrete p m) (get ℕ_discrete p m')
    unfolding write_finals sum_of
    write_finals-Refreshed fuel [] m h f = (m, refl, absent (λ s a i. elim i [ ]) refl)
    write_finals-Refreshed zero (a ∷ st) m h f = absurd (omega (arith, nodes_below-pos t d a))
    write_finals-Refreshed (suc fuel) (a ∷ st) m h f =
        let (n, e) = whole a h.0 in
        let (m', run, r) =
          write_finals-Refreshed fuel (extend (children_of n) st) (write_final a n m)
            (All-children t d a n h.0 e st h.1) (less_fuel t d fuel a n st h.0 e f) in
        (
          m',
          rw (e, write_finals) run,
          visit-Refreshed p a n e st (get ℕ_discrete p m) (get ℕ_discrete p (write_final a n m))
              (get ℕ_discrete p m') (write_final-Written a p n m) r,
        )

-- In a tree whose references all lead to nodes and whose children are at lower scales,
-- `refresh_final_indexes` ends within as many turns as there are nodes, and does not panic. The
-- final address of a point is then a node below the root at which the point ends, as a singleton or
-- as the centre of a leaf; where there is none, the point keeps the entry that it had, if any.
pub refresh_final_indexes-Ends :
    {F : Type 0} (t : CoverTree F) (p fuel : ℕ)
    → Descends t t.root_address
    → Whole t t.root_address
    → nodes_below t t.root_address ≤ fuel
    → (t' : CoverTree F) × (refresh_final_indexes fuel t ≡ ok t')
      × (((a : NodeAddress) × Ends t t.root_address p a
            × (get ℕ_discrete p t'.final_addresses ≡ some a))
          ⊎ (((a : NodeAddress) → Ends t t.root_address p a → ⊥)
              × (get ℕ_discrete p t'.final_addresses ≡ get ℕ_discrete p t.final_addresses)))
unfolding refresh_final_indexes sum_of
refresh_final_indexes-Ends t p fuel d whole h =
    let (m, run, r) =
      write_finals-Refreshed t d whole p fuel (t.root_address ∷ []) t.final_addresses (itself, tt)
        (omega arith) in
    (record t { final_addresses = m }, rw run refl, conclude r)
  where
    conclude :
        {now : Option NodeAddress}
        → Refreshed t p (t.root_address ∷ []) (get ℕ_discrete p t.final_addresses) now
        → ((a : NodeAddress) × Ends t t.root_address p a × (now ≡ some a))
          ⊎ (((a : NodeAddress) → Ends t t.root_address p a → ⊥)
              × (now ≡ get ℕ_discrete p t.final_addresses))
    conclude (found s a (Memᴰ.head q) e w) = inl (a, subst (λ x. Ends t x p a) q e, w)
    conclude (found s a (Memᴰ.tail m) e w) = elim m [ ]
    conclude (absent f w) = inr (λ a e. f t.root_address a (Memᴰ.head refl) e, w)
