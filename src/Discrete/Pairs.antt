-- ===== src/Discrete/Pairs.antt =====
-- parameter_store.rs: the indexes and the values as one list of pairs, and what each kind of change
-- of the two lists does to it.
use goko.Common.{
  ℕ, suc, ◌+◌, ◌<◌, ◌≡◌, ◌≢◌, refl, sym, ap, false, Option, none, some, List, [], ◌∷◌, length, ◌==◌,
  ltb, if◌then◌else◌, get_elem?, arith, Bool-cases, inl, inr,
}
use goko.Discrete.Params.{Search, found, missing, after, binary_search, insert, write}

-- The lists side by side, as the iterator gives them.
abbrev pub zip : List ℕ → List ℕ → List (ℕ × ℕ)
zip [] vs = []
zip (k ∷ ks) [] = []
zip (k ∷ ks) (v ∷ vs) = (k, v) ∷ zip ks vs

abbrev pub lookup : ℕ → List (ℕ × ℕ) → Option ℕ
lookup x [] = none
lookup x ((k, v) ∷ ps) = if x == k then some v else lookup x ps

-- The value at `x` in a sorted list becomes `w`.
abbrev pub put : ℕ → ℕ → List (ℕ × ℕ) → List (ℕ × ℕ)
put x w [] = (x, w) ∷ []
put x w ((k, v) ∷ ps) =
    let rest = put x w ps in
    if x == k then (k, w) ∷ ps else if ltb x k then (x, w) ∷ (k, v) ∷ ps else (k, v) ∷ rest

abbrev pub sum : List ℕ → ℕ
sum [] = 0
sum (v ∷ vs) = v + sum vs

-- All elements are above the bound.
abbrev pub Above : ℕ → List ℕ → Type 0
Above b [] = Unit
Above b (k ∷ ks) = (b < k) × Above b ks

abbrev pub Sorted : List ℕ → Type 0
Sorted [] = Unit
Sorted (k ∷ ks) = Above k ks × Sorted ks

-- What a search tells of both lists.
abbrev pub Located : ℕ → List ℕ → List ℕ → Search → Type 0
Located x ks vs (found i) =
    (v : ℕ) × (get_elem? vs i ≡ some v)
    × (lookup x (zip ks vs) ≡ some v)
    × ((w : ℕ)
        → (vs' : List ℕ) × (write i w vs ≡ some vs')
          × (get_elem? vs' i ≡ some w)
          × (length vs' ≡ length vs)
          × (sum vs' + v ≡ sum vs + w)
          × (zip ks vs' ≡ put x w (zip ks vs)))
Located x ks vs (missing i) =
    (lookup x (zip ks vs) ≡ none)
    × ((w : ℕ)
        → (ks' : List ℕ) × (vs' : List ℕ) × (insert i x ks ≡ some ks')
          × (insert i w vs ≡ some vs')
          × (get_elem? vs' i ≡ some w)
          × (length vs' ≡ length ks')
          × (sum vs' ≡ sum vs + w)
          × Sorted ks'
          × ((b : ℕ) → b < x → Above b ks → Above b ks')
          × (zip ks' vs' ≡ put x w (zip ks vs)))

pub lookup-Above : (x : ℕ) (ks vs : List ℕ) → Above x ks → lookup x (zip ks vs) ≡ none
lookup-Above x [] vs a = refl
lookup-Above x (k ∷ ks) [] a = refl
lookup-Above x (k ∷ ks) (v ∷ vs) a = ground (arith, lookup-Above x ks vs a.1)

pub Above-trans : (a b : ℕ) (ks : List ℕ) → a < b → Above b ks → Above a ks
Above-trans a b [] h k = tt
Above-trans a b (x ∷ ks) h k = (omega arith, Above-trans a b ks h k.1)

Located-after :
    (x k v : ℕ) (ks vs : List ℕ) (r : Search)
    → (x == k) ≡ false
    → ltb x k ≡ false
    → Above k ks
    → Located x ks vs r
    → Located x (k ∷ ks) (v ∷ vs) (after r)
unfolding insert write
Located-after x k v ks vs (found i) ne ge a (u, at, seen, changed) = (
  u,
  at,
  rw (ne, seen),
  λ w.
      let (vs', e, new, l, s, p) = changed w in
      (v ∷ vs', ground (arith, e, at), new, ap suc l, omega arith, rw (p, ne, ge)),
)
Located-after x k v ks vs (missing i) ne ge a (unseen, grown) = (
  rw (ne, unseen),
  λ w.
      let (ks', vs', e, f, new, l, s, sorted, bound, p) = grown w in
      (
        k ∷ ks',
        v ∷ vs',
        rw e,
        rw f,
        new,
        ap suc l,
        omega arith,
        (bound k (ground arith) a, sorted),
        λ b h c. (c.0, bound b h c.1),
        rw (p, ne, ge),
      ),
)

pub binary_search-Located :
    (x : ℕ) (ks vs : List ℕ)
    → Sorted ks
    → length ks ≡ length vs
    → Located x ks vs (binary_search x ks)
unfolding binary_search insert write
binary_search-Located x [] [] s e = (
  refl,
  λ w. (x ∷ [], w ∷ [], refl, refl, refl, refl, omega arith, (tt, tt), λ b h c. (h, tt), refl),
)
binary_search-Located x [] (v ∷ vs) s e = absurd (omega arith)
binary_search-Located x (k ∷ ks) [] s e = absurd (omega arith)
binary_search-Located x (k ∷ ks) (v ∷ vs) s e = elim (Bool-cases (x == k)) [
  | inl same ↦ rw same (v, refl, rw same, λ w. (w ∷ vs, refl, refl, refl, omega arith, rw same))
  | inr other ↦ elim (Bool-cases (ltb x k)) [
    | inl lower ↦
        rw (other, lower)
          (
            rw other (lookup-Above x ks vs (Above-trans x k ks (ground arith) s.0)),
            λ w. (
              x ∷ k ∷ ks,
              w ∷ v ∷ vs,
              refl,
              refl,
              refl,
              ap suc (ap suc (sym (omega arith))),
              omega arith,
              ((ground arith, Above-trans x k ks (ground arith) s.0), s),
              λ b h c. (h, c),
              rw (other, lower),
            ),
          )
    | inr higher ↦
        rw (other, higher)
          (Located-after x k v ks vs (binary_search x ks) other higher s.0
            (binary_search-Located x ks vs s.1 (omega arith)))
  ]
]

pub lookup-put_self : (x w : ℕ) (ps : List (ℕ × ℕ)) → lookup x (put x w ps) ≡ some w
lookup-put_self x w [] = ground arith
lookup-put_self x w ((k, v) ∷ ps) = ground (arith, lookup-put_self x w ps)

pub lookup-put_ne : (x y w : ℕ) (ps : List (ℕ × ℕ)) → x ≢ y → lookup y (put x w ps) ≡ lookup y ps
lookup-put_ne x y w [] h = ground arith
lookup-put_ne x y w ((k, v) ∷ ps) h = ground (arith, lookup-put_ne x y w ps h)
