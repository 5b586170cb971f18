-- ===== src/Monomap/Table.antt =====
-- The hash map of a copy, `MapImpl<K, T, S>`, over keys with a decidable equality: its entries in
-- the order of their first insertion. The hasher and the capacity show in no result.
use mathlib.Core.Logic.{ite}
use goko.Common.{◌≡◌, refl, Bool, true, false, Option, none, some, List, [], ◌∷◌, arith}

module _ {ℓ} {K V : Type ℓ} (dec : Discrete K) where
  -- `get`
  unfoldable pub get : K → List (K × V) → Option V
  get k [] = none
  get k ((j, v) ∷ t) = ite (dec j k) (some v) (get k t)

  -- `insert`, the old value dropped
  unfoldable pub insert : K → V → List (K × V) → List (K × V)
  insert k v [] = (k, v) ∷ []
  insert k v ((j, w) ∷ t) = ite (dec j k) ((k, v) ∷ t) ((j, w) ∷ insert k v t)

  -- `if let Some(val) = get_mut(key) { f(val) }`
  unfoldable pub update : K → (V → V) → List (K × V) → List (K × V)
  update k f [] = []
  update k f ((j, w) ∷ t) = ite (dec j k) ((j, f w) ∷ t) ((j, w) ∷ update k f t)

  -- `remove`
  unfoldable pub remove : K → List (K × V) → List (K × V)
  remove k [] = []
  remove k ((j, w) ∷ t) = ite (dec j k) t ((j, w) ∷ remove k t)

  -- `contains_key`
  unfoldable pub contains_key : K → List (K × V) → Bool
  contains_key k [] = false
  contains_key k ((j, w) ∷ t) = ite (dec j k) true (contains_key k t)

  pub get-insert :
      (k q : K) (v : V) (t : List (K × V)) → get q (insert k v t) ≡ ite (dec k q) (some v) (get q t)
  unfolding get insert
  get-insert k q v [] = refl
  get-insert k q v ((j, w) ∷ t) = ground (arith, get-insert k q v t)

  pub get-update :
      (k q : K) (f : V → V) (t : List (K × V))
      → get q (update k f t)
        ≡ ite (dec k q) (elim (get q t) [ none ↦ none | some v ↦ some (f v) ]) (get q t)
  unfolding get update
  get-update k q f [] = ground arith
  get-update k q f ((j, w) ∷ t) = ground (arith, get-update k q f t)
