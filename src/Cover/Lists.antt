-- ===== src/Cover/Lists.antt =====
-- Lists that are permutations of each other, for the points that the builder hands around.
use mathlib.Core.List.{Perm, Permᴰ, append_assoc, perm_middle}
use mathlib.Core.List.Perm
use mathlib.Core.Logic.{∥∥₁_elim}
use native.Mathlib.Nat.{ℕ_set}
use goko.Common.{All, suc, ◌≡◌, ◌∙◌, refl, sym, ap, List, [], ◌∷◌, ◌++◌, length, map}

-- Lists that are permutations have one length.
pub Perm-length {ℓ} : {A : Type ℓ} {xs ys : List A} → Perm xs ys → length xs ≡ length ys
Perm-length {A = A} {xs} {ys} p = ∥∥₁_elim p (ℕ_set (length xs) (length ys)) go
  where
    go : {xs ys : List A} → Permᴰ xs ys → length xs ≡ length ys
    go Permᴰ.nil = refl
    go (Permᴰ.cons e d) = ap suc (go d)
    go (Permᴰ.swap e f) = refl
    go (Permᴰ.trans d e) = go d ∙ go e

-- A block moves to the front.
pub perm_block {ℓ} : {A : Type ℓ} (s l m : List A) → Perm (s ++ (l ++ m)) (l ++ (s ++ m))
perm_block s [] m = Perm.refl (s ++ m)
perm_block s (x ∷ l) m = Perm.trans (perm_middle s (l ++ m)) (Perm.cons x (perm_block s l m))

pub map-append {ℓ κ} :
    {A : Type ℓ} {B : Type κ} (f : A → B) (xs ys : List A) → map f (xs ++ ys) ≡ map f xs ++ map f ys
map-append f [] ys = refl
map-append f (x ∷ xs) ys = ap (◌∷◌ (f x)) (map-append f xs ys)

pub All-append {ℓ κ} :
    {A : Type ℓ} (P : A → Type κ) (xs ys : List A) → All P xs → All P ys → All P (xs ++ ys)
All-append P [] ys a b = b
All-append P (x ∷ xs) ys a b = (a.0, All-append P xs ys a.1 b)

-- Two lists of parts side by side.
pub perm_parts {ℓ} :
    {A : Type ℓ} (s t l m : List A) {xs ys : List A}
    → Perm (s ++ l) xs
    → Perm (t ++ m) ys
    → Perm ((s ++ t) ++ (l ++ m)) (xs ++ ys)
perm_parts s t l m p q =
    let q' = Perm.append_left s (perm_block t l m) in
    let r = Perm.append p q in
    rw (append_assoc s t (l ++ m)) (Perm.trans q' (rw (sym (append_assoc s l (t ++ m))) r))
