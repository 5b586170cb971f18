-- ===== src/Cover/Nearest/Marks.antt =====
-- goko/src/covertree/data_caches.rs: what the marks of `cover_thyself` say of the points.
use mathlib.Core.Path.{subst}
use mathlib.Core.List.{Memᴰ}
use mathlib.Core.List.Memᴰ
use goko.Common.{
  All, ℕ, zero, suc, ◌<◌, ◌≤◌, ◌≡◌, inl, inr, refl, sym, Bool, true, false, some, List, [], ◌∷◌,
  ◌++◌, ◌||◌, get_elem?, arith, Bool-cases, if◌then◌else◌,
}
use goko.Points.Float.{Float, Cloud}
use goko.Points.Distances.{distance, distances, distances_cons}
use goko.Cover.Lists.{All-append}
use goko.Cover.Nearest.{uncovered, any_uncovered, mark}

-- The number of marks that are false.
unfoldable pub unmarked : List Bool → ℕ
unmarked [] = 0
unmarked (b ∷ bs) = if b then unmarked bs else suc (unmarked bs)

module _ {fl : Float} (cloud : Cloud fl) where
  open fl use {F, lt}
  open cloud use {Point, point}

  -- The distance of a point to a centre, as the code reads it.
  pub record Measured (m p : ℕ) (e : F) : Type 0 where
    pub center_point : Point
    pub center : point m ≡ some center_point
    pub measured : distance cloud center_point p ≡ some e

  -- Reading the distances of a list that is not empty.
  pub distances_at :
      (x : Point) (p : ℕ) (ps : List ℕ) (d : F) (ds : List F)
      → distances cloud x (p ∷ ps) ≡ some (d ∷ ds)
      → (distance cloud x p ≡ some d) × (distances cloud x ps ≡ some ds)
  distances_at x p ps d ds run =
      let (d', es, e, run', q) = distances_cons cloud x p ps (d ∷ ds) run in (cc, cc)

  pub distances_none : (x : Point) (p : ℕ) (ps : List ℕ) → ¬ (distances cloud x (p ∷ ps) ≡ some [])
  distances_none x p ps run = let (d', es, e, run', q) = distances_cons cloud x p ps [] run in cc

  module _ (r : F) where
    -- One of the centres is nearer to the point than the radius.
    pub record Within (cs : List ℕ) (p : ℕ) : Type 0 where
      pub by : ℕ
      pub picked : Memᴰ by cs
      pub dist : F
      pub true_dist : Measured by p dist
      pub near : lt dist r ≡ true

    -- No centre is nearer to the point than the radius.
    abbrev pub Apart : List ℕ → ℕ → Type 0
    Apart cs p = All (λ m. (e : F) × Measured m p e × (lt e r ≡ false)) cs

    abbrev pub Marked : List ℕ → ℕ → Bool → Type 0
    Marked cs p true = Within cs p
    Marked cs p false = Apart cs p

    -- A mark for each point that says whether a centre covers it.
    abbrev pub Marks : List ℕ → List ℕ → List Bool → Type 0
    Marks cs [] [] = Unit
    Marks cs (p ∷ ps) (b ∷ bs) = Marked cs p b × Marks cs ps bs
    Marks cs [] (b ∷ bs) = ⊥
    Marks cs (p ∷ ps) [] = ⊥

    Within-append : {cs : List ℕ} (m : ℕ) {p : ℕ} → Within cs p → Within (cs ++ m ∷ []) p
    Within-append {cs} m w = record {
      by = w.by;
      picked = Memᴰ.append_left (m ∷ []) w.picked;
      dist = w.dist;
      true_dist = w.true_dist;
      near = w.near;
    }

    Within-new :
        (cs : List ℕ) (m p : ℕ) (e : F) → Measured m p e → lt e r ≡ true → Within (cs ++ m ∷ []) p
    Within-new cs m p e t n = record {
      by = m;
      picked = Memᴰ.append_right cs (Memᴰ.head refl);
      dist = e;
      true_dist = t;
      near = n;
    }

    pub mark_one :
        (cs : List ℕ) (m p : ℕ) (b : Bool) (d : F)
        → Measured m p d
        → Marked cs p b
        → Marked (cs ++ m ∷ []) p (b || lt d r)
    mark_one cs m p true d t k = Within-append m k
    mark_one cs m p false d t k = elim (Bool-cases (lt d r)) [
      | inl n ↦ subst (Marked (cs ++ m ∷ []) p) (sym n) (Within-new cs m p d t n)
      | inr n ↦ subst (Marked (cs ++ m ∷ []) p) (sym n) (
          All-append (λ c. (e : F) × Measured c p e × (lt e r ≡ false)) cs (m ∷ []) k
            ((d, t, n), tt))
    ]

    -- Marking by the distances to one more centre.
    pub mark-Marks :
        (cs : List ℕ) (m : ℕ) (x : Point) (ps : List ℕ) (bs : List Bool) (ds : List F)
        → point m ≡ some x
        → distances cloud x ps ≡ some ds
        → Marks cs ps bs
        → Marks (cs ++ m ∷ []) ps (mark fl r bs ds)
    unfolding mark
    mark-Marks cs m x [] [] [] there run k = tt
    mark-Marks cs m x [] [] (d ∷ ds) there run k = tt
    mark-Marks cs m x [] (b ∷ bs) ds there run k = absurd k
    mark-Marks cs m x (p ∷ ps) [] ds there run k = absurd k
    mark-Marks cs m x (p ∷ ps) (b ∷ bs) [] there run k = absurd (distances_none x p ps run)
    mark-Marks cs m x (p ∷ ps) (b ∷ bs) (d ∷ ds) there run k =
        let (e, rest) = distances_at x p ps d ds run in
        (
          mark_one cs m p b d (record { center_point = x; center = there; measured = e }) k.0,
          mark-Marks cs m x ps bs ds there rest k.1,
        )

    -- The marks go down, and by at least one where an unmarked point is the new centre.
    pub mark_le : (bs : List Bool) (ds : List F) → unmarked (mark fl r bs ds) ≤ unmarked bs
    unfolding mark unmarked
    mark_le [] ds = omega arith
    mark_le (b ∷ bs) [] = omega arith
    mark_le (b ∷ bs) (d ∷ ds) = ground (arith, mark_le bs ds)

    pub mark_lt :
        (x : Point) (m : ℕ) (ps : List ℕ) (bs : List Bool) (ds : List F) (i : ℕ)
        → distances cloud x ps ≡ some ds
        → get_elem? (uncovered ps bs) i ≡ some m
        → ((e : F) → distance cloud x m ≡ some e → lt e r ≡ true)
        → unmarked (mark fl r bs ds) < unmarked bs
    unfolding mark unmarked uncovered
    mark_lt x m [] bs ds i run at self = cc
    mark_lt x m (p ∷ ps) [] ds i run at self = cc
    mark_lt x m (p ∷ ps) (b ∷ bs) [] i run at self = absurd (distances_none x p ps run)
    mark_lt x m (p ∷ ps) (true ∷ bs) (d ∷ ds) i run at self =
        mark_lt x m ps bs ds i (distances_at x p ps d ds run).1 at self
    mark_lt x m (p ∷ ps) (false ∷ bs) (d ∷ ds) zero run at self =
        let same : p ≡ m = cc in
        let near =
          self d (subst (λ q. distance cloud x q ≡ some d) same (distances_at x p ps d ds run).0) in
        rw near (omega (arith, mark_le bs ds))
    mark_lt x m (p ∷ ps) (false ∷ bs) (d ∷ ds) (suc i) run at self =
        ground (arith, mark_lt x m ps bs ds i (distances_at x p ps d ds run).1 at self)

    -- `choose` is asked only where a point is left.
    pub any_uncovered-left :
        (cs ps : List ℕ) (bs : List Bool)
        → Marks cs ps bs
        → any_uncovered bs ≡ true
        → (q : ℕ) × (rest : List ℕ) × (uncovered ps bs ≡ q ∷ rest)
    unfolding any_uncovered uncovered
    any_uncovered-left cs [] [] k a = cc
    any_uncovered-left cs [] (b ∷ bs) k a = absurd k
    any_uncovered-left cs (p ∷ ps) [] k a = absurd k
    any_uncovered-left cs (p ∷ ps) (true ∷ bs) k a = any_uncovered-left cs ps bs k.1 a
    any_uncovered-left cs (p ∷ ps) (false ∷ bs) k a = (p, uncovered ps bs, refl)

    -- An unmarked point is a point of the list that is apart from all centres.
    pub uncovered-Apart :
        (cs ps : List ℕ) (bs : List Bool) (i m : ℕ)
        → Marks cs ps bs
        → get_elem? (uncovered ps bs) i ≡ some m
        → Memᴰ m ps × Apart cs m
    unfolding uncovered
    uncovered-Apart cs [] bs i m k at = cc
    uncovered-Apart cs (p ∷ ps) [] i m k at = absurd k
    uncovered-Apart cs (p ∷ ps) (true ∷ bs) i m k at =
        let (mem, far) = uncovered-Apart cs ps bs i m k.1 at in (Memᴰ.tail mem, far)
    uncovered-Apart cs (p ∷ ps) (false ∷ bs) zero m k at =
        let same : p ≡ m = cc in (Memᴰ.head (sym same), subst (λ q. Apart cs q) same k.0)
    uncovered-Apart cs (p ∷ ps) (false ∷ bs) (suc i) m k at =
        let (mem, far) = uncovered-Apart cs ps bs i m k.1 at in (Memᴰ.tail mem, far)

    -- Where no mark is left, every point is within the radius of a centre.
    pub all-Within :
        (cs ps : List ℕ) (bs : List Bool)
        → Marks cs ps bs
        → any_uncovered bs ≡ false
        → All (Within cs) ps
    unfolding any_uncovered
    all-Within cs [] [] k a = tt
    all-Within cs [] (b ∷ bs) k a = absurd k
    all-Within cs (p ∷ ps) [] k a = absurd k
    all-Within cs (p ∷ ps) (true ∷ bs) k a = (k.0, all-Within cs ps bs k.1 a)
    all-Within cs (p ∷ ps) (false ∷ bs) k a = cc
