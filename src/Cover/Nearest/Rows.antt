-- ===== src/Cover/Nearest/Rows.antt =====
-- goko/src/covertree/data_caches.rs: the rows of distances of the centres, and a column of them.
use mathlib.Core.Path.{subst}
use goko.Common.{
  All, ℕ, zero, suc, ◌≡◌, ◌∙◌, refl, sym, ap, false, some, List, [], ◌∷◌, ◌++◌, get_elem?,
}
use goko.Common.Outcome.{ok}
use goko.Points.Float.{Float, Cloud}
use goko.Points.Distances.{distance, distances}
use goko.Cover.Caches.{distances_to_index}
use goko.Cover.Nearest.{column}
use goko.Cover.Nearest.Marks.{Measured, distances_at, distances_none}
use goko.Cover.Nearest.Covers.{Spread, alone, pick, at_index}

module _ {fl : Float} (cloud : Cloud fl) where
  open fl use {F, lt}
  open cloud use {Point, point}

  -- The row of each centre.
  abbrev pub Rows : List ℕ → List ℕ → List (List F) → Type 0
  Rows ps [] [] = Unit
  Rows ps (m ∷ ms) (row ∷ rows) = (distances_to_index cloud m ps ≡ ok row) × Rows ps ms rows
  Rows ps [] (row ∷ rows) = ⊥
  Rows ps (m ∷ ms) [] = ⊥

  Rows-snoc :
      (ps ms : List ℕ) (rows : List (List F)) (m : ℕ) (row : List F)
      → Rows ps ms rows
      → distances_to_index cloud m ps ≡ ok row
      → Rows ps (ms ++ m ∷ []) (rows ++ row ∷ [])
  Rows-snoc ps [] [] m row r e = (e, tt)
  Rows-snoc ps [] (x ∷ rows) m row r e = absurd r
  Rows-snoc ps (n ∷ ms) [] m row r e = absurd r
  Rows-snoc ps (n ∷ ms) (x ∷ rows) m row r e = (r.0, Rows-snoc ps ms rows m row r.1 e)

  pub Spread-Rows :
      {r : F} {ps ms : List ℕ} {rows : List (List F)} → Spread cloud r ps ms rows → Rows ps ms rows
  Spread-Rows (alone e) = (e, tt)
  Spread-Rows {r} {ps} (pick {cs} {rows} m ds s far mem e) =
      Rows-snoc ps cs rows m ds (Spread-Rows s) e

  -- The distances of one point to the centres.
  abbrev pub Column : ℕ → List ℕ → List F → Type 0
  Column p [] [] = Unit
  Column p (m ∷ ms) (d ∷ ds) = Measured cloud m p d × Column p ms ds
  Column p [] (d ∷ ds) = ⊥
  Column p (m ∷ ms) [] = ⊥

  at_point :
      (x : Point) (ps : List ℕ) (ds : List F) (i p : ℕ)
      → distances cloud x ps ≡ some ds
      → get_elem? ps i ≡ some p
      → (d : F) × (get_elem? ds i ≡ some d) × (distance cloud x p ≡ some d)
  at_point x [] ds i p run at = cc
  at_point x (q ∷ ps) [] i p run at = absurd (distances_none cloud x q ps run)
  at_point x (q ∷ ps) (d ∷ ds) zero p run at =
      let same : q ≡ p = cc in
      (d, refl, ap (distance cloud x) (sym same) ∙ (distances_at cloud x q ps d ds run).0)
  at_point x (q ∷ ps) (d ∷ ds) (suc i) p run at =
      at_point x ps ds i p (distances_at cloud x q ps d ds run).1 at

  pub row_at :
      (m : ℕ) (ps : List ℕ) (row : List F) (i p : ℕ)
      → distances_to_index cloud m ps ≡ ok row
      → get_elem? ps i ≡ some p
      → (d : F) × (get_elem? row i ≡ some d) × Measured cloud m p d
  row_at m ps row i p e at =
      let (x, there, run) = at_index cloud m ps row e in
      let (d, got, near) = at_point x ps row i p run at in
      (d, got, record { center_point = x; center = there; measured = near })

  pub column-Column :
      (ps ms : List ℕ) (rows : List (List F)) (i p : ℕ)
      → Rows ps ms rows
      → get_elem? ps i ≡ some p
      → (ds : List F) × (column cloud i rows ≡ ok ds) × Column p ms ds
  unfolding column
  column-Column ps [] [] i p r at = ([], refl, tt)
  column-Column ps [] (row ∷ rows) i p r at = absurd r
  column-Column ps (m ∷ ms) [] i p r at = absurd r
  column-Column ps (m ∷ ms) (row ∷ rows) i p r at =
      let (d, got, near) = row_at m ps row i p r.0 at in
      let (ds, run, c) = column-Column ps ms rows i p r.1 at in
      (d ∷ ds, rw (got, run) refl, (near, c))

  -- The centre at the place of a distance.
  pub Column-at :
      (p : ℕ) (ms : List ℕ) (ds : List F) (j : ℕ) (d : F)
      → Column p ms ds
      → get_elem? ds j ≡ some d
      → (m : ℕ) × (get_elem? ms j ≡ some m) × Measured cloud m p d
  Column-at p [] [] j d c at = cc
  Column-at p [] (e ∷ ds) j d c at = absurd c
  Column-at p (m ∷ ms) [] j d c at = absurd c
  Column-at p (m ∷ ms) (e ∷ ds) zero d c at =
      let same : e ≡ d = cc in (m, refl, subst (Measured cloud m p) same c.0)
  Column-at p (m ∷ ms) (e ∷ ds) (suc j) d c at = Column-at p ms ds j d c.1 at

  -- A distance that none of a column is below is one that no centre of it is nearer than.
  pub Column-least :
      (p : ℕ) (ms : List ℕ) (ds : List F) (d : F)
      → Column p ms ds
      → All (λ e. lt e d ≡ false) ds
      → All (λ m. (e : F) × Measured cloud m p e × (lt e d ≡ false)) ms
  Column-least p [] ds d c a = tt
  Column-least p (m ∷ ms) [] d c a = absurd c
  Column-least p (m ∷ ms) (e ∷ ds) d c a = ((e, c.0, a.0), Column-least p ms ds d c.1 a.1)
