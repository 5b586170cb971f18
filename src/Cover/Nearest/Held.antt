-- ===== src/Cover/Nearest/Held.antt =====
-- goko/src/covertree/data_caches.rs: what the caches hold while the points are assigned.
use mathlib.Core.Path.{subst}
use mathlib.Core.List.{Perm, append-nil, perm_middle}
use mathlib.Core.List.Perm
use goko.Common.{
  All, ℕ, zero, suc, ◌≡◌, ◌⊎◌, ◌∙◌, inl, inr, refl, sym, ap, false, some, List, [], ◌∷◌, ◌++◌,
  get_elem?, Bool-cases, ◌==◌, ==_iff,
}
use goko.Common.Outcome.{ok}
use goko.Points.Float.{Float, Cloud}
use goko.Cover.Nearest.{NearestCoveredData, add_point, add_at}
use goko.Cover.Nearest.Marks.{Measured}

module _ {fl : Float} (cloud : Cloud fl) where
  open fl use {F, lt}

  -- The distance of a point to a centre, and none of the centres is nearer.
  pub record IsNearest (all : List ℕ) (p m : ℕ) (d : F) : Type 0 where
    pub true_dist : Measured cloud m p d
    pub least : All (λ c. (e : F) × Measured cloud c p e × (lt e d ≡ false)) all

  -- The points of a cache, with their distances, for which its centre is the nearest one.
  abbrev pub Entries : List ℕ → ℕ → List ℕ → List F → Type 0
  Entries all m [] [] = Unit
  Entries all m (p ∷ ps) (d ∷ ds) = IsNearest all p m d × Entries all m ps ds
  Entries all m [] (d ∷ ds) = ⊥
  Entries all m (p ∷ ps) [] = ⊥

  pub record Held (all : List ℕ) (m : ℕ) (c : NearestCoveredData F) : Type 0 where
    pub center : c.center_index ≡ m
    pub entries : Entries all m c.point_indexes c.center_dists

  -- A cache for each of the centres.
  abbrev pub AllHeld : List ℕ → List ℕ → List (NearestCoveredData F) → Type 0
  AllHeld all [] [] = Unit
  AllHeld all (m ∷ ms) (c ∷ cs) = Held all m c × AllHeld all ms cs
  AllHeld all [] (c ∷ cs) = ⊥
  AllHeld all (m ∷ ms) [] = ⊥

  Entries-snoc :
      (all : List ℕ) (m : ℕ) (ps : List ℕ) (ds : List F) (p : ℕ) (d : F)
      → Entries all m ps ds
      → IsNearest all p m d
      → Entries all m (ps ++ p ∷ []) (ds ++ d ∷ [])
  Entries-snoc all m [] [] p d h n = (n, tt)
  Entries-snoc all m [] (e ∷ ds) p d h n = absurd h
  Entries-snoc all m (q ∷ ps) [] p d h n = absurd h
  Entries-snoc all m (q ∷ ps) (e ∷ ds) p d h n = (h.0, Entries-snoc all m ps ds p d h.1 n)

  -- The points of the caches after one is added, or left out as the centre of its cache.
  pub record Adds (p m : ℕ) (before after : List ℕ) : Type 0 where
    pub how : Perm after (p ∷ before) ⊎ ((after ≡ before) × (p ≡ m))

  pub Adds-left :
      (p m : ℕ) (l before after : List ℕ)
      → Adds p m before after
      → Adds p m (l ++ before) (l ++ after)
  Adds-left p m l before after a = elim a.how [
    | inl more ↦ record { how = inl (Perm.trans (Perm.append_left l more) (perm_middle l before)) }
    | inr (same, e) ↦ record { how = inr (ap (λ k. l ++ k) same, e) }
  ]

  pub Adds-right :
      (p m : ℕ) (l before after : List ℕ)
      → Adds p m before after
      → Adds p m (before ++ l) (after ++ l)
  Adds-right p m l before after a = elim a.how [
    | inl more ↦ record { how = inl (Perm.append_right l more) }
    | inr (same, e) ↦ record { how = inr (ap (λ k. k ++ l) same, e) }
  ]

  Adds-snoc : (p m : ℕ) (ps : List ℕ) → Adds p m ps (ps ++ p ∷ [])
  Adds-snoc p m ps = record {
    how = inl (subst (λ l. Perm (ps ++ p ∷ []) (p ∷ l)) (append-nil ps) (perm_middle ps []));
  }

  pub add_point-Held :
      (all : List ℕ) (m p : ℕ) (d : F) (c : NearestCoveredData F)
      → Held all m c
      → IsNearest all p m d
      → Held all m (add_point p d c) × Adds p m c.point_indexes (add_point p d c).point_indexes
  unfolding add_point
  add_point-Held all m p d c h n = elim (Bool-cases (p == c.center_index)) [
    | inl same ↦
        let e : p ≡ c.center_index = (==_iff p c.center_index).0 same in
        (rw same h, rw same (record { how = inr (refl, e ∙ h.center) }))
    | inr other ↦ (
      rw other (record {
        center = h.center;
        entries = Entries-snoc all m c.point_indexes c.center_dists p d h.entries n;
      }),
      rw other (Adds-snoc p m c.point_indexes),
    )
  ]

  abbrev pub points_of : List (NearestCoveredData F) → List ℕ
  points_of [] = []
  points_of (c ∷ cs) = c.point_indexes ++ points_of cs

  pub add_at-AllHeld :
      (all ms : List ℕ) (cs : List (NearestCoveredData F)) (j m p : ℕ) (d : F)
      → AllHeld all ms cs
      → get_elem? ms j ≡ some m
      → IsNearest all p m d
      → (cs' : List (NearestCoveredData F)) × (add_at cloud j p d cs ≡ ok cs')
        × AllHeld all ms cs'
        × Adds p m (points_of cs) (points_of cs')
  unfolding add_at
  add_at-AllHeld all [] [] j m p d h at n = cc
  add_at-AllHeld all [] (c ∷ cs) j m p d h at n = absurd h
  add_at-AllHeld all (q ∷ ms) [] j m p d h at n = absurd h
  add_at-AllHeld all (q ∷ ms) (c ∷ cs) zero m p d h at n =
      let same : q ≡ m = cc in
      let (k, a) = add_point-Held all m p d c (subst (λ i. Held all i c) same h.0) n in
      (
        add_point p d c ∷ cs,
        refl,
        (subst (λ i. Held all i (add_point p d c)) (sym same) k, h.1),
        Adds-right p m (points_of cs) c.point_indexes (add_point p d c).point_indexes a,
      )
  add_at-AllHeld all (q ∷ ms) (c ∷ cs) (suc j) m p d h at n =
      let (cs', run, k, a) = add_at-AllHeld all ms cs j m p d h.1 at n in
      (
        c ∷ cs',
        rw run refl,
        (h.0, k),
        Adds-left p m c.point_indexes (points_of cs) (points_of cs') a,
      )
