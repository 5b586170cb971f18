-- ===== src/Cover/Nearest/Assign.antt =====
-- goko/src/covertree/data_caches.rs: `assign_to_nearest` gives each point to its nearest centre.
use mathlib.Core.Path.{subst}
use mathlib.Core.List.{Memᴰ, Perm, perm_middle}
use mathlib.Core.List.Perm
use goko.Common.{
  All, ℕ, zero, suc, ◌+◌, ◌≡◌, inl, inr, refl, sym, true, false, some, List, [], ◌∷◌, ◌++◌, map,
  get_elem?, arith, Bool-cases,
}
use goko.Common.Outcome.{ok}
use goko.Points.Float.{Float, Cloud, IsOrder}
use goko.Cover.Caches.{distances_to_index}
use goko.Cover.Node.Children.{min_by, min_by_lem}
use goko.Cover.Nearest.{
  NearestCoveredData, Splits, add_point, assign_point, assign_from, assign_to_nearest, empty_cache,
}
use goko.Cover.Nearest.Marks.{Measured}
use goko.Cover.Nearest.Rows.{Rows, Column, column-Column, Column-at, Column-least, row_at}
use goko.Cover.Nearest.Held.{
  IsNearest, Held, AllHeld, points_of, Adds, Adds-left, Adds-right, add_point-Held, add_at-AllHeld,
}

get_elem?-Memᴰ : (l : List ℕ) (i m : ℕ) → get_elem? l i ≡ some m → Memᴰ m l
get_elem?-Memᴰ [] i m at = cc
get_elem?-Memᴰ (x ∷ l) zero m at = Memᴰ.head (cc)
get_elem?-Memᴰ (x ∷ l) (suc i) m at = Memᴰ.tail (get_elem?-Memᴰ l i m at)

All-at :
    {F : Type 0} (P : F → Type 0) (l : List F) (i : ℕ) (d : F)
    → All P l
    → get_elem? l i ≡ some d
    → P d
All-at P [] i d a at = cc
All-at P (x ∷ l) zero d a at = let same : x ≡ d = cc in subst P same a.0
All-at P (x ∷ l) (suc i) d a at = All-at P l i d a.1 at

module _ {fl : Float} (cloud : Cloud fl) where
  -- The points of all the caches.
  abbrev pub held : Splits cloud → List ℕ
  held s = s.0.point_indexes ++ points_of cloud s.1

  -- The caches of the centres, the first of them the old one, hold points that are nearest to them.
  pub record AreNearest (center : ℕ) (ms : List ℕ) (s : Splits cloud) : Type 0 where
    pub nested : Held cloud (center ∷ ms) center s.0
    pub others : AllHeld cloud (center ∷ ms) ms s.1

module _ {fl : Float} (o : IsOrder fl) (cloud : Cloud fl) where
  open fl use {F, lt, max_value}
  open cloud use {Point, point}

  none_below :
      (b z : F) (l : List F)
      → lt z b ≡ true
      → All (λ e. lt e b ≡ false) l
      → All (λ e. lt e z ≡ false) l
  none_below b z [] n a = tt
  none_below b z (e ∷ l) n a = (
    elim (Bool-cases (lt e z)) [ inr far ↦ far | inl near ↦ let both = o.trans e z b near n in cc ],
    none_below b z l n a.1,
  )

  assign_point-AreNearest :
      (center : ℕ) (ms : List ℕ) (p : ℕ) (z : F) (ds : List F) (s : Splits cloud)
      → AreNearest cloud center ms s
      → Measured cloud center p z
      → Column cloud p ms ds
      → lt z max_value ≡ true
      → (s' : Splits cloud) × (m : ℕ) × (assign_point cloud p z (min_by cloud ds) s ≡ ok s')
        × AreNearest cloud center ms s'
        × Memᴰ m (center ∷ ms)
        × Adds cloud p m (held cloud s) (held cloud s')
  unfolding assign_point min_by
  assign_point-AreNearest center [] p z [] s h t c finite =
      let n : IsNearest cloud (center ∷ []) p center z = record {
        true_dist = t;
        least = ((z, t, o.irrefl z), tt);
      } in
      let (k, a) = add_point-Held cloud (center ∷ []) center p z s.0 h.nested n in
      (
        (add_point p z s.0, s.1),
        center,
        rw finite refl,
        record { nested = k; others = h.others },
        Memᴰ.head refl,
        Adds-right cloud p center (points_of cloud s.1) s.0.point_indexes _ a,
      )
  assign_point-AreNearest center (m ∷ ms) p z [] s h t c finite = absurd c
  assign_point-AreNearest center ms p z (d ∷ ds) s h t c finite =
      let best = min_by cloud (d ∷ ds) in
      let (at, least) = min_by_lem cloud o d ds in
      elim (Bool-cases (lt z best.1)) [
        | inl near ↦
            let n : IsNearest cloud (center ∷ ms) p center z = record {
              true_dist = t;
              least = (
                (z, t, o.irrefl z),
                Column-least cloud p ms (d ∷ ds) z c (none_below best.1 z (d ∷ ds) near least),
              );
            } in
            let (k, a) = add_point-Held cloud (center ∷ ms) center p z s.0 h.nested n in
            (
              (add_point p z s.0, s.1),
              center,
              rw near refl,
              record { nested = k; others = h.others },
              Memᴰ.head refl,
              Adds-right cloud p center (points_of cloud s.1) s.0.point_indexes _ a,
            )
        | inr far ↦
            let (m, there, t') = Column-at cloud p ms (d ∷ ds) best.0 best.1 c at in
            let n : IsNearest cloud (center ∷ ms) p m best.1 = record {
              true_dist = t';
              least = ((z, t, far), Column-least cloud p ms (d ∷ ds) best.1 c least);
            } in
            let (cs', run, k, a) =
              add_at-AllHeld cloud (center ∷ ms) ms s.1 best.0 m p best.1 h.others there n in
            (
              (s.0, cs'),
              m,
              rw (far, run) refl,
              record { nested = h.nested; others = k },
              Memᴰ.tail (get_elem?-Memᴰ ms best.0 m there),
              Adds-left cloud p m s.0.point_indexes _ _ a,
            )
      ]

  joined :
      (p : ℕ) (ps xs ys dropped zs : List ℕ)
      → Perm ys (p ∷ xs)
      → Perm (zs ++ dropped) (ys ++ ps)
      → Perm (zs ++ dropped) (xs ++ p ∷ ps)
  joined p ps xs ys dropped zs more all =
      Perm.trans all (Perm.trans (Perm.append_right ps more) (Perm.symm (perm_middle xs ps)))

  left_out :
      (p : ℕ) (ps xs dropped zs : List ℕ)
      → Perm (zs ++ dropped) (xs ++ ps)
      → Perm (zs ++ p ∷ dropped) (xs ++ p ∷ ps)
  left_out p ps xs dropped zs all =
      Perm.trans (perm_middle zs dropped)
        (Perm.trans (Perm.cons p all) (Perm.symm (perm_middle xs ps)))

  -- What the loop makes of the points from a place on.
  record Assigned (center : ℕ) (ms ps : List ℕ) (s s' : Splits cloud) : Type 0 where
    pub nearest : AreNearest cloud center ms s'
    pub dropped : List ℕ
    pub centers : All (λ p. Memᴰ p (center ∷ ms)) dropped
    pub perm : Perm (held cloud s' ++ dropped) (held cloud s ++ ps)

  assign_from-Assigned :
      (c : NearestCoveredData F) (i : ℕ) (ps : List ℕ) (s : Splits cloud)
      → distances_to_index cloud c.center_index c.point_indexes ≡ ok c.center_dists
      → Rows cloud c.point_indexes c.centers c.dists
      → All (λ d. lt d max_value ≡ true) c.center_dists
      → ((k q : ℕ) → get_elem? ps k ≡ some q → get_elem? c.point_indexes (i + k) ≡ some q)
      → AreNearest cloud c.center_index c.centers s
      → (s' : Splits cloud) × (assign_from cloud c i ps s ≡ ok s')
        × Assigned c.center_index c.centers ps s s'
  unfolding assign_from
  assign_from-Assigned c i [] s row rows finite here h =
      (s, refl, record { nearest = h; dropped = []; centers = tt; perm = Perm.refl _ })
  assign_from-Assigned c i (p ∷ ps) s row rows finite here h =
      let at : get_elem? c.point_indexes i ≡ some p =
        subst (λ k. get_elem? c.point_indexes k ≡ some p) (omega arith) (here 0 p refl) in
      let (z, got, t) = row_at cloud c.center_index c.point_indexes c.center_dists i p row at in
      let (ds, col, k) = column-Column cloud c.point_indexes c.centers c.dists i p rows at in
      let low = All-at (λ d. lt d max_value ≡ true) c.center_dists i z finite got in
      let (s1, m, run, h1, mem, adds) =
        assign_point-AreNearest c.center_index c.centers p z ds s h t k low in
      let (s', go_on, f) =
        assign_from-Assigned c (suc i) ps s1 row rows finite
          (λ j q e.
            subst (λ n. get_elem? c.point_indexes n ≡ some q) (omega arith) (here (suc j) q e))
          h1 in
      (
        s',
        rw (col, got, run) go_on,
        elim adds.how [
          | inl more ↦ record {
            nearest = f.nearest;
            dropped = f.dropped;
            centers = f.centers;
            perm = joined p ps (held cloud s) (held cloud s1) f.dropped (held cloud s') more f.perm;
          }
          | inr (same, e) ↦ record {
            nearest = f.nearest;
            dropped = p ∷ f.dropped;
            centers = (subst (λ q. Memᴰ q (c.center_index ∷ c.centers)) (sym e) mem, f.centers);
            perm =
                left_out p ps (held cloud s) f.dropped (held cloud s')
                  (subst (λ l. Perm (held cloud s' ++ f.dropped) (l ++ ps)) same f.perm);
          }
        ],
      )

  empty-AllHeld : (all ms : List ℕ) → AllHeld cloud all ms (map (empty_cache cloud) ms)
  empty-AllHeld all [] = tt
  empty-AllHeld all (m ∷ ms) = (record { center = refl; entries = tt }, empty-AllHeld all ms)

  empty_points : (ms : List ℕ) → points_of cloud (map (empty_cache cloud) ms) ≡ []
  empty_points [] = refl
  empty_points (m ∷ ms) = empty_points ms

  pub assign_to_nearest-Assigned :
      (c : NearestCoveredData F)
      → distances_to_index cloud c.center_index c.point_indexes ≡ ok c.center_dists
      → Rows cloud c.point_indexes c.centers c.dists
      → All (λ d. lt d max_value ≡ true) c.center_dists
      → (s : Splits cloud) × (assign_to_nearest cloud c ≡ ok s)
        × AreNearest cloud c.center_index c.centers s
        × (dropped : List ℕ) × All (λ p. Memᴰ p (c.center_index ∷ c.centers)) dropped
        × Perm (held cloud s ++ dropped) c.point_indexes
  unfolding assign_to_nearest
  assign_to_nearest-Assigned c row rows finite =
      let start : Splits cloud =
        (empty_cache cloud c.center_index, map (empty_cache cloud) c.centers) in
      let h : AreNearest cloud c.center_index c.centers start = record {
        nested = record { center = refl; entries = tt };
        others = empty-AllHeld (c.center_index ∷ c.centers) c.centers;
      } in
      let (s, run, f) =
        assign_from-Assigned c 0 c.point_indexes start row rows finite
          (λ k q e. subst (λ n. get_elem? c.point_indexes n ≡ some q) (omega arith) e) h in
      (
        s,
        run,
        f.nearest,
        f.dropped,
        f.centers,
        subst (λ l. Perm (held cloud s ++ f.dropped) (l ++ c.point_indexes))
            (empty_points c.centers) f.perm,
      )
