-- ===== src/Cover/Nearest/Covers.antt =====
-- goko/src/covertree/data_caches.rs: `cover_thyself` picks centres that cover the points and are apart.
use mathlib.Core.Path.{subst}
use mathlib.Core.List.{Memᴰ}
use goko.Common.{
  All, ℕ, zero, suc, ◌<◌, ◌≤◌, ◌≡◌, ◌∙◌, inl, inr, refl, sym, ap, Bool, true, false, some, List, [],
  ◌∷◌, ◌++◌, map, get_elem?, arith, Bool-cases, Option-cases, length,
}
use goko.Common.Outcome.{ok}
use goko.Points.Float.{Float, Cloud}
use goko.Points.Distances.{distance, distances}
use goko.Cover.Caches.{distances_to_index}
use goko.Cover.Caches.Pick.{Readable, distances-Readable}
use goko.Cover.Build.{SmallRng}
use goko.Cover.Build.Grown.{DrawsInRange}
use goko.Cover.Nearest.{
  NearestCoveredData, uncovered, any_uncovered, mark, choose, cover_loop, cover_thyself,
}
use goko.Cover.Nearest.Marks.{
  unmarked, Within, Apart, Marks, mark_one, distances_at, distances_none, mark-Marks, mark_lt,
  any_uncovered-left, uncovered-Apart, all-Within,
}

get_elem?-some : (l : List ℕ) (i : ℕ) → i < length l → (a : ℕ) × (get_elem? l i ≡ some a)
get_elem?-some [] i h = absurd (omega arith)
get_elem?-some (a ∷ l) zero h = (a, refl)
get_elem?-some (a ∷ l) (suc i) h = get_elem?-some l i (omega arith)

module _ {fl : Float} (cloud : Cloud fl) where
  open fl use {F, lt}
  open cloud use {Point, point}

  pub at_index :
      (m : ℕ) (ps : List ℕ) (ds : List F)
      → distances_to_index cloud m ps ≡ ok ds
      → (x : Point) × (point m ≡ some x) × (distances cloud x ps ≡ some ds)
  unfolding distances_to_index
  at_index m ps ds run = elim (Option-cases (point m)) [
    | inl n ↦ absurd (ground arith)
    | inr (x, there) ↦ elim (Option-cases (distances cloud x ps)) [
      | inl n ↦ absurd (ground arith)
      | inr (es, q) ↦ let got : ok es ≡ ok ds = rw (there, q) at run in (x, there, q ∙ ap some (cc))
    ]
  ]

  read_all :
      (m : ℕ) (ps : List ℕ)
      → All (Readable cloud) ps
      → Memᴰ m ps
      → (x : Point) × (ds : List F) × (point m ≡ some x)
        × (distances cloud x ps ≡ some ds)
        × (distances_to_index cloud m ps ≡ ok ds)
  unfolding distances_to_index
  read_all m ps a mem =
      let (x, there) = All-Memᴰ ps a mem in
      let (ds, run) = distances-Readable cloud x ps a in (x, ds, there, run, rw (there, run) refl)
    where
      All-Memᴰ : (l : List ℕ) → All (Readable cloud) l → Memᴰ m l → Readable cloud m
      All-Memᴰ [] a mem = elim mem [ ]
      All-Memᴰ (p ∷ l) a (Memᴰ.head e) = subst (Readable cloud) (sym e) a.0
      All-Memᴰ (p ∷ l) a (Memᴰ.tail mem) = All-Memᴰ l a.1 mem

  module _ (r : F) where
    first-Marks :
        (m : ℕ) (x : Point) (ps : List ℕ) (ds : List F)
        → point m ≡ some x
        → distances cloud x ps ≡ some ds
        → Marks cloud r (m ∷ []) ps (map (λ d. lt d r) ds)
    unfolding distances
    first-Marks m x [] [] there run = tt
    first-Marks m x [] (d ∷ ds) there run = cc
    first-Marks m x (p ∷ ps) [] there run = absurd (distances_none cloud x p ps run)
    first-Marks m x (p ∷ ps) (d ∷ ds) there run =
        let (e, rest) = distances_at cloud x p ps d ds run in
        (
          mark_one cloud r [] m p false d
              (record { center_point = x; center = there; measured = e }) tt,
          first-Marks m x ps ds there rest,
        )

    unmarked_le :
        (cs ps : List ℕ) (bs : List Bool) → Marks cloud r cs ps bs → unmarked bs ≤ length ps
    unfolding unmarked
    unmarked_le cs [] [] k = omega arith
    unmarked_le cs [] (b ∷ bs) k = absurd k
    unmarked_le cs (p ∷ ps) [] k = absurd k
    unmarked_le cs (p ∷ ps) (true ∷ bs) k = omega (arith, unmarked_le cs ps bs k.1)
    unmarked_le cs (p ∷ ps) (false ∷ bs) k = omega (arith, unmarked_le cs ps bs k.1)

    unmarked_none : (bs : List Bool) → unmarked bs ≤ 0 → any_uncovered bs ≡ false
    unfolding unmarked any_uncovered
    unmarked_none [] h = refl
    unmarked_none (true ∷ bs) h = unmarked_none bs h
    unmarked_none (false ∷ bs) h = absurd (omega arith)

    -- Centres in the order in which they are picked, each a point of the list that is no nearer to
    -- those before than the radius, and the rows of their distances to the points.
    pub data Spread (ps : List ℕ) : List ℕ → List (List F) → Type 0 where
      alone :
          {m : ℕ} {ds : List F}
          → distances_to_index cloud m ps ≡ ok ds
          → Spread ps (m ∷ []) (ds ∷ [])
      pick :
          {cs : List ℕ} {rows : List (List F)} (m : ℕ) (ds : List F)
          → Spread ps cs rows
          → Apart cloud r cs m
          → Memᴰ m ps
          → distances_to_index cloud m ps ≡ ok ds
          → Spread ps (cs ++ m ∷ []) (rows ++ ds ∷ [])

    -- What `cover_thyself` makes of a cache: the rest is kept, the centres are spread, and every point
    -- is nearer to one of them than the radius.
    pub record IsCovered (c c' : NearestCoveredData F) : Type 0 where
      pub kept : c' ≡ record c { centers = c'.centers; dists = c'.dists }
      pub spread : Spread c.point_indexes (c.center_index ∷ c'.centers) (c.center_dists ∷ c'.dists)
      pub covered : All (Within cloud r (c.center_index ∷ c'.centers)) c.point_indexes

    module _ (small : SmallRng) (draws : DrawsInRange small) where
      open small use {State}

      choose_lem :
          (q : ℕ) (rest l : List ℕ) (rng : State)
          → l ≡ q ∷ rest
          → (m i : ℕ) × (rng' : State) × (choose cloud small l rng ≡ ok (m, rng'))
            × (get_elem? l i ≡ some m)
      unfolding choose
      choose_lem q rest [] rng e = cc
      choose_lem q rest (p ∷ l) rng e =
          let i = (small.gen_range (length (p ∷ l)) rng).0 in
          let (m, at) = get_elem?-some (p ∷ l) i (draws (length (p ∷ l)) rng (omega arith)) in
          (m, i, (small.gen_range (length (p ∷ l)) rng).1, rw at refl, at)

      cover_loop-IsCovered :
          (fuel : ℕ) (bs : List Bool) (c : NearestCoveredData F) (rng : State)
          → All (Readable cloud) c.point_indexes
          → ((p : ℕ) (x : Point) (e : F)
              → Memᴰ p c.point_indexes
              → point p ≡ some x
              → distance cloud x p ≡ some e
              → lt e r ≡ true)
          → Spread c.point_indexes (c.center_index ∷ c.centers) (c.center_dists ∷ c.dists)
          → Marks cloud r (c.center_index ∷ c.centers) c.point_indexes bs
          → unmarked bs ≤ fuel
          → (c' : NearestCoveredData F) × (rng' : State) × (cover_loop cloud small fuel r bs c rng
              ≡ ok (c', rng'))
            × IsCovered c c'
      unfolding cover_loop
      cover_loop-IsCovered zero bs c rng a self s k h =
          let done = unmarked_none bs h in
          (
            c,
            rng,
            rw done refl,
            record {
              kept = refl;
              spread = s;
              covered = all-Within cloud r _ c.point_indexes bs k done;
            },
          )
      cover_loop-IsCovered (suc fuel) bs c rng a self s k h = elim (Bool-cases (any_uncovered bs)) [
        | inl more ↦
            let cs = c.center_index ∷ c.centers in
            let (q, rest, left) = any_uncovered-left cloud r cs c.point_indexes bs k more in
            let (m, i, rng1, chosen, at) =
              choose_lem q rest (uncovered c.point_indexes bs) rng left in
            let (mem, far) = uncovered-Apart cloud r cs c.point_indexes bs i m k at in
            let (x, ds, there, run, row) = read_all m c.point_indexes a mem in
            let c1 : NearestCoveredData F = record c {
              dists = c.dists ++ ds ∷ [];
              centers = c.centers ++ m ∷ [];
            } in
            let fewer =
              mark_lt cloud r x m c.point_indexes bs ds i run at (λ e. self m x e mem there) in
            let (c', rng', go_on, f) =
              cover_loop-IsCovered fuel (mark fl r bs ds) c1 rng1 a self (pick m ds s far mem row)
                (mark-Marks cloud r cs m x c.point_indexes bs ds there run k) (omega arith) in
            (
              c',
              rng',
              rw (more, chosen, row) go_on,
              record { kept = f.kept; spread = f.spread; covered = f.covered },
            )
        | inr done ↦ (
          c,
          rng,
          rw done refl,
          record {
            kept = refl;
            spread = s;
            covered = all-Within cloud r _ c.point_indexes bs k done;
          },
        )
      ]

    -- A cache without centres, whose points are all readable, have their distances to its own centre
    -- and are at no distance of the radius or more from themselves, is covered by `cover_thyself` on
    -- fuel for its points, with draws in range: it ends without an error, and adds centres that are
    -- points of the cache, each with the row of its distances to them and no nearer to the centres
    -- before it, the cache's own first, than the radius, until every point is nearer to one of these
    -- centres than the radius.
    pub cover_thyself-IsCovered :
        (small : SmallRng)
        → DrawsInRange small
        → (c : NearestCoveredData F) (rng : small.State) (fuel : ℕ) → c.centers ≡ []
        → c.dists ≡ []
        → distances_to_index cloud c.center_index c.point_indexes ≡ ok c.center_dists
        → All (Readable cloud) c.point_indexes
        → ((p : ℕ) (x : Point) (e : F)
            → Memᴰ p c.point_indexes
            → point p ≡ some x
            → distance cloud x p ≡ some e
            → lt e r ≡ true)
        → length c.point_indexes ≤ fuel
        → (c' : NearestCoveredData F) × (rng' : small.State) × (cover_thyself cloud small fuel r c
              rng
            ≡ ok (c', rng'))
          × IsCovered c c'
    unfolding cover_thyself
    cover_thyself-IsCovered small draws c rng fuel none_yet no_rows row a self h =
        let (x, there, run) = at_index c.center_index c.point_indexes c.center_dists row in
        let k = first-Marks c.center_index x c.point_indexes c.center_dists there run in
        cover_loop-IsCovered small draws fuel _ c rng a self (rw (none_yet, no_rows) (alone row))
          (rw none_yet k) (omega (arith, unmarked_le (c.center_index ∷ []) c.point_indexes _ k))
