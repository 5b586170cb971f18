-- ===== src/Cover/Build/Loop.antt =====
-- goko/src/covertree/builders.rs: what the loop of `split_first` makes of the uncovered points.
use goko.Common.{
  All, ℕ, zero, suc, ◌<◌, ◌≤◌, ◌≡◌, ap, false, some, List, [], ◌∷◌, ◌++◌, length, map, arith,
  Bool-cases, Option-cases, inl, inr, is_nil, is_nil-eq, length-append,
}
use goko.Common.Int.{ℤ}
use goko.Common.Outcome.{ok}
use goko.Address.{NodeAddress}
use goko.Points.Float.{Float, Cloud}
use goko.Points.Distances.{distance}
use goko.Cover.Node.{CoverNode}
use goko.Cover.Caches.{UncoveredData, uncovered_len}
use goko.Cover.Caches.Partition.{FarFrom}
use goko.Cover.Caches.Pick.{Readable, pick_center-partitions}
use goko.Cover.Build.{Parameters, SmallRng, Work, split_loop}
use goko.Cover.Lists.{Perm-length}
use goko.Cover.Build.Grown.{
  DrawsInRange, Grown, place_lem, Grown-seq, Grown-perm, Grown-nil, Grown-rng, child_address,
}

module _ {fl : Float} (cloud : Cloud fl) where
  open fl use {F, powi}
  open cloud use {Point}

  pub FarFrom-Readable :
      (x : Point) (r : F) (is : List ℕ) → All (FarFrom cloud x r) is → All (Readable cloud) is
  unfolding distance
  FarFrom-Readable x r [] a = tt
  FarFrom-Readable x r (i ∷ is) ((d, e, f), a) = (read e, FarFrom-Readable x r is a)
    where
      read : {d : F} {i : ℕ} → distance cloud x i ≡ some d → Readable cloud i
      read {d} {i} e = elim (Option-cases (cloud.point i)) [
        | inl n ↦ absurd (ground arith)
        | inr y ↦ y
      ]

nonempty : (l : List ℕ) → is_nil l ≡ false → 0 < length l
nonempty [] e = cc
nonempty (x ∷ l) e = omega arith

module _ {fl : Float} (cloud : Cloud fl) (small : SmallRng) (params : Parameters) where
  open fl use {F, powi}
  open small use {State}

  -- The loop takes every uncovered point.
  pub split_loop_lem :
      (fuel : ℕ) (si : ℤ) (parent : NodeAddress) (fars : UncoveredData) (w : Work F State)
      (cs : List NodeAddress)
      → DrawsInRange small
      → length fars.coverage ≤ fuel
      → All (Readable cloud) fars.coverage
      → w.node.children ≡ some cs
      → (w' : Work F State) × (split_loop cloud small params fuel si parent fars w ≡ ok w')
        × Grown cloud si parent fars.coverage cs w w'
  unfolding split_loop uncovered_len
  split_loop_lem zero si parent fars w cs d h a e = elim (Bool-cases (is_nil fars.coverage)) [
    | inl n ↦ (w, rw n, Grown-nil cloud si parent fars.coverage cs w (is_nil-eq fars.coverage n) e)
    | inr n ↦ absurd (omega (arith, nonempty fars.coverage n))
  ]
  split_loop_lem (suc fuel) si parent fars w cs d h a e = elim (Bool-cases (is_nil fars.coverage)) [
    | inl n ↦ (w, rw n, Grown-nil cloud si parent fars.coverage cs w (is_nil-eq fars.coverage n) e)
    | inr n ↦
        let (draw, rng) = small.gen_range (length fars.coverage) w.rng in
        let in_range = d (length fars.coverage) w.rng (nonempty fars.coverage n) in
        let (c, left, k, picked, p, close, far) =
          pick_center-partitions cloud draw fars (powi si) in_range a in
        let (w1, placed, g) =
          place_lem cloud params si parent c cs (record w { rng = rng }) e k close in
        let (w2, rest, h) =
          split_loop_lem fuel si parent left w1 (cs ++ map child_address g.added) d
            (omega (arith, Perm-length p, length-append c.coverage left.coverage))
            (FarFrom-Readable cloud k.center_point (powi si) left.coverage far)
            (ap (λ (m : CoverNode F). m.children) g.node) in
        (
          w2,
          rw (n, picked, placed, rest),
          Grown-perm cloud si parent (c.center_index ∷ c.coverage ++ left.coverage) fars.coverage cs
              w w2 p
              (Grown-rng cloud si parent _ cs w w2 rng (
                Grown-seq cloud si parent (c.center_index ∷ c.coverage) left.coverage cs
                  (record w { rng = rng }) w1 w2 g h)),
        )
  ]
