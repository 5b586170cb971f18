-- ===== src/Cover/Build/Placing.antt =====
-- goko/src/covertree/builders.rs: where the points of one split go, and the levels below it.
use mathlib.Core.List.{Perm, append_assoc, append-nil, perm_middle, perm_append_comm}
use mathlib.Core.List.Perm
use goko.Common.{
  All, ℕ, suc, ◌≡◌, refl, sym, false, List, [], ◌∷◌, ◌++◌, length, arith, length-append,
}
use goko.Common.Int.{ℤ, pos, negsuc, ◌-ℤ◌, ◌+ℤ◌, ◌≤ℤ◌, ltb_ℤ, int_laws}
use goko.Common.Outcome.{Outcome, ok}
use goko.Address.{NodeAddress, point_index}
use goko.Points.Float.{Float, Cloud}
use goko.Cover.Node.{GokoError, CoverNode, is_leaf}
use goko.Cover.Build.{Parameters, SmallRng, BuilderNode, min_ℤ}
use goko.Cover.Build.Grown.{IsChild, all_points, points}
use goko.Cover.Build.First.{taken, addresses}
use goko.Cover.Build.Conserve.{Continues}
use goko.Cover.Build.Tree.{Sent, pop_all, final_points, all_final_points, Ready, Placed}

module _ {fl : Float} (cloud : Cloud fl) (small : SmallRng) (params : Parameters) where
  open fl use {F}
  open cloud use {Point, point}

  pub all_final_points-append :
      (s t : Sent F) → all_final_points (s ++ t) ≡ all_final_points s ++ all_final_points t
  all_final_points-append [] t = refl
  all_final_points-append ((a, n) ∷ s) t =
      rw (all_final_points-append s t)
        (sym (append_assoc (final_points a n) (all_final_points s) (all_final_points t)))

  pub pop_all-Placed :
      (run : BuilderNode F → ℕ → Outcome GokoError (Sent F × ℕ)) (bs : List (BuilderNode F))
      (total : ℕ)
      → All
          (λ b.
            (t : ℕ)
            → (r : Sent F × ℕ) × (run b t ≡ ok r) × Placed cloud small params (points b) 1 t r)
          bs
      → (r : Sent F × ℕ) × (pop_all run bs total ≡ ok r)
        × Placed cloud small params (all_points bs) (length bs) total r
  unfolding pop_all
  pop_all-Placed run [] total a =
      (([], total), refl, record { perm = Perm.refl []; counted = refl })
  pop_all-Placed run (b ∷ bs) total a =
      let ((later, total'), ran, p) = pop_all-Placed run bs total a.1 in
      let ((sent, total''), ran', q) = a.0 total' in
      (
        (later ++ sent, total''),
        rw (ran, ran'),
        record {
          perm = rw (all_final_points-append later sent) (
              Perm.trans (Perm.append p.perm q.perm) (perm_append_comm (all_points bs) (points b)));
          counted = omega (arith, p.counted, q.counted, length-append later sent);
        },
      )

  pub min_le : (a x : ℤ) → min_ℤ a x ≤ℤ a
  min_le a x = ground arith

  -- A scale below that of the node needs one level less.
  pub next_level :
      (n si m : ℤ) (levels : ℕ)
      → n ≤ℤ si -ℤ pos 1
      → si ≤ℤ pos 447
      → si +ℤ pos 1 ≤ℤ m +ℤ pos (suc levels)
      → (n ≤ℤ pos 447) × (n +ℤ pos 1 ≤ℤ m +ℤ pos levels)
  next_level n si m levels h up l = (omega int_laws, omega int_laws)

  pub no_level : (si m : ℤ) → ltb_ℤ si m ≡ false → si +ℤ pos 1 ≤ℤ m +ℤ pos 0 → ⊥
  unfolding ◌+ℤ◌
  no_level si m e h = ground arith

  pub children-Ready :
      (levels : ℕ) (si : ℤ) (a : NodeAddress) (bs : List (BuilderNode F))
      → negsuc 62 ≤ℤ si
      → si ≤ℤ pos 447
      → si +ℤ pos 1 ≤ℤ params.min_res_index +ℤ pos levels
      → All (IsChild cloud si a) bs
      → All (Ready cloud small params levels) bs
  children-Ready levels si a [] low up h c = tt
  children-Ready levels si a (b ∷ bs) low up h c = (
    record {
      cached = c.0.cached;
      lower = rw c.0.scale low;
      upper = rw c.0.scale up;
      level = rw c.0.scale h;
    },
    children-Ready levels si a bs low up h c.1,
  )

  -- The points of a node and of what its children are sent as.
  pub placed_leaf :
      (b : BuilderNode F) (singles : List ℕ)
      → Perm (singles ++ []) b.covered.coverage
      → Perm ((singles ++ b.covered.center_index ∷ []) ++ []) (points b)
  placed_leaf b singles p =
      rw (append-nil (singles ++ b.covered.center_index ∷ []))
        (Perm.trans (perm_middle singles []) (Perm.cons b.covered.center_index p))

  pub placed_routing :
      (b x : BuilderNode F) (xs : List (BuilderNode F)) (singles sent : List ℕ)
      → x.covered.center_index ≡ b.covered.center_index
      → Perm (singles ++ taken (x ∷ xs)) b.covered.coverage
      → Perm sent (all_points (x ∷ xs))
      → Perm ((singles ++ []) ++ sent) (points b)
  placed_routing b x xs singles sent e p q =
      rw (append-nil singles, sym e)
        (Perm.trans (Perm.append_left singles q)
          (Perm.trans (perm_middle singles (taken (x ∷ xs))) (Perm.cons x.covered.center_index p)))

  pub placed :
      (b : BuilderNode F) (na : NodeAddress) (n : CoverNode F) (sent : Sent F)
      (new_nodes : List (BuilderNode F))
      → point_index na ≡ b.covered.center_index
      → n.children ≡ addresses new_nodes
      → Perm (n.singles_indexes ++ taken new_nodes) b.covered.coverage
      → Continues cloud small params b new_nodes
      → Perm (all_final_points sent) (all_points new_nodes)
      → Perm (final_points na n ++ all_final_points sent) (points b)
  unfolding final_points is_leaf
  placed b na n sent [] at c p k q =
      let nothing : all_final_points sent ≡ [] = Perm.eq-nil q in
      rw (c, at, nothing) (placed_leaf b n.singles_indexes p)
  placed b na n sent (x ∷ xs) at c p k q =
      rw c (placed_routing b x xs n.singles_indexes (all_final_points sent) k.0 p q)
