-- ===== src/Cover/Node/First.antt =====
-- goko/src/covertree/node.rs: the first child that covers a point.
use goko.Common.{
  ℕ, zero, suc, ◌<◌, ◌≡◌, refl, true, false, Option, none, some, List, [], ◌∷◌, length, map,
  get_elem?, arith, Bool-cases, inl, inr,
}
use goko.Common.Outcome.{ok}
use goko.Address.{NodeAddress, point_index}
use goko.Points.Float.{Float, Cloud}
use goko.Points.Distances.{distances}
use goko.Cover.Node.{CoverNode}
use goko.Cover.Node.Children.{covers, first_covering, first_covering_child}

module _ {fl : Float} (cloud : Cloud fl) where
  open fl use {F}
  open cloud use {Point}

  -- No child of an index below `i` covers the point.
  abbrev pub Passed : List NodeAddress → List F → ℕ → Type 0
  Passed cs ds i =
      (j : ℕ) (c : NodeAddress) (d : F)
      → j < i
      → get_elem? cs j ≡ some c
      → get_elem? ds j ≡ some d
      → covers cloud c d ≡ false

  -- A child that covers, with none before it; or there is none.
  pub data IsFirst (cs : List NodeAddress) (ds : List F) : Option (NodeAddress × F) → Type 0 where
    found :
        (i : ℕ) (c : NodeAddress) (d : F)
        → get_elem? cs i ≡ some c
        → get_elem? ds i ≡ some d
        → covers cloud c d ≡ true
        → Passed cs ds i
        → IsFirst cs ds (some (c, d))
    absent : Passed cs ds (length cs) → IsFirst cs ds none

  Passed-zero : (cs : List NodeAddress) (ds : List F) → Passed cs ds 0
  Passed-zero cs ds j c d l u v = grind arith

  Passed-suc :
      (c : NodeAddress) (cs : List NodeAddress) (d : F) (ds : List F) (i : ℕ)
      → covers cloud c d ≡ false
      → Passed cs ds i
      → Passed (c ∷ cs) (d ∷ ds) (suc i)
  Passed-suc c cs d ds i e p zero c' d' l u v = cc
  Passed-suc c cs d ds i e p (suc j) c' d' l u v = p j c' d' (omega arith) u v

  IsFirst-suc :
      (c : NodeAddress) (cs : List NodeAddress) (d : F) (ds : List F) (r : Option (NodeAddress × F))
      → covers cloud c d ≡ false
      → IsFirst cs ds r
      → IsFirst (c ∷ cs) (d ∷ ds) r
  IsFirst-suc c cs d ds r e (found i m b u v w p) =
      found (suc i) m b u v w (Passed-suc c cs d ds i e p)
  IsFirst-suc c cs d ds r e (absent p) = absent (Passed-suc c cs d ds (length cs) e p)

  first_covering-IsFirst :
      (cs : List NodeAddress) (ds : List F) → IsFirst cs ds (first_covering cloud cs ds)
  unfolding first_covering
  first_covering-IsFirst [] ds = absent (Passed-zero [] ds)
  first_covering-IsFirst (c ∷ cs) [] = absent (λ j c' d l u v. cc)
  first_covering-IsFirst (c ∷ cs) (d ∷ ds) = elim (Bool-cases (covers cloud c d)) [
    | inl y ↦ rw y (found 0 c d refl refl y (Passed-zero (c ∷ cs) (d ∷ ds)))
    | inr n ↦ rw n (IsFirst-suc c cs d ds _ n (first_covering-IsFirst cs ds))
  ]

  -- For a node with children whose distances to a point can be read, `first_covering_child` gives,
  -- with the first child at the distance to the centre and the others at their distances, the first
  -- child whose distance is below the radius of its scale, with that distance, and none when there is
  -- no such child.
  pub first_covering_child-IsFirst :
      (x : Point) (n : CoverNode F) (c : NodeAddress) (cs : List NodeAddress) (dist_to_center : F)
      (ds : List F)
      → n.children ≡ some (c ∷ cs)
      → distances cloud x (map point_index cs) ≡ some ds
      → (r : Option (NodeAddress × F)) × (first_covering_child cloud dist_to_center x n ≡ ok r)
        × IsFirst (c ∷ cs) (dist_to_center ∷ ds) r
  unfolding first_covering_child
  first_covering_child-IsFirst x n c cs z ds k e = elim (Bool-cases (covers cloud c z)) [
    | inl y ↦
        (some (c, z), rw k (rw y refl), found 0 c z refl refl y (Passed-zero (c ∷ cs) (z ∷ ds)))
    | inr above ↦ (
      first_covering cloud cs ds,
      rw k (rw above (rw e refl)),
      IsFirst-suc c cs z ds _ above (first_covering-IsFirst cs ds),
    )
  ]
