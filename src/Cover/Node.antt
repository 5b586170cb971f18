-- ===== src/Cover/Node.antt =====
-- goko/src/covertree/node.rs: a node, the insertions that the builder makes, and its record in the
-- saved file. The distances are a type `F`; the plugins of a node are left out.
pub mod Save
pub mod Children
pub mod First
use goko.Common.{
  ℕ, suc, ◌+◌, ◌-◌, ◌≡◌, Bool, true, false, Option, none, some, List, [], ◌∷◌, ◌++◌, length,
  is_some, ◌==◌, if◌then◌else◌, not,
}
use goko.Common.Int.{ℤ}
use goko.Common.Outcome.{Outcome, ok, err, panic, ◌>>=◌, asserted}
use goko.Address.{NodeAddress, from_tuple, point_index}

-- `GokoError`, without the errors of the file formats.
pub data GokoError : Type 0 where
  point_cloud_error : GokoError
  index_not_in_tree : ℕ → GokoError
  double_nest : GokoError
  insert_before_nest : GokoError

pub record CoverNode (F : Type 0) : Type 0 where
  pub parent_address : Option NodeAddress
  pub address : NodeAddress
  pub radius : F
  pub coverage_count : ℕ
  pub children : Option (List NodeAddress)
  pub singles_indexes : List ℕ

-- An insertion that fails returns the node as it has been changed.
abbrev pub Inserted : Type 0 → Type 0
Inserted F = Outcome (GokoError × CoverNode F) (CoverNode F)

module _ {F : Type 0} where
  -- `CoverNode::new`; the radius 0.0 is an argument.
  unfoldable pub new : F → Option NodeAddress → NodeAddress → CoverNode F
  new zero_radius parent address = record {
    parent_address = parent;
    address = address;
    radius = zero_radius;
    coverage_count = 1;
    children = none;
    singles_indexes = [];
  }

  unfoldable pub is_leaf : CoverNode F → Bool
  is_leaf n = not (is_some n.children)

  unfoldable pub children_len : CoverNode F → ℕ
  children_len n = elim n.children [ none ↦ 0 | some c ↦ length c ]

  unfoldable pub singletons_len : CoverNode F → ℕ
  singletons_len n = length n.singles_indexes

  unfoldable pub center_index : CoverNode F → ℕ
  center_index n = point_index n.address

  unfoldable pub insert_nested_child : ℤ → ℕ → CoverNode F → Inserted F
  insert_nested_child scale coverage n =
      let n' : CoverNode F = record n { coverage_count = n.coverage_count + (coverage - 1) } in
      if coverage == 0 then panic else if is_some n.children then err (double_nest, n') else do
        child ← asserted (from_tuple (scale, point_index n.address))
        ok (record n' { children = some (child ∷ []) })

  unfoldable pub insert_child : NodeAddress → ℕ → CoverNode F → Inserted F
  insert_child child coverage n =
      let n' : CoverNode F = record n { coverage_count = n.coverage_count + coverage } in
      elim n.children [
        | none ↦ err (insert_before_nest, n')
        | some children ↦ ok (record n' { children = some (children ++ child ∷ []) })
      ]

  unfoldable pub insert_singletons : List ℕ → CoverNode F → CoverNode F
  insert_singletons addresses n = record n {
    coverage_count = n.coverage_count + length addresses;
    singles_indexes = n.singles_indexes ++ addresses;
  }

  unfoldable pub insert_singleton : ℕ → CoverNode F → CoverNode F
  insert_singleton pi n = record n {
    coverage_count = n.coverage_count + 1;
    singles_indexes = n.singles_indexes ++ pi ∷ [];
  }

  unfoldable pub set_radius : F → CoverNode F → CoverNode F
  set_radius r n = record n { radius = r }

  -- The node and the children that were taken.
  unfoldable pub remove_children : CoverNode F → CoverNode F × Option (List NodeAddress)
  remove_children n = (record n { children = none }, n.children)
