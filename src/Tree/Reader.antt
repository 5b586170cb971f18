-- ===== src/Tree/Reader.antt =====
-- goko/src/covertree/layer.rs and tree.rs: the layers of a tree as a reader sees them, the reads of
-- a node by its address, and the walks over the nodes. A walk is on fuel, and panics where the fuel
-- runs out; a stack is a list with its top first.
use goko.Common.{
  ℕ, zero, suc, ◌+◌, Bool, true, false, Option, none, some, List, [], ◌∷◌, length, get_elem?,
  if◌then◌else◌, ℕ_discrete,
}
use goko.Common.Int.{ℤ, pos, pos_part, ◌+ℤ◌, ◌-ℤ◌, ltb_ℤ}
use goko.Common.Outcome.{Outcome, ok, panic, ◌>>=◌, asserted}
use goko.Monomap.Table.{get, insert}
use goko.Address.{NodeAddress, point_index, scale_index}
use goko.Cover.Node.{GokoError, CoverNode}

-- The published copy of a layer's map from centre indexes to nodes.
pub record CoverLayer (F : Type 0) : Type 0 where
  pub scale_index : ℤ
  pub nodes : List (ℕ × CoverNode F)

pub record CoverTree (F : Type 0) : Type 0 where
  pub min_res_index : ℤ
  pub layers : List (CoverLayer F)
  pub root_address : NodeAddress
  pub final_addresses : List (ℕ × NodeAddress)

-- A stack after `extend`.
unfoldable pub extend {ℓ} : {A : Type ℓ} → List A → List A → List A
extend [] st = st
extend (x ∷ xs) st = extend xs (x ∷ st)

-- `for singleton in n.singletons()`
unfoldable pub insert_all : NodeAddress → List ℕ → List (ℕ × NodeAddress) → List (ℕ × NodeAddress)
insert_all a [] m = m
insert_all a (i ∷ is) m = insert_all a is (insert ℕ_discrete i a m)

module _ {F : Type 0} where
  -- `CoverTreeParameters::internal_index`, where the difference fits an `i32`.
  unfoldable pub internal_index : CoverTree F → ℤ → ℕ
  internal_index t scale =
      if ltb_ℤ scale t.min_res_index then 0 else pos_part (scale -ℤ t.min_res_index +ℤ pos 1)

  -- `CoverLayerReader::get_node_and`
  unfoldable pub layer_node : CoverLayer F → ℕ → Option (CoverNode F)
  layer_node l pi = get ℕ_discrete pi l.nodes

  -- `CoverTreeReader::layer`; the index of a layer that is not there panics.
  unfoldable pub layer : CoverTree F → ℤ → Outcome GokoError (CoverLayer F)
  layer t scale = asserted (get_elem? t.layers (internal_index t scale))

  -- `CoverTreeReader::get_node_and`
  unfoldable pub get_node : CoverTree F → NodeAddress → Outcome GokoError (Option (CoverNode F))
  get_node t a = do l ← layer t (scale_index a); ok (layer_node l (point_index a))

  -- `if let Some(children) = n.children()`
  abbrev pub children_of : CoverNode F → List NodeAddress
  children_of n = elim n.children [ none ↦ [] | some cs ↦ cs ]

  -- `node_count`
  unfoldable pub count_nodes : List (CoverLayer F) → ℕ
  count_nodes [] = 0
  count_nodes (l ∷ ls) = length l.nodes + count_nodes ls

  unfoldable pub node_count : CoverTree F → ℕ
  node_count t = count_nodes t.layers

  -- The loop of `no_dangling_refs`.
  unfoldable pub check_refs : ℕ → CoverTree F → List NodeAddress → Outcome GokoError Bool
  check_refs fuel t [] = ok true
  check_refs zero t (a ∷ st) = panic
  check_refs (suc fuel) t (a ∷ st) = do
    node ← get_node t a
    elim node [ none ↦ ok false | some n ↦ check_refs fuel t (extend (children_of n) st) ]

  unfoldable pub no_dangling_refs : ℕ → CoverTree F → Outcome GokoError Bool
  no_dangling_refs fuel t = check_refs fuel t (t.root_address ∷ [])

  -- What one visit of `refresh_final_indexes` writes: the singletons, and a leaf's centre.
  unfoldable pub write_final :
      NodeAddress → CoverNode F → List (ℕ × NodeAddress) → List (ℕ × NodeAddress)
  write_final a n m =
      let written = insert_all a n.singles_indexes m in
      elim n.children [ none ↦ insert ℕ_discrete (point_index a) a written | some cs ↦ written ]

  -- The loop of `refresh_final_indexes`; a missing node is the panic of its `unwrap`.
  unfoldable pub write_finals :
      ℕ
      → CoverTree F
      → List NodeAddress
      → List (ℕ × NodeAddress)
      → Outcome GokoError (List (ℕ × NodeAddress))
  write_finals fuel t [] m = ok m
  write_finals zero t (a ∷ st) m = panic
  write_finals (suc fuel) t (a ∷ st) m = do
    node ← get_node t a
    n ← asserted node
    write_finals fuel t (extend (children_of n) st) (write_final a n m)

  unfoldable pub refresh_final_indexes : ℕ → CoverTree F → Outcome GokoError (CoverTree F)
  refresh_final_indexes fuel t = do
    m ← write_finals fuel t (t.root_address ∷ []) t.final_addresses
    ok (record t { final_addresses = m })
