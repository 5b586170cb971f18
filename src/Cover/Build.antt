-- ===== src/Cover/Build.antt =====
-- goko/src/covertree/builders.rs: splitting a builder node into a tree node and the builder nodes of
-- its children, for the first-come partition.
pub mod Grown
pub mod Loop
pub mod First
pub mod Conserve
pub mod Tree
pub mod Placing
pub mod Placed
use goko.Common.{
  ℕ, zero, suc, ◌+◌, ◌-◌, ◌≡◌, Bool, true, false, Option, none, some, List, [], ◌∷◌, ◌++◌, length,
  is_nil, ◌==◌, leb, if◌then◌else◌, ◌&&◌, ◌||◌,
}
use goko.Common.Int.{ℤ, pos, negsuc, ◌-ℤ◌, ltb_ℤ}
use goko.Common.Outcome.{Outcome, ok, err, panic, ◌>>=◌}
use goko.Address.{NodeAddress, new_unchecked}
use goko.Points.Float.{Float, Cloud}
use goko.Cover.Node.{
  GokoError, CoverNode, Inserted, insert_nested_child, insert_child, insert_singletons,
  insert_singleton, set_radius, remove_children,
}
use goko.Cover.Node
use goko.Cover.Caches.{
  FirstCoveredData, UncoveredData, first_split, max_distance, covered_len, into_indexes,
  uncovered_len, pick_center,
}

-- The parameters that a split reads; the scale base is in the powers and logarithms of `Float`.
pub record Parameters : Type 0 where
  pub leaf_cutoff : ℕ
  pub min_res_index : ℤ
  pub use_singletons : Bool

-- `SmallRng`, seeded for a node, and its `gen_range(0..len)`.
pub record SmallRng : Type 1 where
  pub State : Type 0
  pub seeded : NodeAddress → State
  pub gen_range : ℕ → State → ℕ × State

pub record BuilderNode (F : Type 0) : Type 0 where
  pub parent_address : Option NodeAddress
  pub scale_index : ℤ
  pub covered : FirstCoveredData F

-- What a split changes: the node, the builder nodes of its children, the counter `total_nodes` that
-- the builder's threads share, and the generator.
pub record Work (F State : Type 0) : Type 0 where
  pub node : CoverNode F
  pub new_nodes : List (BuilderNode F)
  pub total_nodes : ℕ
  pub rng : State

abbrev pub min_ℤ : ℤ → ℤ → ℤ
min_ℤ a b = if ltb_ℤ b a then b else a

abbrev pub max_ℤ : ℤ → ℤ → ℤ
max_ℤ a b = if ltb_ℤ b a then a else b

-- `?` on an insertion: the changed node is dropped with the error.
abbrev pub inserted : {F : Type 0} → Inserted F → Outcome GokoError (CoverNode F)
inserted (ok n) = ok n
inserted (err e) = err e.0
inserted panic = panic

module _ {F State : Type 0} where
  -- `new_nodes.push(new_node)` and `total_nodes.fetch_add(1)`
  unfoldable pub add_node : BuilderNode F → Work F State → Work F State
  add_node b w = record w { new_nodes = w.new_nodes ++ b ∷ []; total_nodes = w.total_nodes + 1 }

  -- The body of the loop of `split_first`, after the centre is picked.
  unfoldable pub place :
      Parameters
      → ℤ
      → NodeAddress
      → FirstCoveredData F
      → Work F State
      → Outcome GokoError (Work F State)
  place params si parent c w =
      if covered_len c == 1 && params.use_singletons
      then ok (record w { node = insert_singleton c.center_index w.node })
      else do
        node ← inserted (insert_child (new_unchecked si c.center_index) (covered_len c) w.node)
        ok (
            add_node (record { parent_address = some parent; scale_index = si; covered = c })
              (record w { node = node }))

module _ {fl : Float} (cloud : Cloud fl) (small : SmallRng) (params : Parameters) where
  open fl use {F, powi, log_ceil, zero_value}
  open small use {State, seeded, gen_range}

  -- `while fars.len() > 0`, on fuel: each turn takes at least the centre out of `fars`, and running
  -- out is told apart by the panic.
  unfoldable pub split_loop :
      ℕ → ℤ → NodeAddress → UncoveredData → Work F State → Outcome GokoError (Work F State)
  split_loop zero si parent fars w = if is_nil fars.coverage then ok w else panic
  split_loop (suc fuel) si parent fars w =
      let (draw, rng) = gen_range (uncovered_len fars) w.rng in
      if is_nil fars.coverage then ok w else do
        (new_close, left) ← pick_center cloud draw fars (powi si)
        w' ← place params si parent new_close (record w { rng = rng })
        split_loop fuel si parent left w'

  unfoldable pub split_first :
      CoverNode F → NodeAddress → FirstCoveredData F → ℤ → ℕ → Outcome GokoError (Work F State)
  split_first parent_node parent covered si total_nodes =
      let (close, fars) = first_split fl covered (powi si) in
      do
        node ← inserted (insert_nested_child si (covered_len close) parent_node)
        split_loop (uncovered_len fars) si parent fars (
            add_node (record { parent_address = some parent; scale_index = si; covered = close })
              (record {
                node = node;
                new_nodes = [];
                total_nodes = total_nodes;
                rng = seeded parent;
              }))

  unfoldable pub next_scale_index : ℤ → F → ℤ
  next_scale_index si radius = min_ℤ (si -ℤ pos 1) (max_ℤ (log_ceil radius) params.min_res_index)

  -- The last step of `split`: a single child that covers its centre alone is taken back.
  unfoldable pub collapse : Work F State → Work F State
  collapse w = elim w.new_nodes [
    | b ∷ [] ↦
        if covered_len b.covered == 1
        then record w {
          node = insert_singletons (into_indexes b.covered) (remove_children w.node).0;
          new_nodes = [];
          total_nodes = w.total_nodes - 1;
        }
        else w
    | _ ↦ w
  ]

  abbrev pub blank : BuilderNode F → NodeAddress → CoverNode F
  blank b address =
      set_radius (max_distance fl b.covered) (Node.new zero_value b.parent_address address)

  -- `BuilderNode::split`; the generator is the node's own and is dropped at the end.
  unfoldable pub split : BuilderNode F → ℕ → Outcome GokoError (Work F State)
  split b total_nodes =
      let address = new_unchecked b.scale_index b.covered.center_index in
      let radius = max_distance fl b.covered in
      let node = blank b address in
      if leb (covered_len b.covered) params.leaf_cutoff || ltb_ℤ b.scale_index params.min_res_index
      then ok (record {
        node = insert_singletons (into_indexes b.covered) node;
        new_nodes = [];
        total_nodes = total_nodes;
        rng = seeded address;
      })
      else do
        w ← split_first node address b.covered (next_scale_index b.scale_index radius) total_nodes
        ok (collapse w)
