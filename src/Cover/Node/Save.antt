-- ===== src/Cover/Node/Save.antt =====
-- goko/src/covertree/node.rs: `save` and `load` between a node and its protobuf record. The casts
-- between `usize`, `u64` and the record's integers keep every 64-bit value.
use goko.Common.{
  ℕ, ◌-◌, ◌^◌, ◌<◌, ◌≡◌, ◌≢◌, refl, Bool, true, false, Option, none, some, List, [], ◌∷◌, map, ◌==◌,
  if◌then◌else◌, ◌&&◌, arith,
}
use goko.Common.Int.{ℤ, pos, negsuc, ◌-ℤ◌}
use goko.Common.Outcome.{Outcome, ok, ◌>>=◌, asserted}
use goko.Address.{NodeAddress, pmask_u64, from_tuple, scale_index, point_index}
use goko.Address.Words.{word_fields, scale_index-word}
use goko.Address.RoundTrip.{from_tuple-fields}
use goko.Cover.Node.{GokoError, CoverNode}

-- `std::i32::MIN` and `std::u64::MAX`
abbrev pub i32_min : ℤ
i32_min = negsuc (2 ^ 31 - 1)

abbrev pub u64_max : ℕ
u64_max = 2 ^ 64 - 1

pub record NodeProto (F : Type 0) : Type 0 where
  pub coverage_count : ℕ
  pub center_index : ℕ
  pub scale_index : ℤ
  pub parent_center_index : ℕ
  pub parent_scale_index : ℤ
  pub radius : F
  pub is_leaf : Bool
  pub children_point_indexes : List ℕ
  pub children_scale_indexes : List ℤ
  pub outlier_point_indexes : List ℕ

-- The test `parent_scale_index == std::i32::MIN`.
abbrev is_i32_min : ℤ → Bool
is_i32_min (pos n) = false
is_i32_min (negsuc n) = n == 2 ^ 31 - 1

abbrev parent_scale : Option NodeAddress → ℤ
parent_scale none = i32_min
parent_scale (some a) = scale_index a

abbrev parent_center : Option NodeAddress → ℕ
parent_center none = u64_max
parent_center (some a) = point_index a

abbrev children_or_none : Option (List NodeAddress) → List NodeAddress
children_or_none none = []
children_or_none (some c) = c

-- `children_scale_indexes.iter().zip(children_point_indexes).map(into)`
unfoldable pub load_children : List ℤ → List ℕ → Outcome GokoError (List NodeAddress)
load_children (si ∷ sis) (pi ∷ pis) = do
  child ← asserted (from_tuple (si, pi))
  children ← load_children sis pis
  ok (child ∷ children)
load_children _ _ = ok []

module _ {F : Type 0} where
  unfoldable pub save : CoverNode F → NodeProto F
  save n = record {
    coverage_count = n.coverage_count;
    center_index = point_index n.address;
    scale_index = scale_index n.address;
    parent_center_index = parent_center n.parent_address;
    parent_scale_index = parent_scale n.parent_address;
    radius = n.radius;
    is_leaf = elim n.children [ none ↦ true | some c ↦ false ];
    children_point_indexes = map point_index (children_or_none n.children);
    children_scale_indexes = map scale_index (children_or_none n.children);
    outlier_point_indexes = n.singles_indexes;
  }

  unfoldable pub load_parent : NodeProto F → Outcome GokoError (Option NodeAddress)
  load_parent p =
      if is_i32_min p.parent_scale_index && p.parent_center_index == u64_max then ok none else do
        parent ← asserted (from_tuple (p.parent_scale_index, p.parent_center_index))
        ok (some parent)

  unfoldable pub load_children_of : NodeProto F → Outcome GokoError (Option (List NodeAddress))
  load_children_of p = if p.is_leaf then ok none else do
    children ← load_children p.children_scale_indexes p.children_point_indexes
    ok (some children)

  unfoldable pub load : NodeProto F → Outcome GokoError (CoverNode F)
  load p = do
    address ← asserted (from_tuple (p.scale_index, p.center_index))
    parent ← load_parent p
    children ← load_children_of p
    ok (record {
      parent_address = parent;
      address = address;
      radius = p.radius;
      coverage_count = p.coverage_count;
      children = children;
      singles_indexes = p.outlier_point_indexes;
    })

-- An address that is not the reserved one.
abbrev pub IsStorable : NodeAddress → Type 0
IsStorable a = (a.na < 2 ^ 64) × (a.na ≢ pmask_u64)

abbrev pub AllStorable : List NodeAddress → Type 0
AllStorable [] = Unit
AllStorable (a ∷ l) = IsStorable a × AllStorable l

abbrev pub ParentStorable : Option NodeAddress → Type 0
ParentStorable none = Unit
ParentStorable (some a) = IsStorable a

abbrev pub ChildrenStorable : Option (List NodeAddress) → Type 0
ChildrenStorable none = Unit
ChildrenStorable (some c) = AllStorable c

scale_index-ne-min : (a : NodeAddress) → a.na < 2 ^ 64 → is_i32_min (scale_index a) ≡ false
unfolding ◌-ℤ◌
scale_index-ne-min a h =
    let (s, p, e, small, point) = word_fields a h in
    rw e (rw (scale_index-word s p small point) (bounded s small))
  where
    bounded : (s : ℕ) → s < 512 → is_i32_min (pos s -ℤ pos 64) ≡ false
    bounded s h = ground arith

load_children-save :
    (c : List NodeAddress)
    → AllStorable c
    → load_children (map scale_index c) (map point_index c) ≡ ok c
unfolding load_children
load_children-save [] h = refl
load_children-save (a ∷ c) h =
    ground (arith, from_tuple-fields a h.0.0 h.0.1, load_children-save c h.1)

module _ {F : Type 0} where
  load_parent-save :
      (n : CoverNode F)
      → ParentStorable n.parent_address
      → load_parent (save n) ≡ ok n.parent_address
  unfolding load_parent save
  load_parent-save n h = go n.parent_address h
    where
      go :
          (q : Option NodeAddress)
          → ParentStorable q
          → load_parent (save (record n { parent_address = q })) ≡ ok q
      go none k = refl
      go (some a) k = ground (arith, from_tuple-fields a k.0 k.1, scale_index-ne-min a k.0)

  load_children_of-save :
      (n : CoverNode F) → ChildrenStorable n.children → load_children_of (save n) ≡ ok n.children
  unfolding load_children_of save
  load_children_of-save n h = go n.children h
    where
      go :
          (q : Option (List NodeAddress))
          → ChildrenStorable q
          → load_children_of (save (record n { children = q })) ≡ ok q
      go none k = refl
      go (some c) k = rw (load_children-save c k)

  -- Loading the record of a saved node gives the node back, with its parent, address, radius, count,
  -- children and singletons, if its addresses are 64-bit words other than the reserved one.
  pub load-save :
      (n : CoverNode F)
      → IsStorable n.address
      → ParentStorable n.parent_address
      → ChildrenStorable n.children
      → load (save n) ≡ ok n
  unfolding load save
  load-save n a p c =
      ground (
        arith,
        from_tuple-fields n.address a.0 a.1,
        load_parent-save n p,
        load_children_of-save n c,
      )
