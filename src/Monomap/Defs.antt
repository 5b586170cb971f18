-- ===== src/Monomap/Defs.antt =====
-- goko/src/monomap/{inner,mod,write,read}.rs: the handles over the two copies of the map. One
-- writer; the pointer that the read handles share is the field `r_handle`, null after a drop.
use goko.Common.{
  ℕ, Bool, true, false, Option, none, some, List, [], ◌∷◌, ◌++◌, length, take, drop, ◌==◌, not,
  if◌then◌else◌, map, is_nil, unwrap_or, ◌>>=◌,
}
use goko.Monomap.Table

module _ {ℓ} where
  -- `Inner`, without its hasher and capacity.
  pub record Inner (K V M : Type ℓ) : Type ℓ where
    pub entries : List (K × V)
    pub meta : M
    pub ready : Bool

  -- `MonoOperation`; an `Updater` is a pure function here.
  pub data MonoOperation (K V : Type ℓ) : Type ℓ where
    insert : K → V → MonoOperation K V
    update : K → (V → V) → MonoOperation K V
    remove : K → MonoOperation K V
    purge : MonoOperation K V

  -- `MonoWriteHandle` and the pointer that it shares with the readers. The epochs of the readers are
  -- in `Readers`: what is here happens once `wait` has returned.
  pub record MonoWriteHandle (K V M : Type ℓ) : Type ℓ where
    pub w_handle : Inner K V M
    pub r_handle : Option (Inner K V M)
    pub oplog : List (MonoOperation K V)
    pub swap_index : ℕ
    pub meta : M
    pub first : Bool
    pub second : Bool

module _ {ℓ} {K V M : Type ℓ} where
  -- `Inner::with_hasher`
  unfoldable pub with_hasher : M → Inner K V M
  with_hasher m = record { entries = []; meta = m; ready = false }

  unfoldable pub mark_ready : Inner K V M → Inner K V M
  mark_ready inner = record inner { ready = true }

  -- `MonoOptions::construct`: `inner.clone()` copies the flag and an empty map.
  unfoldable pub construct : M → MonoWriteHandle K V M
  unfolding with_hasher mark_ready
  construct m = record {
    w_handle = mark_ready (with_hasher m);
    r_handle = some (with_hasher m);
    oplog = [];
    swap_index = 0;
    meta = m;
    first = true;
    second = false;
  }

module _ {ℓ} {K V : Type ℓ} (dec : Discrete K) where
  -- The change that `apply_first` and `apply_second` make to the map.
  unfoldable pub apply : MonoOperation K V → List (K × V) → List (K × V)
  apply (insert k v) t = Table.insert dec k v t
  apply (update k f) t = Table.update dec k f t
  apply (remove k) t = Table.remove dec k t
  apply purge t = []

  -- `for op in ops { apply(w_handle, op) }`
  unfoldable pub apply_all : List (MonoOperation K V) → List (K × V) → List (K × V)
  apply_all [] t = t
  apply_all (op ∷ ops) t = apply_all ops (apply op t)

module _ {ℓ} {K V M : Type ℓ} (dec : Discrete K) where
  -- The map that a refresh starts from: at the second one a copy of the readers' map.
  unfoldable pub base : MonoWriteHandle K V M → List (K × V)
  base m = elim m.r_handle [
    | none ↦ m.w_handle.entries
    | some r ↦ if m.second then r.entries else m.w_handle.entries
  ]

  -- `w_handle`, up to date: the drained part of the log, then the rest.
  unfoldable pub caught_up : MonoWriteHandle K V M → Inner K V M
  unfolding base
  caught_up m = record {
    entries =
        apply_all dec (drop m.swap_index m.oplog)
          (apply_all dec (take m.swap_index m.oplog) (base m));
    meta = m.meta;
    ready = true;
  }

  -- `refresh`; `none` is the panic on a null pointer.
  unfoldable pub refresh : MonoWriteHandle K V M → Option (MonoWriteHandle K V M)
  unfolding caught_up
  refresh m = elim m.r_handle [
    | none ↦ none
    | some r ↦ some (record m {
      w_handle = r;
      r_handle = some (caught_up m);
      oplog = drop m.swap_index m.oplog;
      swap_index = length (drop m.swap_index m.oplog);
      first = false;
      second = m.first;
    })
  ]

  unfoldable pub pending : MonoWriteHandle K V M → List (MonoOperation K V)
  pending m = drop m.swap_index m.oplog

  unfoldable pub flush : MonoWriteHandle K V M → Option (MonoWriteHandle K V M)
  unfolding pending
  flush m = if not (is_nil (pending m)) then refresh m else some m

  -- The new state, and the old meta value.
  unfoldable pub set_meta : M → MonoWriteHandle K V M → MonoWriteHandle K V M × M
  set_meta v m = (record m { meta = v }, m.meta)

  unfoldable pub add_op : MonoOperation K V → MonoWriteHandle K V M → MonoWriteHandle K V M
  add_op op m =
      if not m.first
      then record m { oplog = m.oplog ++ op ∷ [] }
      else record m { w_handle = record m.w_handle { entries = apply dec op m.w_handle.entries } }

  unfoldable pub insert_op : K → V → MonoWriteHandle K V M → MonoWriteHandle K V M
  insert_op k v = add_op (insert k v)

  unfoldable pub update_op : K → (V → V) → MonoWriteHandle K V M → MonoWriteHandle K V M
  update_op k f = add_op (update k f)

  unfoldable pub remove_op : K → MonoWriteHandle K V M → MonoWriteHandle K V M
  remove_op k = add_op (remove k)

  unfoldable pub purge_op : MonoWriteHandle K V M → MonoWriteHandle K V M
  purge_op = add_op purge

  -- `Extend::extend`
  unfoldable pub extend : List (K × V) → MonoWriteHandle K V M → MonoWriteHandle K V M
  unfolding insert_op
  extend [] m = m
  extend ((k, v) ∷ l) m = extend l (insert_op k v m)

  -- `if !self.oplog.is_empty() { self.refresh(); }`
  unfoldable pub refresh_if_logged : MonoWriteHandle K V M → Option (MonoWriteHandle K V M)
  refresh_if_logged m = if not (is_nil m.oplog) then refresh m else some m

  -- `assert!(self.oplog.is_empty())`, and the null pointer for the readers.
  unfoldable pub close : MonoWriteHandle K V M → Option (MonoWriteHandle K V M)
  close m =
      if is_nil m.oplog
      then some (record m { r_handle = none; w_handle = record m.w_handle { entries = [] } })
      else none

  -- `drop`
  unfoldable pub drop_handle : MonoWriteHandle K V M → Option (MonoWriteHandle K V M)
  unfolding refresh_if_logged close
  drop_handle m = do m' ← refresh_if_logged m; m'' ← refresh_if_logged m'; close m''

-- `MonoReadHandle`: `with_handle` hands the copy behind the pointer to a closure.
module _ {ℓ} {K V M : Type ℓ} where
  unfoldable pub with_handle {κ} :
      {T : Type κ} → MonoWriteHandle K V M → (Inner K V M → T) → Option T
  with_handle m f = elim m.r_handle [ none ↦ none | some r ↦ some (f r) ]

  unfoldable pub len : MonoWriteHandle K V M → ℕ
  unfolding with_handle
  len m = unwrap_or (with_handle m (λ r. length r.entries)) 0

  unfoldable pub is_empty : MonoWriteHandle K V M → Bool
  unfolding with_handle
  is_empty m = unwrap_or (with_handle m (λ r. length r.entries == 0)) true

  unfoldable pub get_meta : MonoWriteHandle K V M → Option M
  unfolding with_handle
  get_meta m = with_handle m (λ r. r.meta)

  unfoldable pub is_destroyed : MonoWriteHandle K V M → Bool
  unfolding with_handle
  is_destroyed m = elim (with_handle m (λ r. tt {0})) [ none ↦ true | some u ↦ false ]

  unfoldable pub map_into : {T : Type ℓ} → MonoWriteHandle K V M → (K × V → T) → List T
  unfolding with_handle
  map_into m f = unwrap_or (with_handle m (λ r. map f r.entries)) []

  module _ (dec : Discrete K) where
    -- `get_raw`, with the identity for `then`.
    unfoldable pub get_and : K → MonoWriteHandle K V M → Option V
    unfolding with_handle
    get_and k m =
        unwrap_or (with_handle m (λ r. if not r.ready then none else Table.get dec k r.entries))
          none

    unfoldable pub meta_get_and : K → MonoWriteHandle K V M → Option (Option V × M)
    unfolding with_handle
    meta_get_and k m =
        unwrap_or
          (with_handle m
            (λ r. if not r.ready then none else some (Table.get dec k r.entries, r.meta)))
          none

    unfoldable pub contains_key : K → MonoWriteHandle K V M → Bool
    unfolding with_handle
    contains_key k m = unwrap_or (with_handle m (λ r. Table.contains_key dec k r.entries)) false
