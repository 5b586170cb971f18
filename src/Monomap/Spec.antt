-- ===== src/Monomap/Spec.antt =====
-- goko/src/monomap: one map that is published at a refresh, the contract of the two copies, and the
-- calls on a write handle.
use goko.Common.{Bool, true, false, Option, some, List, [], ◌∷◌, ◌++◌, if◌then◌else◌, is_nil, ◌>>=◌}
use goko.Monomap.Defs.{MonoOperation, MonoWriteHandle, apply, refresh, flush, set_meta, add_op}

-- What the map promises: writes are seen after the next refresh, and then all at once.
pub record Published {ℓ} (K V M : Type ℓ) : Type ℓ where
  pub visible : List (K × V)
  pub visible_meta : M
  pub latest : List (K × V)
  pub latest_meta : M
  -- the writes since the last refresh, from the first refresh on
  pub unseen : List (MonoOperation K V)
  pub live : Bool

-- The calls on a write handle.
pub data Call {ℓ} (K V M : Type ℓ) : Type ℓ where
  write : MonoOperation K V → Call K V M
  meta : M → Call K V M
  refreshing : Call K V M
  flushing : Call K V M

module _ {ℓ} {K V M : Type ℓ} where
  unfoldable pub start : M → Published K V M
  start m = record {
    visible = [];
    visible_meta = m;
    latest = [];
    latest_meta = m;
    unseen = [];
    live = false;
  }

  unfoldable pub publish : Published K V M → Published K V M
  publish s = record s {
    visible = s.latest;
    visible_meta = s.latest_meta;
    unseen = [];
    live = true;
  }

module _ {ℓ} {K V M : Type ℓ} (dec : Discrete K) where
  unfoldable pub promise : Call K V M → Published K V M → Published K V M
  promise (write op) s = record s {
    latest = apply dec op s.latest;
    unseen = if s.live then s.unseen ++ op ∷ [] else [];
  }
  promise (meta v) s = record s { latest_meta = v }
  promise refreshing s = publish s
  promise flushing s = if is_nil s.unseen then s else publish s

  unfoldable pub promise_all : List (Call K V M) → Published K V M → Published K V M
  promise_all [] s = s
  promise_all (c ∷ cs) s = promise_all cs (promise c s)

  unfoldable pub call : Call K V M → MonoWriteHandle K V M → Option (MonoWriteHandle K V M)
  call (write op) m = some (add_op dec op m)
  call (meta v) m = some (set_meta dec v m).0
  call refreshing m = refresh dec m
  call flushing m = flush dec m

  unfoldable pub call_all :
      List (Call K V M) → MonoWriteHandle K V M → Option (MonoWriteHandle K V M)
  call_all [] m = some m
  call_all (c ∷ cs) m = call c m >>= call_all cs
