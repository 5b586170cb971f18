-- ===== src/Monomap/Reads.antt =====
-- goko/src/monomap/read.rs: what the readers see of the calls on the write handle.
use goko.Common.{
  ◌≡◌, ◌∙◌, sym, ap, refl, false, none, some, List, [], ◌∷◌, ◌++◌, if◌then◌else◌, length, arith,
  is_nil,
}
use goko.Monomap.Table
use goko.Monomap.Defs.{
  MonoOperation, MonoWriteHandle, construct, apply_all, get_and, meta_get_and, get_meta,
  contains_key, len, is_destroyed,
}
use goko.Monomap.Spec.{
  Published, Call, write, meta, refreshing, flushing, start, publish, promise, promise_all,
  call_all,
}
use goko.Monomap.Refine.{Refines, construct-Refines, call_all-Refines}

-- The writes among the calls, in order.
unfoldable pub writes {ℓ} : {K V M : Type ℓ} → List (Call K V M) → List (MonoOperation K V)
writes [] = []
writes (write op ∷ cs) = op ∷ writes cs
writes (meta v ∷ cs) = writes cs
writes (refreshing ∷ cs) = writes cs
writes (flushing ∷ cs) = writes cs

-- No call among them publishes.
abbrev pub NoRefresh {ℓ} : {K V M : Type ℓ} → List (Call K V M) → Type 0
NoRefresh [] = Unit
NoRefresh (write op ∷ cs) = NoRefresh cs
NoRefresh (meta v ∷ cs) = NoRefresh cs
NoRefresh (refreshing ∷ cs) = ⊥
NoRefresh (flushing ∷ cs) = ⊥

module _ {ℓ} {K V M : Type ℓ} (dec : Discrete K) where
  -- What a reader is shown of the published map.
  pub record Shows (m : MonoWriteHandle K V M) (s : Published K V M) : Type ℓ where
    pub value : (k : K) → get_and dec k m ≡ (if s.live then Table.get dec k s.visible else none)
    pub value_meta :
        (k : K)
        → meta_get_and dec k m
          ≡ (if s.live then some (Table.get dec k s.visible, s.visible_meta) else none)
    pub metadata : get_meta m ≡ some s.visible_meta
    pub keys : (k : K) → contains_key dec k m ≡ Table.contains_key dec k s.visible
    pub size : len m ≡ length s.visible
    pub alive : is_destroyed m ≡ false

  Refines-Shows : (m : MonoWriteHandle K V M) (s : Published K V M) → Refines dec m s → Shows m s
  unfolding get_and meta_get_and get_meta contains_key len is_destroyed
  Refines-Shows m s h = record {
    value = λ k. ground (arith, h.pointer);
    value_meta = λ k. ground (arith, h.pointer);
    metadata = ground (arith, h.pointer);
    keys = λ k. ground (arith, h.pointer);
    size = ground (arith, h.pointer);
    alive = ground (arith, h.pointer);
  }

  -- No sequence of writes, changes of the meta value, refreshes and flushes panics, and the readers
  -- see what a map with one published copy shows: values, meta value, keys and length.
  pub run-Shows :
      (v : M) (cs : List (Call K V M))
      → (m : MonoWriteHandle K V M) × (call_all dec cs (construct v) ≡ some m)
        × Shows m (promise_all dec cs (start v))
  run-Shows v cs =
      let (m, e, h) = call_all-Refines dec cs _ _ (construct-Refines dec v) in
      (m, e, Refines-Shows m _ h)

  promise_all-append :
      (cs ds : List (Call K V M)) (s : Published K V M)
      → promise_all dec (cs ++ ds) s ≡ promise_all dec ds (promise_all dec cs s)
  unfolding promise_all
  promise_all-append [] ds s = refl
  promise_all-append (c ∷ cs) ds s = promise_all-append cs ds (promise dec c s)

  latest-writes :
      (cs : List (Call K V M)) (s : Published K V M)
      → (promise_all dec cs s).latest ≡ apply_all dec (writes cs) s.latest
  unfolding promise_all promise writes apply_all publish
  latest-writes [] s = refl
  latest-writes (write op ∷ cs) s = latest-writes cs _
  latest-writes (meta v ∷ cs) s = latest-writes cs _
  latest-writes (refreshing ∷ cs) s = latest-writes cs _
  latest-writes (flushing ∷ cs) s = latest-writes cs _ ∙ ap (apply_all dec (writes cs)) same
    where
      same : (if is_nil s.unseen then s else publish s).latest ≡ s.latest
      same = ground arith

  -- After a refresh the readers see every write before it, applied in order to an empty map.
  pub refresh-shows_writes :
      (v : M) (cs : List (Call K V M)) (k : K)
      → (m : MonoWriteHandle K V M) × (call_all dec (cs ++ refreshing ∷ []) (construct v) ≡ some m)
        × (get_and dec k m ≡ Table.get dec k (apply_all dec (writes cs) []))
  unfolding promise_all promise publish start
  refresh-shows_writes v cs k =
      let (m, e, h) = run-Shows v (cs ++ refreshing ∷ []) in
      (
        m,
        e,
        h.value k ∙ rw (promise_all-append cs) (ap (Table.get dec k) (latest-writes cs (start v))),
      )

  quiet :
      (cs : List (Call K V M)) (s : Published K V M)
      → NoRefresh cs
      → ((promise_all dec cs s).visible ≡ s.visible)
        × ((promise_all dec cs s).live ≡ s.live)
        × ((promise_all dec cs s).visible_meta ≡ s.visible_meta)
  unfolding promise_all promise
  quiet [] s h = (refl, refl, refl)
  quiet (write op ∷ cs) s h = quiet cs _ h
  quiet (meta v ∷ cs) s h = quiet cs _ h
  quiet (refreshing ∷ cs) s h = absurd h
  quiet (flushing ∷ cs) s h = absurd h

  -- After any calls, further writes and changes of the meta value with no refresh and no flush do
  -- not panic and change nothing that a read returns.
  pub writes_unseen :
      (v : M) (cs ds : List (Call K V M)) (k : K)
      → NoRefresh ds
      → (m m' : MonoWriteHandle K V M) × (call_all dec cs (construct v) ≡ some m)
        × (call_all dec ds m ≡ some m')
        × (get_and dec k m' ≡ get_and dec k m)
        × (get_meta m' ≡ get_meta m)
        × (len m' ≡ len m)
  writes_unseen v cs ds k q =
      let s = promise_all dec cs (start v) in
      let (m, e, h) = call_all-Refines dec cs _ _ (construct-Refines dec v) in
      let (m', e', h') = call_all-Refines dec ds m s h in
      let (a, b, c) = quiet ds s q in
      let x = Refines-Shows m s h in
      let y = Refines-Shows m' (promise_all dec ds s) h' in
      (
        m,
        m',
        e,
        e',
        y.value k ∙ rw (a, b) (sym (x.value k)),
        y.metadata ∙ rw c (sym x.metadata),
        y.size ∙ rw a (sym x.size),
      )

  no_log :
      (cs : List (Call K V M)) (s : Published K V M)
      → NoRefresh cs
      → s.live ≡ false
      → s.unseen ≡ []
      → ((promise_all dec cs s).live ≡ false) × ((promise_all dec cs s).unseen ≡ [])
  unfolding promise_all promise
  no_log [] s q l u = (l, u)
  no_log (write op ∷ cs) s q l u = no_log cs _ q l (ground arith)
  no_log (meta v ∷ cs) s q l u = no_log cs _ q l u
  no_log (refreshing ∷ cs) s q l u = absurd q
  no_log (flushing ∷ cs) s q l u = absurd q

  -- Before the first refresh `flush` publishes nothing: after any writes and then a flush, a reader
  -- still finds no value at any key.
  pub flush_before_refresh :
      (v : M) (cs : List (Call K V M)) (k : K)
      → NoRefresh cs
      → (m : MonoWriteHandle K V M) × (call_all dec (cs ++ flushing ∷ []) (construct v) ≡ some m)
        × (get_and dec k m ≡ none)
        × (len m ≡ 0)
  unfolding promise_all promise start
  flush_before_refresh v cs k q =
      let (m, e, h) = run-Shows v (cs ++ flushing ∷ []) in
      let s = promise_all dec cs (start v) in
      let (a, b, c) = quiet cs (start v) q in
      let (l, u) = no_log cs (start v) q refl refl in
      (
        m,
        e,
        h.value k ∙ rw (promise_all-append cs) (rw u (rw l)),
        h.size ∙ rw (promise_all-append cs) (rw u (rw a)),
      )
