-- ===== src/Monomap/Refine.antt =====
-- goko/src/monomap: the two copies and the log against one map that is published at a refresh.
use goko.Common.{
  ◌≤◌, ◌≡◌, refl, true, false, some, List, [], ◌∷◌, ◌++◌, length, take, drop, inl, inr, Bool-cases,
  length-append, take-append, drop-append, take-length, drop-length, is_nil, ◌>>=◌, arith,
}
use goko.Monomap.Defs.{
  Inner, MonoOperation, MonoWriteHandle, construct, apply, apply_all, caught_up, refresh, flush,
  set_meta, add_op,
}
use goko.Monomap.Spec.{
  Published, Call, write, meta, refreshing, flushing, start, publish, promise, promise_all, call,
  call_all,
}

module _ {ℓ} {K V : Type ℓ} (dec : Discrete K) where
  apply_all-append :
      (xs ys : List (MonoOperation K V)) (t : List (K × V))
      → apply_all dec (xs ++ ys) t ≡ apply_all dec ys (apply_all dec xs t)
  unfolding apply_all
  apply_all-append [] ys t = refl
  apply_all-append (x ∷ xs) ys t = apply_all-append xs ys (apply dec x t)

module _ {ℓ} {K V M : Type ℓ} (dec : Discrete K) where
  -- Before the first refresh, between the first two, and after them.
  pub data Phase (m : MonoWriteHandle K V M) (s : Published K V M) : Type ℓ where
    filling :
        m.first ≡ true
        → m.second ≡ false
        → m.oplog ≡ []
        → m.swap_index ≡ 0
        → m.w_handle.entries ≡ s.latest
        → s.live ≡ false
        → Phase m s
    copying :
        m.first ≡ false
        → m.second ≡ true
        → m.swap_index ≡ 0
        → apply_all dec m.oplog s.visible ≡ s.latest
        → s.live ≡ true
        → Phase m s
    running :
        m.first ≡ false
        → m.second ≡ false
        → m.swap_index ≤ length m.oplog
        → apply_all dec (take m.swap_index m.oplog) m.w_handle.entries ≡ s.visible
        → apply_all dec (drop m.swap_index m.oplog) s.visible ≡ s.latest
        → s.live ≡ true
        → Phase m s

  pub record Refines (m : MonoWriteHandle K V M) (s : Published K V M) : Type ℓ where
    pub pointer :
        m.r_handle ≡ some (record { entries = s.visible; meta = s.visible_meta; ready = s.live })
    pub meta : m.meta ≡ s.latest_meta
    pub unseen : drop m.swap_index m.oplog ≡ s.unseen
    pub phase : Phase m s

  pub construct-Refines : (v : M) → Refines (construct v) (start v)
  unfolding construct start
  construct-Refines v = record {
    pointer = refl;
    meta = refl;
    unseen = refl;
    phase = filling refl refl refl refl refl refl;
  }

  write-Phase :
      (op : MonoOperation K V) (m : MonoWriteHandle K V M) (s : Published K V M)
      → Phase m s
      → Phase (add_op dec op m) (promise dec (write op) s)
  unfolding add_op promise apply_all
  write-Phase op m s (filling f g o i w l) =
      filling (ground arith) (ground arith) (ground arith) (ground arith) (ground arith) l
  write-Phase op m s (copying f g i e l) =
      copying (ground arith) (ground arith) (ground arith)
        (ground (arith, apply_all-append dec m.oplog (op ∷ []) s.visible)) l
  write-Phase op m s (running f g b e e' l) =
      running (ground arith) (ground arith) (ground (arith, length-append m.oplog (op ∷ [])))
        (ground (arith, take-append m.swap_index m.oplog (op ∷ []) b))
        (ground (
          arith,
          drop-append m.swap_index m.oplog (op ∷ []) b,
          apply_all-append dec (drop m.swap_index m.oplog) (op ∷ []) s.visible,
        ))
        l

  write-unseen :
      (op : MonoOperation K V) (m : MonoWriteHandle K V M) (s : Published K V M)
      → Phase m s
      → drop m.swap_index m.oplog ≡ s.unseen
      → drop (add_op dec op m).swap_index (add_op dec op m).oplog
        ≡ (promise dec (write op) s).unseen
  unfolding add_op promise
  write-unseen op m s (filling f g o i w l) u = ground arith
  write-unseen op m s (copying f g i e l) u = ground arith
  write-unseen op m s (running f g b e e' l) u =
      ground (arith, drop-append m.swap_index m.oplog (op ∷ []) b)

  write-Refines :
      (op : MonoOperation K V) (m : MonoWriteHandle K V M) (s : Published K V M)
      → Refines m s
      → Refines (add_op dec op m) (promise dec (write op) s)
  unfolding add_op promise
  write-Refines op m s h = record {
    pointer = ground arith;
    meta = ground arith;
    unseen = write-unseen op m s h.phase h.unseen;
    phase = write-Phase op m s h.phase;
  }

  module _ (m : MonoWriteHandle K V M) (s : Published K V M) where
    abbrev shown : Inner K V M
    shown = record { entries = s.visible; meta = s.visible_meta; ready = s.live }

    -- The writer's copy, brought up to date, holds the latest map.
    caught_up-latest : m.r_handle ≡ some shown → Phase m s → (caught_up dec m).entries ≡ s.latest
    unfolding caught_up apply_all
    caught_up-latest e (filling f g o i w l) = ground arith
    caught_up-latest e (copying f g i x l) = ground arith
    caught_up-latest e (running f g b x y l) = ground arith

    abbrev refreshed : MonoWriteHandle K V M
    refreshed = record m {
      w_handle = shown;
      r_handle = some (caught_up dec m);
      oplog = drop m.swap_index m.oplog;
      swap_index = length (drop m.swap_index m.oplog);
      first = false;
      second = m.first;
    }

    refresh-Phase : Phase m s → Phase refreshed (publish s)
    unfolding publish apply_all
    refresh-Phase (filling f g o i w l) =
        copying refl (ground arith) (ground arith) (ground arith) refl
    refresh-Phase (copying f g i x l) =
        running refl (ground arith) (omega arith) (ground (arith, take-length m.oplog))
          (ground (arith, drop-length m.oplog)) refl
    refresh-Phase (running f g b x y l) =
        let rest = drop m.swap_index m.oplog in
        running refl (ground arith) (omega arith) (rw take-length y) (rw drop-length) refl

    pub refresh-Refines :
        Refines m s
        → (m' : MonoWriteHandle K V M) × (refresh dec m ≡ some m') × Refines m' (publish s)
    unfolding refresh publish
    refresh-Refines h = (
      refreshed,
      ground (arith, h.pointer),
      record {
        pointer = ground (arith, caught_up-latest h.pointer h.phase, h.meta);
        meta = h.meta;
        unseen = drop-length (drop m.swap_index m.oplog);
        phase = refresh-Phase h.phase;
      },
    )

    flush-Refines :
        Refines m s
        → (m' : MonoWriteHandle K V M) × (flush dec m ≡ some m')
          × Refines m' (promise dec flushing s)
    unfolding flush promise
    flush-Refines h = elim (Bool-cases (is_nil s.unseen)) [
      | inl none_left ↦ (m, ground (arith, h.unseen), rw none_left h)
      | inr some_left ↦
          let (m', e, h') = refresh-Refines h in (m', ground (arith, h.unseen), rw some_left h')
    ]

    set_meta-Phase :
        (v : M) → Phase m s → Phase (record m { meta = v }) (record s { latest_meta = v })
    set_meta-Phase v (filling f g o i w l) = filling f g o i w l
    set_meta-Phase v (copying f g i x l) = copying f g i x l
    set_meta-Phase v (running f g b x y l) = running f g b x y l

    -- One call does what the published map promises, and does not panic.
    call-Refines :
        (c : Call K V M)
        → Refines m s
        → (m' : MonoWriteHandle K V M) × (call dec c m ≡ some m') × Refines m' (promise dec c s)
    unfolding call promise set_meta
    call-Refines (write op) h = (add_op dec op m, refl, write-Refines op m s h)
    call-Refines (meta v) h = (
      record m { meta = v },
      refl,
      record {
        pointer = h.pointer;
        meta = refl;
        unseen = h.unseen;
        phase = set_meta-Phase v h.phase;
      },
    )
    call-Refines refreshing h = refresh-Refines h
    call-Refines flushing h = flush-Refines h

  -- A run of calls does not panic, and does what the published map promises.
  pub call_all-Refines :
      (cs : List (Call K V M)) (m : MonoWriteHandle K V M) (s : Published K V M)
      → Refines m s
      → (m' : MonoWriteHandle K V M) × (call_all dec cs m ≡ some m')
        × Refines m' (promise_all dec cs s)
  unfolding call_all promise_all
  call_all-Refines [] m s h = (m, refl, h)
  call_all-Refines (c ∷ cs) m s h =
      let (m', e, h') = call-Refines m s c h in
      let (m'', e', h'') = call_all-Refines cs m' (promise dec c s) h' in
      (m'', rw (e, ◌>>=◌) e', h'')
