-- ===== src/Monomap/Destroy.antt =====
-- goko/src/monomap/write.rs, `Drop`: both copies catch up, and the readers' pointer becomes null.
use goko.Common.{
  ◌≡◌, ◌∙◌, inl, inr, Bool-cases, is_nil-eq, refl, true, none, some, List, [], drop, is_nil, arith,
}
use goko.Monomap.Defs.{
  MonoWriteHandle, construct, refresh, refresh_if_logged, drop_handle, get_and, get_meta, len,
  is_destroyed,
}
use goko.Monomap.Spec.{Published, Call, publish, call_all}
use goko.Monomap.Refine.{Refines, construct-Refines, refresh-Refines, call_all-Refines}

module _ {ℓ} {K V M : Type ℓ} (dec : Discrete K) where
  refresh-log :
      (m m' : MonoWriteHandle K V M)
      → refresh dec m ≡ some m'
      → m'.oplog ≡ drop m.swap_index m.oplog
  unfolding refresh
  refresh-log m m' e = ground arith

  -- After two refreshes the log is empty.
  last_refresh :
      (m : MonoWriteHandle K V M) (s : Published K V M)
      → Refines dec m s
      → drop m.swap_index m.oplog ≡ []
      → (m' : MonoWriteHandle K V M) × (refresh_if_logged dec m ≡ some m') × (m'.oplog ≡ [])
  unfolding refresh_if_logged
  last_refresh m s h d = elim (Bool-cases (is_nil m.oplog)) [
    | inl e ↦ (m, rw e, is_nil-eq m.oplog e)
    | inr e ↦ let (m', r, h') = refresh-Refines dec m s h in (m', rw e r, refresh-log m m' r ∙ d)
  ]

  nothing_unseen :
      (m : MonoWriteHandle K V M) (s : Published K V M)
      → Refines dec m (publish s)
      → drop m.swap_index m.oplog ≡ []
  unfolding publish
  nothing_unseen m s h = h.unseen

  abbrev closed : MonoWriteHandle K V M → MonoWriteHandle K V M
  closed m = record m { r_handle = none; w_handle = record m.w_handle { entries = [] } }

  drained :
      (m : MonoWriteHandle K V M) (s : Published K V M)
      → Refines dec m s
      → (m' : MonoWriteHandle K V M) × (drop_handle dec m ≡ some m') × (m'.r_handle ≡ none)
  unfolding drop_handle
  drained m s h = elim (Bool-cases (is_nil m.oplog)) [
    | inl e ↦ (closed m, ground arith, refl)
    | inr e ↦
        let (m', r, h') = refresh-Refines dec m s h in
        let (m'', r', o) = last_refresh m' (publish s) h' (nothing_unseen m' s h') in
        (closed m'', ground arith, refl)
  ]

  unread :
      (m : MonoWriteHandle K V M) (k : K)
      → m.r_handle ≡ none
      → (is_destroyed m ≡ true) × (get_and dec k m ≡ none) × (get_meta m ≡ none) × (len m ≡ 0)
  unfolding is_destroyed get_and get_meta len
  unread m k e = (rw (e, is_destroyed), ground arith, ground arith, ground arith)

  -- Dropping the write handle after any calls does not panic, and every read handle then reports
  -- the map as destroyed and reads nothing.
  pub drop_handle-destroys :
      (v : M) (cs : List (Call K V M)) (k : K)
      → (m m' : MonoWriteHandle K V M) × (call_all dec cs (construct v) ≡ some m)
        × (drop_handle dec m ≡ some m')
        × (is_destroyed m' ≡ true)
        × (get_and dec k m' ≡ none)
        × (get_meta m' ≡ none)
        × (len m' ≡ 0)
  drop_handle-destroys v cs k =
      let (m, e, h) = call_all-Refines dec cs _ _ (construct-Refines dec v) in
      let (m', e', n) = drained m _ h in
      let (a, b, c, d) = unread m' k n in (m, m', e, e', a, b, c, d)
