-- ===== src/Query/Pops.antt =====
-- knn_query_heap.rs: the pops of the closest node whose children, or whose singletons, are unvisited.
use mathlib.Core.List.{Permᴰ}
use mathlib.Core.List.Permᴰ
use goko.Common.{
  ℕ, zero, suc, ◌<◌, ◌≡◌, refl, sym, ap, Option, none, some, List, [], ◌∷◌, length, ◌==◌,
  if◌then◌else◌, arith, map, Bool-cases, Option-cases, ◌⊎◌, inl, inr,
}
use goko.Common.Outcome.{Outcome, ok, panic, ◌>>=◌}
use goko.Address.{NodeAddress}
use goko.Points.Float.{Float}
use goko.Cover.Node.{GokoError}
use goko.Query.Heap.{QueryAddress, KnnQueryHeap, push_address, comes_first}

module _ (fl : Float) where
  open fl use {F, lt}

  -- `est_min_dist.remove(&address)`
  unfoldable pub remove_estimate :
      NodeAddress → List (NodeAddress × F) → Option F × List (NodeAddress × F)
  remove_estimate a [] = (none, [])
  remove_estimate a ((b, d) ∷ l) =
      let rest = remove_estimate a l in
      if a.na == b.na then (some d, l) else (rest.0, (b, d) ∷ rest.1)

  -- The node with its least distance raised, if the estimate is above it.
  unfoldable pub raised : Option F → QueryAddress fl → Option (QueryAddress fl)
  raised none q = none
  raised (some min_dist_update) q =
      if lt q.min_dist min_dist_update then some (record q { min_dist = min_dist_update }) else none

  -- What the loop of a pop leaves: the node, if there is one, the heap and the estimates.
  pub record Popped : Type 0 where
    pub node : Option (QueryAddress fl)
    pub heap : List (QueryAddress fl)
    pub estimates : List (NodeAddress × F)

  -- The loop of both pops, on fuel.
  unfoldable pub next_node :
      ℕ → List (QueryAddress fl) → List (NodeAddress × F) → Outcome GokoError Popped
  next_node zero heap est = panic
  next_node (suc fuel) [] est = ok (record { node = none; heap = []; estimates = est })
  next_node (suc fuel) (q ∷ heap) est =
      let (update, est') = remove_estimate q.address est in
      elim (raised update q) [
        | none ↦ ok (record { node = some q; heap = heap; estimates = est' })
        | some q' ↦ next_node fuel (push_address fl q' heap) est'
      ]

  -- A turn that pushes a node back has removed an estimate.
  abbrev turns : KnnQueryHeap fl → ℕ
  turns h = suc (length h.est_min_dist)

  abbrev pub Closest : Type 0
  Closest = Outcome GokoError (Option (NodeAddress × F) × KnnQueryHeap fl)

  unfoldable pub closest_unvisited_child_covering_address : KnnQueryHeap fl → Closest
  closest_unvisited_child_covering_address h = do
    p ← next_node (turns h) h.child_heap h.est_min_dist
    let h' : KnnQueryHeap fl = record h { child_heap = p.heap; est_min_dist = p.estimates }
    elim p.node [
      | none ↦ ok (none, h')
      | some q ↦ ok (
        some (q.address, q.dist_to_center),
        record h' { singleton_heap = push_address fl q h.singleton_heap },
      )
    ]

  unfoldable pub closest_unvisited_singleton_covering_address : KnnQueryHeap fl → Closest
  closest_unvisited_singleton_covering_address h = do
    p ← next_node (turns h) h.singleton_heap h.est_min_dist
    let h' : KnnQueryHeap fl = record h { singleton_heap = p.heap; est_min_dist = p.estimates }
    elim p.node [ none ↦ ok (none, h') | some q ↦ ok (some (q.address, q.dist_to_center), h') ]

  -- A node on a heap with its distance, without the estimate that orders it.
  abbrev pub key : QueryAddress fl → NodeAddress × F
  key q = (q.address, q.dist_to_center)

  abbrev pub keys : List (QueryAddress fl) → List (NodeAddress × F)
  keys = map key

  pub keys-push :
      (q : QueryAddress fl) (l : List (QueryAddress fl))
      → Permᴰ (keys (push_address fl q l)) (key q ∷ keys l)
  unfolding push_address
  keys-push q [] = Permᴰ.refl (key q ∷ [])
  keys-push q (r ∷ l) = elim (Bool-cases (comes_first fl q r)) [
    | inl y ↦ rw y (Permᴰ.refl (key q ∷ key r ∷ keys l))
    | inr n ↦ rw n (Permᴰ.trans (Permᴰ.cons refl (keys-push q l)) (Permᴰ.swap refl refl))
  ]

  raised-key :
      (u : Option F) (q q' : QueryAddress fl)
      → raised u q ≡ some q'
      → (key q' ≡ key q) × (v : F) × (u ≡ some v)
  unfolding raised
  raised-key none q q' e = absurd (cc)
  raised-key (some v) q q' e = elim (Bool-cases (lt q.min_dist v)) [
    | inl y ↦
        let same : some (record q { min_dist = v }) ≡ some q' = rw y at e in (ground arith, v, refl)
    | inr n ↦ let never : none ≡ some q' = rw n at e in absurd (cc)
  ]

  length-remove :
      (a : NodeAddress) (est : List (NodeAddress × F)) (u : F)
      → (remove_estimate a est).0 ≡ some u
      → suc (length (remove_estimate a est).1) ≡ length est
  unfolding remove_estimate
  length-remove a [] u e = cc
  length-remove a ((b, d) ∷ l) u e = elim (Bool-cases (a.na == b.na)) [
    | inl y ↦ rw y refl
    | inr n ↦ rw n (ap suc (length-remove a l u (rw n at e)))
  ]

  not_nil : (q : QueryAddress fl) (l : List (QueryAddress fl)) → push_address fl q l ≡ [] → ⊥
  unfolding push_address
  not_nil q [] e = absurd (cc)
  not_nil q (r ∷ l) e = elim (Bool-cases (comes_first fl q r)) [
    | inl y ↦ let z : q ∷ r ∷ l ≡ [] = rw y at e in absurd (cc)
    | inr n ↦ let z : r ∷ push_address fl q l ≡ [] = rw n at e in absurd (cc)
  ]

  -- A pop ends; it gives no node only from an empty heap, and takes the node that it gives away.
  pub data Pops (heap : List (QueryAddress fl)) : Popped → Type 0 where
    empty :
        (est : List (NodeAddress × F))
        → heap ≡ []
        → Pops heap (record { node = none; heap = []; estimates = est })
    taken :
        (q : QueryAddress fl) (rest : List (QueryAddress fl)) (est : List (NodeAddress × F))
        → Permᴰ (keys heap) (key q ∷ keys rest)
        → Pops heap (record { node = some q; heap = rest; estimates = est })

  pub next_node-Pops :
      (fuel : ℕ) (heap : List (QueryAddress fl)) (est : List (NodeAddress × F))
      → length est < fuel
      → (p : Popped) × (next_node fuel heap est ≡ ok p) × Pops heap p
  unfolding next_node
  next_node-Pops zero heap est h = absurd (omega arith)
  next_node-Pops (suc fuel) [] est h =
      (record { node = none; heap = []; estimates = est }, refl, empty est refl)
  next_node-Pops (suc fuel) (q ∷ heap) est h =
      go (Option-cases (raised (remove_estimate q.address est).0 q)) (next_node-Pops fuel)
    where
      go :
          (raised (remove_estimate q.address est).0 q ≡ none)
            ⊎ ((q' : QueryAddress fl) × (raised (remove_estimate q.address est).0 q ≡ some q'))
          → ((heap : List (QueryAddress fl)) (est : List (NodeAddress × F))
              → length est < fuel
              → (p : Popped) × (next_node fuel heap est ≡ ok p) × Pops heap p)
          → (p : Popped) × (next_node (suc fuel) (q ∷ heap) est ≡ ok p) × Pops (q ∷ heap) p
      go (inl e) ih = (
        record { node = some q; heap = heap; estimates = (remove_estimate q.address est).1 },
        rw (e, next_node) refl,
        taken q heap (remove_estimate q.address est).1 (Permᴰ.refl (key q ∷ keys heap)),
      )
      go (inr (q', e)) ih =
          let (same, v, u) = raised-key (remove_estimate q.address est).0 q q' e in
          let (p, run, c) =
            ih (push_address fl q' heap) (remove_estimate q.address est).1
              (omega (arith, length-remove q.address est v u)) in
          (p, rw (e, next_node) run, pushed_back p c same)
        where
          pushed_back :
              (p : Popped) → Pops (push_address fl q' heap) p → key q' ≡ key q → Pops (q ∷ heap) p
          pushed_back p (empty est z) same = absurd (not_nil q' heap z)
          pushed_back p (taken r rest est d) same = taken r rest est (
              Permᴰ.trans (Permᴰ.cons (sym same) (Permᴰ.refl (keys heap)))
                (Permᴰ.trans (Permᴰ.symm (keys-push q' heap)) d))

  -- What a pop of the child heap does: it gives nothing only when the heap is empty, or takes a node
  -- away and puts it on the singleton heap.
  pub data PopsChild (h : KnnQueryHeap fl)
      : Option (NodeAddress × F) → KnnQueryHeap fl → Type 0 where
    spent :
        (est : List (NodeAddress × F))
        → h.child_heap ≡ []
        → PopsChild h none (record h { child_heap = []; est_min_dist = est })
    moved :
        (q : QueryAddress fl) (rest : List (QueryAddress fl)) (est : List (NodeAddress × F))
        → Permᴰ (keys h.child_heap) (key q ∷ keys rest)
        → PopsChild h (some (key q)) (record h {
          child_heap = rest;
          est_min_dist = est;
          singleton_heap = push_address fl q h.singleton_heap;
        })

  pub closest_child-PopsChild :
      (h : KnnQueryHeap fl)
      → (r : Option (NodeAddress × F)) × (h' : KnnQueryHeap fl)
        × (closest_unvisited_child_covering_address h ≡ ok (r, h'))
        × PopsChild h r h'
  unfolding closest_unvisited_child_covering_address
  closest_child-PopsChild h =
      let (p, run, c) = next_node-Pops (turns h) h.child_heap h.est_min_dist (omega arith) in
      go p run c
    where
      go :
          (p : Popped)
          → next_node (turns h) h.child_heap h.est_min_dist ≡ ok p
          → Pops h.child_heap p
          → (r : Option (NodeAddress × F)) × (h' : KnnQueryHeap fl)
            × (closest_unvisited_child_covering_address h ≡ ok (r, h'))
            × PopsChild h r h'
      go p run (empty est z) =
          (none, _, rw (run, closest_unvisited_child_covering_address) refl, spent est z)
      go p run (taken q rest est d) = (
        some (key q),
        _,
        rw (run, closest_unvisited_child_covering_address) refl,
        moved q rest est d,
      )

  -- What a pop of the singleton heap does.
  pub data PopsSingleton (h : KnnQueryHeap fl)
      : Option (NodeAddress × F) → KnnQueryHeap fl → Type 0 where
    none_left :
        (est : List (NodeAddress × F))
        → h.singleton_heap ≡ []
        → PopsSingleton h none (record h { singleton_heap = []; est_min_dist = est })
    given :
        (q : QueryAddress fl) (rest : List (QueryAddress fl)) (est : List (NodeAddress × F))
        → Permᴰ (keys h.singleton_heap) (key q ∷ keys rest)
        → PopsSingleton h (some (key q)) (record h { singleton_heap = rest; est_min_dist = est })

  pub closest_singleton-PopsSingleton :
      (h : KnnQueryHeap fl)
      → (r : Option (NodeAddress × F)) × (h' : KnnQueryHeap fl)
        × (closest_unvisited_singleton_covering_address h ≡ ok (r, h'))
        × PopsSingleton h r h'
  unfolding closest_unvisited_singleton_covering_address
  closest_singleton-PopsSingleton h =
      let (p, run, c) = next_node-Pops (turns h) h.singleton_heap h.est_min_dist (omega arith) in
      go p run c
    where
      go :
          (p : Popped)
          → next_node (turns h) h.singleton_heap h.est_min_dist ≡ ok p
          → Pops h.singleton_heap p
          → (r : Option (NodeAddress × F)) × (h' : KnnQueryHeap fl)
            × (closest_unvisited_singleton_covering_address h ≡ ok (r, h'))
            × PopsSingleton h r h'
      go p run (empty est z) =
          (none, _, rw (run, closest_unvisited_singleton_covering_address) refl, none_left est z)
      go p run (taken q rest est d) = (
        some (key q),
        _,
        rw (run, closest_unvisited_singleton_covering_address) refl,
        given q rest est d,
      )
