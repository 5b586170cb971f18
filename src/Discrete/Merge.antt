-- ===== src/Discrete/Merge.antt =====
-- parameter_store.rs: the iterator over one distribution and the one over two, which merges them.
use goko.Common.{
  ℕ, zero, suc, ◌+◌, ◌<◌, ◌≡◌, refl, Option, none, some, List, [], ◌∷◌, length, ◌==◌, ltb, map,
  if◌then◌else◌, ◌>>=◌, arith, Bool-cases, inl, inr, unwrap_or, ==_iff,
}
use goko.Discrete.Params.{DiscreteParams}
use goko.Discrete.Pairs.{zip, lookup, Sorted, Above, lookup-Above, Above-trans}
use goko.Discrete.Updates.{IsWellFormed, counts}

pub record DiscreteParamsIter : Type 0 where
  pub index_iter : List ℕ
  pub value_iter : List ℕ

abbrev pub Item : Type 0
Item = ℕ × ℕ

abbrev step : List ℕ → List ℕ → Option (Option Item × DiscreteParamsIter)
step (i ∷ is) (v ∷ vs) = some (some (i, v), record { index_iter = is; value_iter = vs })
step [] [] = some (none, record { index_iter = []; value_iter = [] })
step _ _ = none

-- `next`; `none` is the panic of iterators that are not in lockstep.
unfoldable pub next_pair : DiscreteParamsIter → Option (Option Item × DiscreteParamsIter)
next_pair it = step it.index_iter it.value_iter

pub record DiscreteParamsDoubleIter : Type 0 where
  pub iter_a : DiscreteParamsIter
  pub iter_b : DiscreteParamsIter
  pub val_a : Option Item
  pub val_b : Option Item

unfoldable pub iter : DiscreteParams → DiscreteParamsIter
iter p = record { index_iter = p.indexes.indexes; value_iter = p.values }

unfoldable pub double_iter : DiscreteParams → DiscreteParams → Option DiscreteParamsDoubleIter
double_iter p other = do
  (val_a, iter_a) ← next_pair (iter p)
  (val_b, iter_b) ← next_pair (iter other)
  some (record { iter_a = iter_a; iter_b = iter_b; val_a = val_a; val_b = val_b })

abbrev Next : Type 0
Next = Option (Option (Item × Item) × DiscreteParamsDoubleIter)

abbrev next_a : Item × Item → DiscreteParamsDoubleIter → Next
next_a item it = do
  (val, rest) ← next_pair it.iter_a
  some (some item, record it { iter_a = rest; val_a = val })

abbrev next_b : Item × Item → DiscreteParamsDoubleIter → Next
next_b item it = do
  (val, rest) ← next_pair it.iter_b
  some (some item, record it { iter_b = rest; val_b = val })

abbrev next_ab : Item × Item → DiscreteParamsDoubleIter → Next
next_ab item it = do
  (val_a, iter_a) ← next_pair it.iter_a
  (val_b, iter_b) ← next_pair it.iter_b
  some (some item, record { iter_a = iter_a; iter_b = iter_b; val_a = val_a; val_b = val_b })

abbrev next_of : Option Item → Option Item → DiscreteParamsDoubleIter → Next
next_of (some (a, x)) (some (b, y)) it =
    if a == b
    then next_ab ((a, x), (b, y)) it
    else if ltb b a
    then next_b ((b, 0), (b, y)) it
    else next_a ((a, x), (a, 0)) it
next_of (some (a, x)) none it = next_a ((a, x), (a, 0)) it
next_of none (some (b, y)) it = next_b ((b, 0), (b, y)) it
next_of none none it = some (none, it)

unfoldable pub double_next : DiscreteParamsDoubleIter → Next
double_next it = next_of it.val_a it.val_b it

-- Iterating to the end, on fuel: `none` is a panic, or fuel that ran out.
unfoldable pub collect : ℕ → DiscreteParamsDoubleIter → Option (List (Item × Item))
collect zero it = none
collect (suc fuel) it = do
  (item, it') ← double_next it
  elim item [ none ↦ some [] | some x ↦ do rest ← collect fuel it'; some (x ∷ rest) ]

-- The iterator at two distributions, given by their lists.
abbrev at : List ℕ → List ℕ → Option Item
at (k ∷ ks) (v ∷ vs) = some (k, v)
at _ _ = none

abbrev past : List ℕ → List ℕ → DiscreteParamsIter
past (k ∷ ks) (v ∷ vs) = record { index_iter = ks; value_iter = vs }
past _ _ = record { index_iter = []; value_iter = [] }

abbrev between : List ℕ → List ℕ → List ℕ → List ℕ → DiscreteParamsDoubleIter
between ks vs js ws = record {
  iter_a = past ks vs;
  iter_b = past js ws;
  val_a = at ks vs;
  val_b = at js ws;
}

step_lem : (ks vs : List ℕ) → length ks ≡ length vs → step ks vs ≡ some (at ks vs, past ks vs)
step_lem [] [] e = refl
step_lem [] (v ∷ vs) e = absurd (omega arith)
step_lem (k ∷ ks) [] e = absurd (omega arith)
step_lem (k ∷ ks) (v ∷ vs) e = refl

-- The pair of counts that a merge gives at an address.
abbrev pub both : Option ℕ → Option ℕ → Option (ℕ × ℕ)
both none none = none
both o p = some (unwrap_or o 0, unwrap_or p 0)

abbrev pub lookup_both : ℕ → List (Item × Item) → Option (ℕ × ℕ)
lookup_both k [] = none
lookup_both k (((a, x), (b, y)) ∷ l) = if k == a then some (x, y) else lookup_both k l

abbrev pub places : List (Item × Item) → List ℕ
places l = map (λ i. i.0.0) l

abbrev pub Paired : List (Item × Item) → Type 0
Paired [] = Unit
Paired (i ∷ l) = (i.0.0 ≡ i.1.0) × Paired l

record Merged (ks vs js ws : List ℕ) (l : List (Item × Item)) : Type 0 where
  pub sorted : Sorted (places l)
  pub bound : (b : ℕ) → Above b ks → Above b js → Above b (places l)
  pub paired : Paired l
  pub seen : (k : ℕ) → lookup_both k l ≡ both (lookup k (zip ks vs)) (lookup k (zip js ws))

-- A place of the second alone, below all of the first.
Merged-b :
    (ks vs js ws : List ℕ) (j w : ℕ) (l : List (Item × Item))
    → Above j ks
    → Above j js
    → Merged ks vs js ws l
    → Merged ks vs (j ∷ js) (w ∷ ws) (((j, 0), (j, w)) ∷ l)
Merged-b ks vs js ws j w l a t m = record {
  sorted = (m.bound j a t, m.sorted);
  bound = λ b c d. (d.0, m.bound b c d.1);
  paired = (refl, m.paired);
  seen = λ k. elim (Bool-cases (k == j)) [
    | inl same ↦ rw same (rw ((==_iff k j).0 same, lookup-Above j ks vs a))
    | inr other ↦ rw other (m.seen k)
  ];
}

Merged-a :
    (ks vs js ws : List ℕ) (i v : ℕ) (l : List (Item × Item))
    → Above i ks
    → Above i js
    → Merged ks vs js ws l
    → Merged (i ∷ ks) (v ∷ vs) js ws (((i, v), (i, 0)) ∷ l)
Merged-a ks vs js ws i v l a t m = record {
  sorted = (m.bound i a t, m.sorted);
  bound = λ b c d. (c.0, m.bound b c.1 d);
  paired = (refl, m.paired);
  seen = λ k. elim (Bool-cases (k == i)) [
    | inl same ↦ rw same (rw ((==_iff k i).0 same, lookup-Above i js ws t))
    | inr other ↦ rw other (m.seen k)
  ];
}

Merged-ab :
    (ks vs js ws : List ℕ) (i j v w : ℕ) (l : List (Item × Item))
    → i ≡ j
    → Above i ks
    → Above j js
    → Merged ks vs js ws l
    → Merged (i ∷ ks) (v ∷ vs) (j ∷ js) (w ∷ ws) (((i, v), (j, w)) ∷ l)
Merged-ab ks vs js ws i j v w l e a t m = rw e (record {
  sorted = (m.bound j (rw⁻¹ e a) t, m.sorted);
  bound = λ b c d. (d.0, m.bound b c.1 d.1);
  paired = (refl, m.paired);
  seen = λ k. elim (Bool-cases (k == j)) [ inl same ↦ rw same | inr other ↦ rw other (m.seen k) ];
})

collect_lem :
    (fuel : ℕ) (ks vs js ws : List ℕ)
    → length ks ≡ length vs
    → length js ≡ length ws
    → Sorted ks
    → Sorted js
    → length ks + length js < fuel
    → (l : List (Item × Item)) × (collect fuel (between ks vs js ws) ≡ some l)
      × Merged ks vs js ws l
unfolding collect double_next next_pair
collect_lem zero ks vs js ws e f s t h = absurd (omega arith)
collect_lem (suc fuel) [] [] [] [] e f s t h =
    ([], refl, record { sorted = tt; bound = λ b c d. tt; paired = tt; seen = λ k. refl })
collect_lem (suc fuel) [] [] (j ∷ js) (w ∷ ws) e f s t h =
    let (l, run, m) = collect_lem fuel [] [] js ws refl (omega arith) tt t.1 (omega arith) in
    (
      ((j, 0), (j, w)) ∷ l,
      rw (step_lem js ws (omega arith), run),
      Merged-b [] [] js ws j w l tt t.0 m,
    )
collect_lem (suc fuel) (k ∷ ks) (v ∷ vs) [] [] e f s t h =
    let (l, run, m) = collect_lem fuel ks vs [] [] (omega arith) refl s.1 tt (omega arith) in
    (
      ((k, v), (k, 0)) ∷ l,
      rw (step_lem ks vs (omega arith), run),
      Merged-a ks vs [] [] k v l s.0 tt m,
    )
collect_lem (suc fuel) (k ∷ ks) (v ∷ vs) (j ∷ js) (w ∷ ws) e f s t h = elim (Bool-cases (k == j)) [
  | inl same ↦
      let (l, run, m) =
        collect_lem fuel ks vs js ws (omega arith) (omega arith) s.1 t.1 (omega arith) in
      (
        ((k, v), (j, w)) ∷ l,
        rw (same, step_lem ks vs (omega arith), step_lem js ws (omega arith), run),
        Merged-ab ks vs js ws k j v w l ((==_iff k j).0 same) s.0 t.0 m,
      )
  | inr other ↦ elim (Bool-cases (ltb j k)) [
    | inl lower ↦
        let (l, run, m) =
          collect_lem fuel (k ∷ ks) (v ∷ vs) js ws e (omega arith) s t.1 (omega arith) in
        (
          ((j, 0), (j, w)) ∷ l,
          rw (other, lower, step_lem js ws (omega arith), run),
          Merged-b (k ∷ ks) (v ∷ vs) js ws j w l
              (ground arith, Above-trans j k ks (ground arith) s.0) t.0 m,
        )
    | inr higher ↦
        let (l, run, m) =
          collect_lem fuel ks vs (j ∷ js) (w ∷ ws) (omega arith) f s.1 t (omega arith) in
        (
          ((k, v), (k, 0)) ∷ l,
          rw (other, higher, step_lem ks vs (omega arith), run),
          Merged-a ks vs (j ∷ js) (w ∷ ws) k v l s.0
              (ground arith, Above-trans k j js (ground arith) t.0) m,
        )
  ]
]
collect_lem (suc fuel) [] (v ∷ vs) js ws e f s t h = absurd (omega arith)
collect_lem (suc fuel) (k ∷ ks) [] js ws e f s t h = absurd (omega arith)
collect_lem (suc fuel) ks vs [] (w ∷ ws) e f s t h = absurd (omega arith)
collect_lem (suc fuel) ks vs (j ∷ js) [] e f s t h = absurd (omega arith)

-- Iterating over two distributions whose indexes are sorted and have a value each ends, on fuel above
-- the sum of their lengths, and does not panic. The addresses come strictly sorted, the two sides of
-- an item at one address, and an item is there for exactly the addresses of either, with the counts
-- of both, or 0.
pub collect-double_iter :
    (p q : DiscreteParams) (fuel : ℕ)
    → IsWellFormed p
    → IsWellFormed q
    → length p.values + length q.values < fuel
    → (l : List (Item × Item)) × ((do it ← double_iter p q; collect fuel it) ≡ some l)
      × Sorted (places l)
      × Paired l
      × ((k : ℕ) → lookup_both k l ≡ both (counts p k) (counts q k))
unfolding double_iter next_pair iter
collect-double_iter p q fuel w x h =
    let (l, run, m) =
      collect_lem fuel p.indexes.indexes p.values q.indexes.indexes q.values w.lengths x.lengths
        w.sorted x.sorted (omega (arith, w.lengths, x.lengths)) in
    (
      l,
      rw
          (
            step_lem p.indexes.indexes p.values w.lengths,
            step_lem q.indexes.indexes q.values x.lengths,
          )
          run,
      m.sorted,
      m.paired,
      m.seen,
    )
