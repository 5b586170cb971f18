-- ===== src/Discrete/Data.antt =====
-- stats_goko/src/discrete/data.rs: the counts of a sample, and merging one into another.
use goko.Common.{
  ℕ, ◌+◌, ◌≡◌, ◌∙◌, refl, sym, ap, Option, none, some, List, [], ◌∷◌, length, ◌==◌, if◌then◌else◌,
  ◌>>=◌, arith, Bool-cases, inl, inr, unwrap_or, ==_iff,
}
use goko.Common.Int.{pos}
use goko.Address.{NodeAddress, from_u64, raw}
use goko.Discrete.Params.{Amount, number, DiscreteParams, add_pop, replace_pop, get, new}
use goko.Discrete.Pairs.{zip, lookup, Sorted, lookup-Above}
use goko.Discrete.Updates.{IsWellFormed, counts, adding, apply, promise}
use goko.Discrete.Refine.{Step, apply-Step, get_lem}

pub record DiscreteData : Type 0 where
  pub params : DiscreteParams

-- `DiscreteParams::from` on a slice of pairs, with the slice in order.
unfoldable pub params_from : List (NodeAddress × Amount) → DiscreteParams → Option DiscreteParams
params_from [] params = some params
params_from ((i, v) ∷ vals) params = do
  (params', pops) ← replace_pop i v params
  params_from vals params'

unfoldable pub data_from : List (NodeAddress × Amount) → Option DiscreteData
data_from vals = do params ← params_from vals new; some (record { params = params })

-- `for (na, c) in other.params.iter() { self.params.add_pop(na, c); }`; `none` is a panic.
unfoldable pub add_all : List ℕ → List ℕ → DiscreteParams → Option DiscreteParams
add_all (i ∷ is) (v ∷ vs) params = do
  (params', pops) ← add_pop (from_u64 i) (number (pos v)) params
  add_all is vs params'
add_all [] [] params = some params
add_all _ _ params = none

unfoldable pub merge : DiscreteData → DiscreteData → Option DiscreteData
merge self other = do
  params ← add_all other.params.indexes.indexes other.params.values self.params
  some (record { params = params })

-- Two counts together: an address is there if it is in either.
abbrev pub added : Option ℕ → Option ℕ → Option ℕ
added none none = none
added o p = some (unwrap_or o 0 + unwrap_or p 0)

added_none : (o : Option ℕ) → o ≡ added o none
added_none none = refl
added_none (some v) = ap some (omega arith)

one : (v : ℕ) (o : Option ℕ) → some (unwrap_or o 0 + v) ≡ added o (some v)
one v none = refl
one v (some u) = refl

add_one :
    (i v : ℕ) (p : DiscreteParams)
    → IsWellFormed p
    → (p' : DiscreteParams) × (pops : ℕ × ℕ) × (add_pop (from_u64 i) (number (pos v)) p
        ≡ some (p', pops))
      × IsWellFormed p'
      × ((k : ℕ) → counts p' k ≡ (if k == i then added (counts p i) (some v) else counts p k))
unfolding Step apply raw from_u64
add_one i v p w =
    let (p', pops, run, w', seen, was, now) =
      apply-Step (adding (from_u64 i) (number (pos v))) p w refl in
    (p', pops, run, w', λ k. seen k ∙ at k)
  where
    at :
        (k : ℕ)
        → promise (adding (from_u64 i) (number (pos v))) (counts p) k
          ≡ (if k == i then added (counts p i) (some v) else counts p k)
    at k = elim (Bool-cases (k == i)) [
      | inl same ↦ rw same (rw ((==_iff k i).0 same) (one v (counts p i)))
      | inr other ↦ rw other
    ]

add_all_lem :
    (is vs : List ℕ) (p : DiscreteParams)
    → length is ≡ length vs
    → Sorted is
    → IsWellFormed p
    → (q : DiscreteParams) × (add_all is vs p ≡ some q)
      × IsWellFormed q
      × ((k : ℕ) → counts q k ≡ added (counts p k) (lookup k (zip is vs)))
unfolding add_all
add_all_lem [] [] p e s w = (p, refl, w, λ k. added_none (counts p k))
add_all_lem [] (v ∷ vs) p e s w = absurd (omega arith)
add_all_lem (i ∷ is) [] p e s w = absurd (omega arith)
add_all_lem (i ∷ is) (v ∷ vs) p e s w =
    let (p', pops, run, w', seen) = add_one i v p w in
    let (q, rest, w'', all) = add_all_lem is vs p' (omega arith) s.1 w' in
    (q, rw (run, rest), w'', λ k. all k ∙ at p' k seen)
  where
    at :
        (p' : DiscreteParams) (k : ℕ)
        → ((j : ℕ) → counts p' j ≡ (if j == i then added (counts p i) (some v) else counts p j))
        → added (counts p' k) (lookup k (zip is vs))
          ≡ added (counts p k) (lookup k (zip (i ∷ is) (v ∷ vs)))
    at p' k seen = rw (seen k) (elim (Bool-cases (k == i)) [
      | inl same ↦ rw same (
          rw ((==_iff k i).0 same, lookup-Above i is vs s.0)
            (sym (added_none (added (counts p i) (some v)))))
      | inr other ↦ rw other
    ])

-- Merging one sample into another does not panic. Afterwards the counts are well formed again, and
-- an address reads as the sum of its counts in the two, if it is in either.
pub merge-adds :
    (self other : DiscreteData)
    → IsWellFormed self.params
    → IsWellFormed other.params
    → (d : DiscreteData) × (merge self other ≡ some d)
      × IsWellFormed d.params
      × ((loc : NodeAddress)
          → get loc d.params
            ≡ some (added (counts self.params (raw loc)) (counts other.params (raw loc))))
unfolding merge
merge-adds self other w x =
    let (q, run, w', all) =
      add_all_lem other.params.indexes.indexes other.params.values self.params x.lengths x.sorted
        w in
    (record { params = q }, rw run, w', λ loc. get_lem loc q w' ∙ ap some (all (raw loc)))
