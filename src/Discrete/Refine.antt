-- ===== src/Discrete/Refine.antt =====
-- parameter_store.rs: the store of counts is a map from addresses to counts, with their sum.
use goko.Common.{
  ℕ, ◌+◌, ◌-◌, ◌≡◌, ◌∙◌, refl, sym, ap, Option, none, some, List, [], ◌∷◌, ◌==◌, if◌then◌else◌,
  ◌>>=◌, ◌⊎◌, true, false, arith, Bool-cases, inl, inr, unwrap_or, ==_iff,
}
use goko.Common.Int.{pos, negsuc}
use goko.Address.{NodeAddress, raw}
use goko.Discrete.Params.{
  number, not_a_number, Search, found, missing, binary_search, DiscreteParams, Updated, replace,
  add, subtract, add_pop, replace_pop, remove_pop, get, get_index, new, new_indexes,
}
use goko.Discrete.Pairs.{sum, Located, binary_search-Located}
use goko.Discrete.Runs.{Runs-add, Runs-replace, Runs-subtract}
use goko.Discrete.Updates.{
  accepted, all_accepted, IsWellFormed, Update, adding, replacing, removing, apply, place,
  new_count, Counts, promise, promise_all, counts, Runs,
}

abbrev pub apply_all : List Update → DiscreteParams → Option DiscreteParams
apply_all [] p = some p
apply_all (u ∷ us) p = do (p', pops) ← apply u p; apply_all us p'

-- One update: the old and new counts that it returns, and the map afterwards.
unfoldable pub Step : Update → DiscreteParams → Type 0
Step u p =
    (p' : DiscreteParams) × (pops : ℕ × ℕ) × (apply u p ≡ some (p', pops))
    × IsWellFormed p'
    × ((k : ℕ) → counts p' k ≡ promise u (counts p) k)
    × (pops.0 ≡ unwrap_or (counts p (place u)) 0)
    × (pops.1 ≡ unwrap_or (counts p' (place u)) 0)

step_of :
    (u : Update) (p : DiscreteParams) (total : ℕ) (r : Updated)
    → (k : Runs u p r)
    → apply u p ≡ some (record { indexes = k.ix; values = k.vs; total = total }, (k.old, k.new))
    → total ≡ sum k.vs
    → Step u p
unfolding Step
step_of u p total r k run sums = (
  record { indexes = k.ix; values = k.vs; total = total },
  (k.old, k.new),
  run,
  record {
    sorted = k.puts.sorted;
    unhashed = k.puts.unhashed;
    lengths = k.puts.lengths;
    total = sums;
  },
  λ j. k.puts.seen j ∙ at j,
  k.was,
  k.now
      ∙ sym
          (ap (λ o. unwrap_or o 0) (k.puts.seen (place u) ∙ self (place u) _ (counts p (place u)))),
)
  where
    self : (j : ℕ) (o o' : Option ℕ) → (if j == j then o else o') ≡ o
    self j o o' = ground arith

    at :
        (j : ℕ)
        → (if j == place u then new_count u (counts p (place u)) else counts p j)
          ≡ promise u (counts p) j
    at j = elim (Bool-cases (j == place u)) [
      | inl same ↦ rw same (rw ((==_iff j (place u)).0 same))
      | inr other ↦ rw other
    ]

pub apply-Step : (u : Update) (p : DiscreteParams) → IsWellFormed p → accepted u ≡ true → Step u p
unfolding apply add_pop replace_pop remove_pop
apply-Step (adding loc (number (pos count))) p w ok =
    let r = Runs-add loc count p w in
    step_of (adding loc (number (pos count))) p (p.total + count) (add loc count p.values p.indexes)
      r (rw r.run) (omega (arith, r.puts.sums, w.total, r.now, r.was))
apply-Step (replacing loc (number (pos count))) p w ok =
    let r = Runs-replace loc count p w in
    step_of (replacing loc (number (pos count))) p (p.total + r.new - r.old)
      (replace loc count p.values p.indexes) r (rw r.run) (omega (arith, r.puts.sums, w.total))
apply-Step (removing loc (number (pos count))) p w ok =
    let r = Runs-subtract loc count p w in
    step_of (removing loc (number (pos count))) p (p.total + r.new - r.old)
      (subtract loc count p.values p.indexes) r (rw r.run) (omega (arith, r.puts.sums, w.total))
apply-Step (adding loc (number (negsuc n))) p w ok = cc
apply-Step (replacing loc (number (negsuc n))) p w ok = cc
apply-Step (removing loc (number (negsuc n))) p w ok = cc
apply-Step (adding loc not_a_number) p w ok = cc
apply-Step (replacing loc not_a_number) p w ok = cc
apply-Step (removing loc not_a_number) p w ok = cc

-- The assertion of an update that is not accepted.
refused : (u : Update) (p : DiscreteParams) → accepted u ≡ false → apply u p ≡ none
unfolding apply add_pop replace_pop remove_pop
refused (adding loc (number (pos count))) p bad = cc
refused (replacing loc (number (pos count))) p bad = cc
refused (removing loc (number (pos count))) p bad = cc
refused (adding loc (number (negsuc n))) p bad = refl
refused (replacing loc (number (negsuc n))) p bad = refl
refused (removing loc (number (negsuc n))) p bad = refl
refused (adding loc not_a_number) p bad = refl
refused (replacing loc not_a_number) p bad = refl
refused (removing loc not_a_number) p bad = refl

new-IsWellFormed : IsWellFormed new
unfolding new new_indexes
new-IsWellFormed = record { sorted = tt; unhashed = refl; lengths = refl; total = refl }

pub get_lem :
    (loc : NodeAddress) (p : DiscreteParams)
    → IsWellFormed p
    → get loc p ≡ some (counts p (raw loc))
unfolding get get_index
get_lem loc p w =
    go (binary_search (raw loc) p.indexes.indexes) refl
      (binary_search-Located (raw loc) p.indexes.indexes p.values w.sorted w.lengths)
  where
    go :
        (r : Search)
        → binary_search (raw loc) p.indexes.indexes ≡ r
        → Located (raw loc) p.indexes.indexes p.values r
        → get loc p ≡ some (counts p (raw loc))
    go (found i) e (v, at, seen, changed) = ground (arith, e, w.unhashed, at, seen)
    go (missing i) e (unseen, grown) = ground (arith, e, w.unhashed, unseen)

promise_all_cong :
    (us : List Update) (m m' : Counts)
    → ((k : ℕ) → m k ≡ m' k)
    → (k : ℕ) → promise_all us m k ≡ promise_all us m' k
promise_all_cong [] m m' h k = h k
promise_all_cong (u ∷ us) m m' h k =
    promise_all_cong us (promise u m) (promise u m') (λ j. rw (h j)) k

-- Updates that are all accepted keep the promise, and others panic.
abbrev Kept : List Update → DiscreteParams → Type 0
Kept us p =
    (q : DiscreteParams) × (apply_all us p ≡ some q)
    × IsWellFormed q
    × ((k : ℕ) → counts q k ≡ promise_all us (counts p) k)

apply_all_lem :
    (us : List Update) (p : DiscreteParams) → IsWellFormed p → all_accepted us ≡ true → Kept us p
unfolding Step
apply_all_lem [] p w ok = (p, refl, w, λ k. refl)
apply_all_lem (u ∷ us) p w ok =
    let (p', pops, run, w', seen, was, now) = apply-Step u p w (ground (arith, ok)) in
    let (q, runs, w'', all) = apply_all_lem us p' w' (ground (arith, ok)) in
    (
      q,
      rw (run, runs),
      w'',
      λ k. all k ∙ promise_all_cong us (counts p') (promise u (counts p)) seen k,
    )

apply_all_refused :
    (us : List Update) (p : DiscreteParams)
    → IsWellFormed p
    → all_accepted us ≡ false
    → apply_all us p ≡ none
unfolding Step
apply_all_refused [] p w bad = cc
apply_all_refused (u ∷ us) p w bad = elim (Bool-cases (accepted u)) [
  | inl ok ↦
      let (p', pops, run, w', seen, was, now) = apply-Step u p w ok in
      rw run (apply_all_refused us p' w' (ground (arith, bad, ok)))
  | inr at_once ↦ rw (refused u p at_once) refl
]

-- Updates of an empty distribution panic exactly if the count of one of them is negative or NaN,
-- where the other counts are whole numbers whose sums an `f64` holds exactly. If they do not panic,
-- the indexes are strictly sorted afterwards with a value each, the hash map is not in use, the total
-- is the sum of the values, and `get` reads at every address the count that the updates promise.
pub apply_all-refines :
    (us : List Update)
    → (all_accepted us ≡ false) × (apply_all us new ≡ none)
      ⊎ (all_accepted us ≡ true)
        × (p : DiscreteParams) × (apply_all us new ≡ some p)
        × IsWellFormed p
        × ((loc : NodeAddress) → get loc p ≡ some (promise_all us (λ k. none) (raw loc)))
unfolding new new_indexes
apply_all-refines us = elim (Bool-cases (all_accepted us)) [
  | inl ok ↦
      let (p, run, w, all) = apply_all_lem us new new-IsWellFormed ok in
      inr (ok, p, run, w, λ loc. get_lem loc p w ∙ ap some (all (raw loc)))
  | inr bad ↦ inl (bad, apply_all_refused us new new-IsWellFormed bad)
]
