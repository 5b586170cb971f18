-- ===== src/Discrete/Runs.antt =====
-- parameter_store.rs: running the three updates, whether the address is found or not.
use mathlib.Core.Path.{subst}
use goko.Common.{
  ℕ, ◌+◌, ◌-◌, ◌≡◌, refl, sym, ap, none, some, ◌==◌, arith, Bool-cases, inl, inr, ==_iff,
}
use goko.Common.Int.{pos}
use goko.Address.{NodeAddress, raw}
use goko.Discrete.Params.{
  Search, found, missing, binary_search, DiscreteParams, update_at, insert_count, replace, add,
  subtract, lessened, number,
}
use goko.Discrete.Pairs.{Located, binary_search-Located}
use goko.Discrete.Updates.{
  IsWellFormed, Update, adding, replacing, removing, place, new_count, Runs, update-Puts,
  insert-Puts,
}

-- Finding the address, and not finding it, in each of the three.
module _ (loc : NodeAddress) (count i : ℕ) (p : DiscreteParams) (w : IsWellFormed p) where
  add_found :
      Located (raw loc) p.indexes.indexes p.values (found i)
      → Runs
          (adding loc (number (pos count)))
          p
          (update_at (λ old. old + count) i p.values p.indexes)
  add_found l =
      let (vs, v, seen, run, q) = update-Puts (λ old. old + count) (raw loc) i p w l in
      record {
        ix = p.indexes;
        vs = vs;
        old = v;
        new = v + count;
        run = run;
        puts = rw seen q;
        was = rw seen;
        now = rw seen;
      }

  replace_found :
      Located (raw loc) p.indexes.indexes p.values (found i)
      → Runs (replacing loc (number (pos count))) p (update_at (λ old. count) i p.values p.indexes)
  replace_found l =
      let (vs, v, seen, run, q) = update-Puts (λ old. count) (raw loc) i p w l in
      record {
        ix = p.indexes;
        vs = vs;
        old = v;
        new = count;
        run = run;
        puts = q;
        was = rw seen;
        now = refl;
      }

  subtract_found :
      Located (raw loc) p.indexes.indexes p.values (found i)
      → Runs (removing loc (number (pos count))) p (update_at (lessened count) i p.values p.indexes)
  subtract_found l =
      let (vs, v, seen, run, q) = update-Puts (lessened count) (raw loc) i p w l in
      let less : lessened count v ≡ v - count = ground arith in
      record {
        ix = p.indexes;
        vs = vs;
        old = v;
        new = v - count;
        run = rw⁻¹ less run;
        puts = rw seen (rw⁻¹ less q);
        was = rw seen;
        now = rw seen;
      }

  insert_missing :
      (u : Update)
      → place u ≡ raw loc
      → new_count u none ≡ some count
      → Located (raw loc) p.indexes.indexes p.values (missing i)
      → Runs u p (insert_count loc count i p.values p.indexes)
  insert_missing u e f l =
      let (ix, vs, unseen, run, q) = insert-Puts loc count i p w l in
      record {
        ix = ix;
        vs = vs;
        old = 0;
        new = count;
        run = run;
        puts = rw (e, unseen, f) q;
        was = rw (e, unseen);
        now = rw (e, unseen, f);
      }

  subtract_missing :
      Located (raw loc) p.indexes.indexes p.values (missing i)
      → Runs (removing loc (number (pos count))) p (some (p.indexes, p.values, (0, 0)))
  subtract_missing (unseen, grown) = record {
    ix = p.indexes;
    vs = p.values;
    old = 0;
    new = 0;
    run = refl;
    puts = rw unseen (record {
      sorted = w.sorted;
      unhashed = w.unhashed;
      lengths = w.lengths;
      sums = refl;
      seen = λ k. elim (Bool-cases (k == raw loc)) [
        | inl same ↦ rw same (rw ((==_iff k (raw loc)).0 same) unseen)
        | inr other ↦ rw other
      ];
    });
    was = rw unseen;
    now = rw unseen;
  }

module _ (loc : NodeAddress) (count : ℕ) (p : DiscreteParams) (w : IsWellFormed p) where
  pub Runs-add : Runs (adding loc (number (pos count))) p (add loc count p.values p.indexes)
  unfolding add
  Runs-add =
      go (binary_search (raw loc) p.indexes.indexes) refl
        (binary_search-Located (raw loc) p.indexes.indexes p.values w.sorted w.lengths)
    where
      go :
          (r : Search)
          → binary_search (raw loc) p.indexes.indexes ≡ r
          → Located (raw loc) p.indexes.indexes p.values r
          → Runs (adding loc (number (pos count))) p (add loc count p.values p.indexes)
      go (found i) e l =
          subst (Runs (adding loc (number (pos count))) p) (sym (ground (arith, e, w.unhashed)))
            (add_found loc count i p w l)
      go (missing i) e l =
          subst (Runs (adding loc (number (pos count))) p) (sym (ground (arith, e, w.unhashed))) (
            insert_missing loc count i p w (adding loc (number (pos count))) refl
              (ap some (omega arith)) l)

  pub Runs-replace :
      Runs (replacing loc (number (pos count))) p (replace loc count p.values p.indexes)
  unfolding replace
  Runs-replace =
      go (binary_search (raw loc) p.indexes.indexes) refl
        (binary_search-Located (raw loc) p.indexes.indexes p.values w.sorted w.lengths)
    where
      go :
          (r : Search)
          → binary_search (raw loc) p.indexes.indexes ≡ r
          → Located (raw loc) p.indexes.indexes p.values r
          → Runs (replacing loc (number (pos count))) p (replace loc count p.values p.indexes)
      go (found i) e l =
          subst (Runs (replacing loc (number (pos count))) p) (sym (ground (arith, e, w.unhashed)))
            (replace_found loc count i p w l)
      go (missing i) e l =
          subst (Runs (replacing loc (number (pos count))) p) (sym (ground (arith, e, w.unhashed)))
            (insert_missing loc count i p w (replacing loc (number (pos count))) refl refl l)

  pub Runs-subtract :
      Runs (removing loc (number (pos count))) p (subtract loc count p.values p.indexes)
  unfolding subtract
  Runs-subtract =
      go (binary_search (raw loc) p.indexes.indexes) refl
        (binary_search-Located (raw loc) p.indexes.indexes p.values w.sorted w.lengths)
    where
      go :
          (r : Search)
          → binary_search (raw loc) p.indexes.indexes ≡ r
          → Located (raw loc) p.indexes.indexes p.values r
          → Runs (removing loc (number (pos count))) p (subtract loc count p.values p.indexes)
      go (found i) e l =
          subst (Runs (removing loc (number (pos count))) p) (sym (ground (arith, e, w.unhashed)))
            (subtract_found loc count i p w l)
      go (missing i) e l =
          subst (Runs (removing loc (number (pos count))) p) (sym (ground (arith, e, w.unhashed)))
            (subtract_missing loc count i p w l)
