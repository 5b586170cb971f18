-- ===== src/Monomap/Tests.antt =====
-- goko/src/monomap: the theorems at small runs of the handles.
use goko.Common.{
  ℕ, ◌+◌, ◌≡◌, ◌≢◌, refl, true, false, none, some, List, [], ◌∷◌, ◌++◌, ℕ_discrete, inr, arith,
}
use goko.Monomap.Table
use goko.Monomap.Defs.{
  MonoOperation, MonoWriteHandle, construct, get_and, get_meta, len, apply, apply_all, drop_handle,
  is_destroyed,
}
use goko.Monomap.Spec.{Call, write, meta, refreshing, flushing, start, promise_all, call_all}
use goko.Monomap.Reads.{
  Shows, run-Shows, writes, refresh-shows_writes, writes_unseen, flush_before_refresh,
}
use goko.Monomap.Destroy.{drop_handle-destroys}
use goko.Monomap.Readers.{
  Shared, away, arrived, reading, init, Step, Reach, start as begin, later, arrive, load, has_left,
  put,
}
use goko.Monomap.Safety.{no_torn_reads, blocked_by_reader}

abbrev calls : List (Call ℕ ℕ ℕ)
calls =
    write (MonoOperation.insert 1 10)
    ∷ meta 7
    ∷ refreshing
    ∷ write (MonoOperation.update 1 (λ v. v + 1))
    ∷ []

abbrev more : List (Call ℕ ℕ ℕ)
more = write (MonoOperation.insert 2 20) ∷ meta 8 ∷ []

run-Shows_example :
    (m : MonoWriteHandle ℕ ℕ ℕ) × (call_all ℕ_discrete calls (construct 0) ≡ some m)
    × Shows ℕ_discrete m (promise_all ℕ_discrete calls (start 0))
run-Shows_example = run-Shows ℕ_discrete 0 calls

refresh-shows_writes_example :
    (m : MonoWriteHandle ℕ ℕ ℕ) × (call_all ℕ_discrete (calls ++ refreshing ∷ []) (construct 0)
      ≡ some m)
    × (get_and ℕ_discrete 1 m ≡ Table.get ℕ_discrete 1 (apply_all ℕ_discrete (writes calls) []))
refresh-shows_writes_example = refresh-shows_writes ℕ_discrete 0 calls 1

-- What is read in that run.
eleven : Table.get ℕ_discrete 1 (apply_all ℕ_discrete (writes calls) []) ≡ some 11
unfolding writes apply_all Table.get Table.insert Table.update ℕ_discrete apply
eleven = refl

writes_unseen_example :
    (m m' : MonoWriteHandle ℕ ℕ ℕ) × (call_all ℕ_discrete calls (construct 0) ≡ some m)
    × (call_all ℕ_discrete more m ≡ some m')
    × (get_and ℕ_discrete 2 m' ≡ get_and ℕ_discrete 2 m)
    × (get_meta m' ≡ get_meta m)
    × (len m' ≡ len m)
writes_unseen_example = writes_unseen ℕ_discrete 0 calls more 2 tt

flush_before_refresh_example :
    (m : MonoWriteHandle ℕ ℕ ℕ) × (call_all ℕ_discrete (more ++ flushing ∷ []) (construct 0)
      ≡ some m)
    × (get_and ℕ_discrete 2 m ≡ none)
    × (len m ≡ 0)
flush_before_refresh_example = flush_before_refresh ℕ_discrete 0 more 2 tt

drop_handle-destroys_example :
    (m m' : MonoWriteHandle ℕ ℕ ℕ) × (call_all ℕ_discrete calls (construct 0) ≡ some m)
    × (drop_handle ℕ_discrete m ≡ some m')
    × (is_destroyed m' ≡ true)
    × (get_and ℕ_discrete 1 m' ≡ none)
    × (get_meta m' ≡ none)
    × (len m' ≡ 0)
drop_handle-destroys_example = drop_handle-destroys ℕ_discrete 0 calls 1

-- Reader 0 runs on the published copy, and reader 1 is away.
abbrev arrived_once : Shared
arrived_once = record init {
  pc = put init.pc 0 arrived;
  my_epoch = put init.my_epoch 0 1;
  epoch = put init.epoch 0 1;
}

abbrev reading_once : Shared
reading_once = record arrived_once { pc = put arrived_once.pc 0 (reading true) }

reading_once-Reach : Reach reading_once
unfolding ℕ_discrete
reading_once-Reach = later (later begin (arrive 0 (omega arith) refl (omega arith))) (load 0 refl)

no_torn_reads_example : true ≢ false
unfolding ℕ_discrete
no_torn_reads_example = no_torn_reads reading_once-Reach (inr (refl, refl)) 0 true refl

noted_reader :
    (s : Shared) × Reach s
    × (has_left (s.last_epochs 0) (s.epoch 0) ≡ false)
    × (s.pc 0 ≡ reading true)
unfolding ℕ_discrete
noted_reader = (
  _,
  later
      (later
        (later
          (later
            (later
              (later
                (later (later reading_once-Reach (Step.refresh refl))
                  (Step.pass 0 refl (omega arith) refl))
                (Step.pass 1 refl (omega arith) refl))
              (Step.all_left 2 refl refl))
            (Step.swap refl))
          (Step.note 0 refl (omega arith)))
        (Step.note 1 refl (omega arith)))
      (Step.noted 2 refl refl),
  refl,
  refl,
)

blocked_by_reader_example : noted_reader.0.pc 0 ≢ away
blocked_by_reader_example = blocked_by_reader noted_reader.1 0 noted_reader.2
