-- ===== src/Monomap/Safety.antt =====
-- goko/src/monomap: no reader runs on the copy that the writer changes.
use goko.Common.{ℕ, ◌≤◌, ◌<◌, ◌≡◌, ◌≢◌, ◌⊎◌, inl, refl, Bool, true, false, not, none, some, arith}
use goko.Monomap.Readers.{
  high_bit, Reader, away, arrived, reading, missed, Writer, outside, waiting, catching_up, noting,
  closing, closed, Shared, has_left, Step, Reach, Writes,
}

-- A read in progress has its count for its epoch.
abbrev Started : Shared → ℕ → Type 0
Started s i =
    (i < s.readers) × (s.epoch i ≡ s.my_epoch i) × (0 < s.epoch i) × (s.epoch i < high_bit)

-- What holds of a reader on the writer's copy.
abbrev Behind : Shared → ℕ → Writer → Type 0
Behind s i outside = (s.last_epochs i ≡ s.epoch i) × (s.refreshed ≡ true)
Behind s i (waiting j) = (j ≤ i) × (s.last_epochs i ≡ s.epoch i)
Behind s i catching_up = ⊥
Behind s i (noting j) = i < j → s.last_epochs i ≡ s.epoch i
Behind s i (closing j) = Unit
Behind s i closed = Unit

abbrev Good : Shared → ℕ → Reader → Type 0
Good s i away = (s.epoch i ≡ 0) ⊎ (high_bit ≤ s.epoch i)
Good s i missed = Unit
Good s i arrived = Started s i
Good s i (reading c) = Started s i × (c ≡ s.own → Behind s i s.writer)

abbrev Pointing : Shared → Writer → Type 0
Pointing s (closing j) = s.pointer ≡ none
Pointing s closed = s.pointer ≡ none
Pointing s w = s.pointer ≡ some (not s.own)

record Inv (s : Shared) : Type 0 where
  pointing : Pointing s s.writer
  good : (i : ℕ) → Good s i (s.pc i)

-- Every access of every thread keeps the invariant.
Step-Inv : {s t : Shared} → Step s t → Inv s → Inv t
Step-Inv (Step.arrive i h e b) v = record {
  pointing = v.pointing;
  good = λ j. ground (arith, v.good j);
}
Step-Inv (Step.load i e) v = record { pointing = v.pointing; good = λ j. ground (arith, v.good j) }
Step-Inv (Step.leave i c e) v = record {
  pointing = v.pointing;
  good = λ j. ground (arith, v.good j);
}
Step-Inv (Step.leave_missed i e) v = record {
  pointing = v.pointing;
  good = λ j. ground (arith, v.good j);
}
Step-Inv {s} (Step.register e) v = record {
  pointing = v.pointing;
  good = λ j. ground (arith, v.good j);
}
Step-Inv (Step.refresh e) v = record {
  pointing = ground arith;
  good = λ j. ground (arith, v.good j);
}
Step-Inv (Step.pass k e h l) v = record {
  pointing = ground arith;
  good = λ j. ground (arith, v.good j);
}
Step-Inv (Step.all_left k e h) v = record {
  pointing = ground arith;
  good = λ j. ground (arith, v.good j);
}
Step-Inv (Step.swap e) v = record { pointing = ground arith; good = λ j. ground (arith, v.good j) }
Step-Inv (Step.note k e h) v = record {
  pointing = ground arith;
  good = λ j. ground (arith, v.good j);
}
Step-Inv (Step.noted k e h) v = record {
  pointing = ground arith;
  good = λ j. ground (arith, v.good j);
}
Step-Inv (Step.close e) v = record { pointing = refl; good = λ j. ground (arith, v.good j) }
Step-Inv (Step.close_pass k e h l) v = record {
  pointing = ground arith;
  good = λ j. ground (arith, v.good j);
}
Step-Inv (Step.free k e h) v = record {
  pointing = ground arith;
  good = λ j. ground (arith, v.good j);
}

Reach-Inv : {s : Shared} → Reach s → Inv s
Reach-Inv Reach.start = record { pointing = refl; good = λ i. inl refl }
Reach-Inv (Reach.later r st) = Step-Inv st (Reach-Inv r)

-- In every interleaving of the writer with any number of readers, a reader whose closure runs never
-- runs on the copy that the writer may change: the one that `refresh` catches up, or, before the
-- first refresh, the one that takes the writes. The drain of the copy in `drop` is not meant.
pub no_torn_reads :
    {s : Shared} → Reach s → Writes s → (i : ℕ) (c : Bool) → s.pc i ≡ reading c → c ≢ s.own
no_torn_reads r w i c e own = ground (arith, (Reach-Inv r).good i, (Reach-Inv r).pointing)

-- `wait` is held up only by a reader that is inside `with_handle`: it never waits for one that is
-- away, whatever that one has read before.
pub blocked_by_reader :
    {s : Shared}
    → Reach s
    → (i : ℕ) → has_left (s.last_epochs i) (s.epoch i) ≡ false
    → s.pc i ≢ away
blocked_by_reader r i h e = ground (arith, (Reach-Inv r).good i)
