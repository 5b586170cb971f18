-- ===== src/Monomap/Readers.antt =====
-- goko/src/monomap/{read,write}.rs: the epochs by which the writer waits for its readers, one shared
-- access at a time. All atomics are sequentially consistent. Copies are named by a Boolean.
use goko.Common.{
  leb, ◌==◌, ◌||◌, ℕ, ◌+◌, ◌^◌, ◌<◌, ◌≡◌, ◌⊎◌, Bool, true, false, not, Option, none, some, ite,
  ℕ_discrete,
}

-- `1usize << (mem::size_of::<usize>() * 8 - 1)`
abbrev pub high_bit : ℕ
high_bit = 2 ^ 63

-- Where a reader stands in `with_handle`.
pub data Reader : Type 0 where
  away : Reader
  -- it has stored its epoch, and not loaded the pointer
  arrived : Reader
  -- its closure runs on a copy
  reading : Bool → Reader
  -- the pointer was null
  missed : Reader

-- Where the writer stands.
pub data Writer : Type 0 where
  outside : Writer
  -- `wait` in a refresh: the readers below the index have been seen to have left
  waiting : ℕ → Writer
  -- `wait` has returned, and the writer changes its copy
  catching_up : Writer
  -- the pointer is swapped, and the epochs below the index are stored in `last_epochs`
  noting : ℕ → Writer
  -- the pointer is null, and `drop` waits
  closing : ℕ → Writer
  -- `drop` has freed the copy that the readers had
  closed : Writer

-- The shared state. `pointer` names the copy that the readers load, `own` is the writer's copy, and
-- `refreshed` is false before the end of the first refresh.
pub record Shared : Type 0 where
  pub readers : ℕ
  pub pc : ℕ → Reader
  -- `my_epoch`, `epoch` and `last_epochs`, by reader
  pub my_epoch : ℕ → ℕ
  pub epoch : ℕ → ℕ
  pub last_epochs : ℕ → ℕ
  pub writer : Writer
  pub pointer : Option Bool
  pub own : Bool
  pub refreshed : Bool

-- `at` with the value of reader `reader` replaced.
abbrev pub put {ℓ} : {A : Type ℓ} → (ℕ → A) → ℕ → A → ℕ → A
put at reader value other = ite (ℕ_discrete reader other) value (at other)

-- `(self.1 + 1) | high_bit`, of an epoch below the high bit.
abbrev pub finished : ℕ → ℕ
finished e = e + high_bit

-- The test of `wait`: the reader cannot hold what was behind the pointer before the last swap.
abbrev pub has_left : ℕ → ℕ → Bool
has_left last now = leb high_bit last || not (now == last) || leb high_bit now || now == 0

-- `r_handle.as_ref().map(f)`
abbrev pub enter : Option Bool → Reader
enter none = missed
enter (some c) = reading c

-- What one access of one thread changes. A reader counts its reads below 2^63.
pub data Step (s : Shared) : Shared → Type 0 where
  arrive :
      (i : ℕ)
      → i < s.readers
      → s.pc i ≡ away
      → s.my_epoch i + 1 < high_bit
      → Step s (record s {
        pc = put s.pc i arrived;
        my_epoch = put s.my_epoch i (s.my_epoch i + 1);
        epoch = put s.epoch i (s.my_epoch i + 1);
      })
  load : (i : ℕ) → s.pc i ≡ arrived → Step s (record s { pc = put s.pc i (enter s.pointer) })
  leave :
      (i : ℕ) (c : Bool)
      → s.pc i ≡ reading c
      → Step s (record s { pc = put s.pc i away; epoch = put s.epoch i (finished (s.my_epoch i)) })
  leave_missed :
      (i : ℕ)
      → s.pc i ≡ missed
      → Step s (record s { pc = put s.pc i away; epoch = put s.epoch i (finished (s.my_epoch i)) })
  -- `MonoReadHandle::new`, which takes the lock on the epochs; the next `wait` adds the 0 to
  -- `last_epochs`.
  register :
      s.writer ≡ outside
      → Step s (record s {
        readers = s.readers + 1;
        pc = put s.pc s.readers away;
        my_epoch = put s.my_epoch s.readers 0;
        epoch = put s.epoch s.readers 0;
        last_epochs = put s.last_epochs s.readers 0;
      })
  refresh : s.writer ≡ outside → Step s (record s { writer = waiting 0 })
  pass :
      (j : ℕ)
      → s.writer ≡ waiting j
      → j < s.readers
      → has_left (s.last_epochs j) (s.epoch j) ≡ true
      → Step s (record s { writer = waiting (j + 1) })
  all_left :
      (j : ℕ) → s.writer ≡ waiting j → j ≡ s.readers → Step s (record s { writer = catching_up })
  swap :
      s.writer ≡ catching_up
      → Step s (record s { writer = noting 0; pointer = some s.own; own = not s.own })
  note :
      (j : ℕ)
      → s.writer ≡ noting j
      → j < s.readers
      → Step s (record s { writer = noting (j + 1); last_epochs = put s.last_epochs j (s.epoch j) })
  noted :
      (j : ℕ)
      → s.writer ≡ noting j
      → j ≡ s.readers
      → Step s (record s { writer = outside; refreshed = true })
  close : s.writer ≡ outside → Step s (record s { writer = closing 0; pointer = none })
  close_pass :
      (j : ℕ)
      → s.writer ≡ closing j
      → j < s.readers
      → has_left (s.last_epochs j) (s.epoch j) ≡ true
      → Step s (record s { writer = closing (j + 1) })
  free : (j : ℕ) → s.writer ≡ closing j → j ≡ s.readers → Step s (record s { writer = closed })

-- `construct`: the readers' copy is `true`, and no reader has read. The first two readers are the
-- handle that it returns and the one in the write handle.
abbrev pub init : Shared
init = record {
  readers = 2;
  pc = λ _. away;
  my_epoch = λ _. 0;
  epoch = λ _. 0;
  last_epochs = λ _. 0;
  writer = outside;
  pointer = some true;
  own = false;
  refreshed = false;
}

pub data Reach : Shared → Type 0 where
  start : Reach init
  later : {s t : Shared} → Reach s → Step s t → Reach t

-- The writer may change its copy: `wait` has returned, or no refresh was made yet.
abbrev pub Writes : Shared → Type 0
Writes s = (s.writer ≡ catching_up) ⊎ ((s.writer ≡ outside) × (s.refreshed ≡ false))
