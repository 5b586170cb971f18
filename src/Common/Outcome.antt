-- ===== src/Common/Outcome.antt =====
-- The result of code that may return an error or panic.
use goko.Common.{Option, none, some}

pub data Outcome {ℓ} (E A : Type ℓ) : Type ℓ where
  ok : A → Outcome E A
  err : E → Outcome E A
  panic : Outcome E A

infixl 5 ◌>>=◌
abbrev pub ◌>>=◌ {ℓ} : {E A B : Type ℓ} → Outcome E A → (A → Outcome E B) → Outcome E B
ok a >>= f = f a
err e >>= f = err e
panic >>= f = panic

-- `none` is a panic of an assertion.
abbrev pub asserted {ℓ} : {E A : Type ℓ} → Option A → Outcome E A
asserted none = panic
asserted (some a) = ok a
