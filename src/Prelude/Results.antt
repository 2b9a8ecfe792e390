-- ===== src/Prelude/Results.antt =====
-- A value or an error, for `do` blocks that stop at the first error.

use mathlib.Core.Option.{Option, none, some}

pub data Result (E A : Type 0) : Type 0 where
  ok : A → Result E A
  err : E → Result E A

infixl 5 ◌>>=◌
abbrev pub ◌>>=◌ : {E A B : Type 0} → Result E A → (A → Result E B) → Result E B
ok a >>= f = f a
err e >>= f = err e

-- The value, or this error where there is none.
abbrev pub or_error : {E A : Type 0} → E → Option A → Result E A
or_error e none = err e
or_error e (some a) = ok a
