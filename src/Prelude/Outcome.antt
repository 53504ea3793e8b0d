-- ===== src/Prelude/Outcome.antt =====
-- Go's (value, error) pairs: a call returns a value or an error, never both.
use Prim.Native.Nat.{ℕ}
use mathlib.Core.Option.{Option}

pub data Result {ℓ} (E : Type 0) (A : Type ℓ) : Type ℓ where
  ok : A → Result E A
  err : E → Result E A

infixl 5 ◌>>=◌ ◌>>◌
abbrev pub ◌>>=◌ {ℓ κ} :
    {E : Type 0} {A : Type ℓ} {B : Type κ} → Result E A → (A → Result E B) → Result E B
ok a >>= f = f a
err e >>= f = err e

abbrev pub ◌>>◌ {ℓ} : {E : Type 0} {B : Type ℓ} → Result E (Unit {0}) → Result E B → Result E B
m >> k = m >>= λ _. k

-- A value of Go's type `error`: `none` is nil, and an error is told by a number.
abbrev pub GoError : Type 0
GoError = Option ℕ
