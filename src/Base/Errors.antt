-- ===== src/Base/Errors.antt =====
-- Python's exceptions: a value, or what was raised.
use Prim.Native.Nat.{ℕ}
use mathlib.Core.Bool.{Bool, true, false}

pub data Result {ℓ} (E A : Type ℓ) : Type ℓ where
  ok : A → Result E A
  err : E → Result E A

infixl 5 ◌>>=◌ ◌>>◌
abbrev pub ◌>>=◌ {ℓ} : {E A B : Type ℓ} → Result E A → (A → Result E B) → Result E B
ok a >>= f = f a
err e >>= f = err e

abbrev pub ◌>>◌ {ℓ} : {E A B : Type ℓ} → Result E A → Result E B → Result E B
m >> n = m >>= λ _. n

-- `if test: raise error`
abbrev pub raise_if : {E : Type 0} → Bool → E → Result E Unit
raise_if true e = err e
raise_if false e = ok tt

-- What was raised, as an error of a caller.
abbrev pub with_error : {E F A : Type 0} → (E → F) → Result E A → Result F A
with_error f (ok a) = ok a
with_error f (err e) = err (f e)

-- `int` of a text: ValueError, a number below zero, or a number.
pub data Parsed : Type 0 where
  no_integer negative : Parsed
  number : ℕ → Parsed
