-- ===== src/Base/Texts.antt =====
-- Texts: Python's `in`, f-strings and `join`.
use Prim.Native.Nat.{ℕ, zero, suc, ◌+◌, ◌/◌, ◌%◌, compare, Ordering}
use Prim.Native.String.{String, ◌++◌, slice}
use mathlib.Core.Bool.{Bool, true, false}
use mathlib.Core.Option.{none, some}
use mathlib.Core.List.{List, [], ◌∷◌}
use text.Mathlib.Text.{find?}

-- `t in s`
abbrev pub text_contains : String → String → Bool
text_contains s t = elim (find? s t) [ none ↦ false | some _ ↦ true ]

-- The parts of an f-string, one after the other.
unfoldable pub concat : List String → String
concat [] = ""
concat (s ∷ parts) = s ++ concat parts

-- `separator.join(parts)`
unfoldable pub join : String → List String → String
join separator [] = ""
join separator (s ∷ []) = s
join separator (s ∷ t ∷ parts) = s ++ (separator ++ join separator (t ∷ parts))

-- `str(n)` for a number below 10
unfoldable digit : ℕ → String
digit n = slice "0123456789" n (n + 1)

-- `str(n)`, for as many digits as the fuel allows.
unfoldable show_digits : ℕ → ℕ → String
unfolding digit
show_digits zero n = ""
show_digits (suc fuel) n =
    let tens = show_digits fuel (n / 10) in
    (elim (compare n 10) [ Ordering.lt ↦ "" | _ ↦ tens ]) ++ digit (n % 10)

-- `str(n)`; n + 1 digits are enough.
unfoldable pub show_nat : ℕ → String
unfolding show_digits
show_nat n = show_digits (suc n) n
