-- ===== src/Base/Tests.antt =====
-- Boolean tests on the native numbers, the conditional, and case splits that keep their equation.
use Prim.Native.Nat.{ℕ, ◌≤◌, ◌<◌, compare, Ordering}
use mathlib.Core.Path.{◌≡◌, refl}
use mathlib.Core.Logic.{◌↔◌, ◌⊎◌, inl, inr}
use mathlib.Core.Bool.{Bool, true, false, ◌&&◌, ◌||◌}
use mathlib.Core.Option.{Option, none, some}
use native.Mathlib.Omega.{arith}

abbrev pub ltb : ℕ → ℕ → Bool
ltb a b = elim (compare a b) [ Ordering.lt ↦ true | _ ↦ false ]

abbrev pub leb : ℕ → ℕ → Bool
leb a b = elim (compare a b) [ Ordering.gt ↦ false | _ ↦ true ]

abbrev pub nat_beq : ℕ → ℕ → Bool
nat_beq a b = elim (compare a b) [ Ordering.eq ↦ true | _ ↦ false ]

infix 1 if◌then◌else◌
abbrev pub if◌then◌else◌ {ℓ} : {A : Type ℓ} → Bool → A → A → A
if true then x else y = x
if false then x else y = y

pub ltb→lt : (a b : ℕ) → ltb a b ≡ true → a < b
ltb→lt a b h = ground arith

pub leb→le : (a b : ℕ) → leb a b ≡ true → a ≤ b
leb→le a b h = ground arith

pub nat_beq_iff : (a b : ℕ) → (nat_beq a b ≡ true) ↔ (a ≡ b)
nat_beq_iff a b = ground arith

pub Bool-cases : (b : Bool) → (b ≡ true) ⊎ (b ≡ false)
Bool-cases true = inl refl
Bool-cases false = inr refl

pub Option-cases {ℓ} : {A : Type ℓ} (o : Option A) → (o ≡ none) ⊎ ((a : A) × (o ≡ some a))
Option-cases none = inl refl
Option-cases (some a) = inr (a, refl)

pub or-false : (b : Bool) → (b || false) ≡ b
or-false true = refl
or-false false = refl

pub and-false : (b : Bool) → (b && false) ≡ false
and-false true = refl
and-false false = refl

pub and-true : (b : Bool) → (b && true) ≡ b
and-true true = refl
and-true false = refl

pub lex_total :
    (p q x y : ℕ)
    → (ltb p q || (nat_beq p q && leb x y)) ≡ false
    → (ltb q p || (nat_beq q p && leb y x)) ≡ true
lex_total p q x y h = ground arith

pub lex_trans :
    (p q r x y z : ℕ)
    → (ltb p q || (nat_beq p q && leb x y)) ≡ true
    → (ltb q r || (nat_beq q r && leb y z)) ≡ true
    → (ltb p r || (nat_beq p r && leb x z)) ≡ true
lex_trans p q r x y z h k = ground arith

pub ruleset bool_laws = (or-false, and-false, and-true)
