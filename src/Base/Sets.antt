-- ===== src/Base/Sets.antt =====
-- Python's sets: lists without repetition over a type with decidable equality.
use mathlib.Core.Path.{◌≡◌, refl}
use mathlib.Core.Logic.{◌↔◌, inl, inr}
use mathlib.Core.Bool.{Bool, true, false, not, ◌&&◌, ◌||◌}
use mathlib.Core.List.{List, [], ◌∷◌}
use native.Mathlib.Omega.{arith}
use finshield_ai.Base.Tests.{if◌then◌else◌, Bool-cases}
use finshield_ai.Base.Lists.{any, all}

-- A type whose equality can be tested.
pub record Eq {ℓ} (T : Type ℓ) : Type ℓ where
  pub beq : T → T → Bool
  pub beq_iff : (x y : T) → (beq x y ≡ true) ↔ (x ≡ y)

abbrev pub test {ℓ} : {A : Type ℓ} → Dec A → Bool
test (yes _) = true
test (no _) = false

pub test_iff {ℓ} : {A : Type ℓ} (d : Dec A) → (test d ≡ true) ↔ A
test_iff (yes a) = (λ _. a, λ _. refl)
test_iff (no f) = (λ h. cc, λ a. absurd (f a))

-- Equality of an enumeration.
abbrev pub eq_of_discrete {ℓ} : {A : Type ℓ} → Discrete A → Eq A
eq_of_discrete d = record { beq = λ a b. test (d a b); beq_iff = λ a b. test_iff (d a b) }

infix 50 ◌==◌
abbrev pub ◌==◌ {ℓ} : {T : Type ℓ} ⦃eq : Eq T⦄ → T → T → Bool
◌==◌ ⦃eq⦄ = eq.beq

module _ {ℓ} {A : Type ℓ} ⦃e : Eq A⦄ where
  -- `a in s`
  abbrev pub mem : A → List A → Bool
  mem a [] = false
  mem a (x ∷ xs) = a == x || mem a xs

  -- `s.add(a)`
  unfoldable pub add : A → List A → List A
  add a s = if mem a s then s else a ∷ s

  -- `s.update(xs)`
  unfoldable pub update : List A → List A → List A
  update [] s = s
  update (x ∷ xs) s = update xs (add x s)

  -- `s.discard(a)`
  unfoldable pub discard : A → List A → List A
  discard a [] = []
  discard a (x ∷ xs) = if a == x then discard a xs else x ∷ discard a xs

  -- No element stands twice.
  abbrev pub Distinct : List A → Type 0
  Distinct [] = Unit
  Distinct (x ∷ xs) = (mem x xs ≡ false) × Distinct xs

module _ {ℓ} {A : Type ℓ} ⦃e : Eq A⦄ where
  pub beq_refl : (a : A) → (a == a) ≡ true
  beq_refl a = (e.beq_iff a a).1 refl

  pub mem-add : (a x : A) (s : List A) → mem a (add x s) ≡ (a == x || mem a s)
  unfolding add
  mem-add a x s = ground (arith, e.beq_iff a x)

  pub mem-update : (a : A) (xs s : List A) → mem a (update xs s) ≡ (mem a xs || mem a s)
  unfolding update
  mem-update a [] s = refl
  mem-update a (x ∷ xs) s = ground (arith, mem-update a xs (add x s), mem-add a x s)

  pub mem-discard : (a x : A) (s : List A) → mem a (discard x s) ≡ (not (a == x) && mem a s)
  unfolding discard
  mem-discard a x [] = ground arith
  mem-discard a x (y ∷ s) =
      ground (arith, mem-discard a x s, e.beq_iff a x, e.beq_iff x y, e.beq_iff a y)

  pub add-Distinct : (x : A) (s : List A) → Distinct s → Distinct (add x s)
  unfolding add
  add-Distinct x s h = ground arith

  pub update-Distinct : (xs s : List A) → Distinct s → Distinct (update xs s)
  unfolding update
  update-Distinct [] s h = h
  update-Distinct (x ∷ xs) s h = update-Distinct xs (add x s) (add-Distinct x s h)

  pub discard-Distinct : (x : A) (s : List A) → Distinct s → Distinct (discard x s)
  unfolding discard
  discard-Distinct x [] h = tt
  discard-Distinct x (y ∷ s) h = ground (arith, discard-Distinct x s h.1, mem-discard y x s)

  pub any-mem : (p : A → Bool) (x : A) (s : List A) → mem x s ≡ true → p x ≡ true → any p s ≡ true
  any-mem p x (y ∷ s) h q = elim (Bool-cases (x == y)) [
    | inl same ↦ rw (← (e.beq_iff x y).0 same, q)
    | inr apart ↦ ground (arith, any-mem p x s)
  ]
  any-mem p x [] h q = cc

  pub any-update : (p : A → Bool) (xs s : List A) → any p (update xs s) ≡ (any p xs || any p s)
  unfolding update add
  any-update p [] s = refl
  any-update p (x ∷ xs) s = ground (arith, any-update p xs (add x s), any-mem p x s)

  -- Every element of `xs` is one of `ys`.
  abbrev pub Subset : List A → List A → Type 0
  Subset [] ys = Unit
  Subset (x ∷ xs) ys = (mem x ys ≡ true) × Subset xs ys

  pub any-Subset :
      (p : A → Bool) (xs ys : List A) → Subset xs ys → any p xs ≡ true → any p ys ≡ true
  any-Subset p [] ys h q = cc
  any-Subset p (x ∷ xs) ys h q = ground (arith, any-mem p x ys h.0, any-Subset p xs ys h.1)

  pub mem-Subset : (a : A) (xs ys : List A) → Subset xs ys → mem a xs ≡ true → mem a ys ≡ true
  mem-Subset a [] ys h q = cc
  mem-Subset a (x ∷ xs) ys h q = elim (Bool-cases (a == x)) [
    | inl same ↦ rw ((e.beq_iff a x).0 same) h.0
    | inr apart ↦ mem-Subset a xs ys h.1 (ground arith)
  ]

  -- One of `ws`, all of which satisfy `p`, is in the set: then so does one of the set.
  pub any-mem-all :
      (p : A → Bool) (ws s : List A)
      → any (λ w. mem w s) ws ≡ true
      → all p ws ≡ true
      → any p s ≡ true
  any-mem-all p [] s h q = cc
  any-mem-all p (w ∷ ws) s h q = ground (arith, any-mem p w s, any-mem-all p ws s)

  pub beq_sym : (a b : A) → (a == b) ≡ (b == a)
  beq_sym a b = ground (arith, e.beq_iff a b, e.beq_iff b a)
