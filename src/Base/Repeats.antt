-- ===== src/Base/Repeats.antt =====
-- Python's `len(set(xs))`: the size of a set tells whether a list repeats itself.
use Prim.Native.Nat.{suc, ◌+◌, ◌≤◌}
use mathlib.Core.Path.{◌≡◌, refl, ap}
use mathlib.Core.Logic.{◌↔◌, inl, inr}
use mathlib.Core.Bool.{true, false}
use mathlib.Core.List.{List, [], ◌∷◌}
use native.Mathlib.Omega.{arith}
use finshield_ai.Base.Tests.{Bool-cases}
use finshield_ai.Base.Lists.{length}
use finshield_ai.Base.Sets.{Eq, mem, add, update, Distinct, mem-add, beq_sym}

module _ {ℓ} {A : Type ℓ} ⦃e : Eq A⦄ where
  -- No element of the first list is in the second.
  abbrev pub Disjoint : List A → List A → Type 0
  Disjoint [] s = Unit
  Disjoint (x ∷ xs) s = (mem x s ≡ false) × Disjoint xs s

  pub length-update-le : (xs s : List A) → length (update xs s) ≤ length xs + length s
  unfolding update add
  length-update-le [] s = omega arith
  length-update-le (x ∷ xs) s = ground (arith, length-update-le xs (add x s))

  Disjoint-add : (x : A) (xs s : List A) → Disjoint xs s → mem x xs ≡ false → Disjoint xs (add x s)
  Disjoint-add x [] s d h = tt
  Disjoint-add x (y ∷ xs) s d h =
      ground (arith, Disjoint-add x xs s d.1, mem-add y x s, beq_sym x y)

  Disjoint-add_back :
      (x : A) (xs s : List A) → Disjoint xs (add x s) → Disjoint xs s × (mem x xs ≡ false)
  Disjoint-add_back x [] s d = (tt, refl)
  Disjoint-add_back x (y ∷ xs) s d =
      ground (arith, Disjoint-add_back x xs s d.1, mem-add y x s, beq_sym x y)

  length-add_new : (x : A) (s : List A) → mem x s ≡ false → length (add x s) ≡ suc (length s)
  unfolding add
  length-add_new x s h = rw h refl

  add-old : (x : A) (s : List A) → mem x s ≡ true → add x s ≡ s
  unfolding add
  add-old x s h = rw h refl

  length-update :
      (xs s : List A) → Distinct xs → Disjoint xs s → length (update xs s) ≡ length xs + length s
  unfolding update
  length-update [] s h d = omega arith
  length-update (x ∷ xs) s h d =
      omega (
        arith,
        length-update xs (add x s) h.1 (Disjoint-add x xs s d.1 h.0),
        length-add_new x s d.0,
      )

  length-update_back :
      (xs s : List A) → length (update xs s) ≡ length xs + length s → Distinct xs × Disjoint xs s
  unfolding update
  length-update_back [] s h = (tt, tt)
  length-update_back (x ∷ xs) s h = elim (Bool-cases (mem x s)) [
    | inl old ↦
        absurd (
          omega (arith, length-update-le xs s, h, ap (λ t. length (update xs t)) (add-old x s old)))
    | inr new ↦
        let (distinct, apart) =
          length-update_back xs (add x s) (omega (arith, h, length-add_new x s new)) in
        let (apart', fresh) = Disjoint-add_back x xs s apart in ((fresh, distinct), (new, apart'))
  ]

  Disjoint-nil : (xs : List A) → Disjoint xs []
  Disjoint-nil [] = tt
  Disjoint-nil (x ∷ xs) = (refl, Disjoint-nil xs)

  -- `len(xs) == len(set(xs))` says that no element stands twice.
  pub length-update_iff : (xs : List A) → (length xs ≡ length (update xs [])) ↔ Distinct xs
  length-update_iff xs = (
    λ h. (length-update_back xs [] (omega (arith, h))).0,
    λ h. omega (arith, length-update xs [] h (Disjoint-nil xs)),
  )
