-- ===== src/Base/Sort.antt =====
-- Python's `sorted`, as insertion sort by a comparison of keys.
use Prim.Native.Nat.{suc}
use mathlib.Core.Path.{◌≡◌, refl, ap, ◌∙◌}
use mathlib.Core.Bool.{Bool, true, false, ◌||◌}
use mathlib.Core.List.{List, [], ◌∷◌, map}
use native.Mathlib.Omega.{arith}
use mathlib.Core.Logic.{inl, inr}
use finshield_ai.Base.Tests.{if◌then◌else◌, Bool-cases}
use finshield_ai.Base.Lists.{is_empty, length}
use finshield_ai.Base.Sets.{Eq, ◌==◌, mem, Distinct}

module _ {ℓ} {A : Type ℓ} (before : A → A → Bool) where
  insert_sorted : A → List A → List A
  insert_sorted a [] = a ∷ []
  insert_sorted a (x ∷ xs) = if before a x then a ∷ x ∷ xs else x ∷ insert_sorted a xs

  unfoldable pub sorted : List A → List A
  unfolding insert_sorted
  sorted [] = []
  sorted (x ∷ xs) = insert_sorted x (sorted xs)

  -- Every element comes before all that follow it.
  abbrev pub BeforeAll : A → List A → Type 0
  BeforeAll a [] = Unit
  BeforeAll a (x ∷ xs) = (before a x ≡ true) × BeforeAll a xs

  abbrev pub IsSorted : List A → Type 0
  IsSorted [] = Unit
  IsSorted (x ∷ xs) = BeforeAll x xs × IsSorted xs

module _ {ℓ} {A : Type ℓ} (before : A → A → Bool) where
  length-insert_sorted :
      (a : A) (xs : List A) → length (insert_sorted before a xs) ≡ suc (length xs)
  unfolding insert_sorted
  length-insert_sorted a [] = refl
  length-insert_sorted a (x ∷ xs) = ground (arith, length-insert_sorted a xs)

  pub length-sorted : (xs : List A) → length (sorted before xs) ≡ length xs
  unfolding sorted
  length-sorted [] = refl
  length-sorted (x ∷ xs) =
      ground (arith, length-insert_sorted x (sorted before xs), length-sorted xs)

module _ {ℓ} {A : Type ℓ} (before : A → A → Bool)
    (total : (a b : A) → before a b ≡ false → before b a ≡ true)
    (trans : (a b c : A) → before a b ≡ true → before b c ≡ true → before a c ≡ true) where
  BeforeAll-trans :
      (a b : A) (xs : List A) → before a b ≡ true → BeforeAll before b xs → BeforeAll before a xs
  BeforeAll-trans a b [] h hs = tt
  BeforeAll-trans a b (x ∷ xs) h hs = (trans a b x h hs.0, BeforeAll-trans a b xs h hs.1)

  insert_sorted-BeforeAll :
      (b a : A) (xs : List A)
      → before b a ≡ true
      → BeforeAll before b xs
      → BeforeAll before b (insert_sorted before a xs)
  unfolding insert_sorted
  insert_sorted-BeforeAll b a [] h hs = (h, tt)
  insert_sorted-BeforeAll b a (x ∷ xs) h hs = ground (arith, insert_sorted-BeforeAll b a xs h hs.1)

  insert_sorted-IsSorted :
      (a : A) (xs : List A) → IsSorted before xs → IsSorted before (insert_sorted before a xs)
  unfolding insert_sorted
  insert_sorted-IsSorted a [] h = (tt, tt)
  insert_sorted-IsSorted a (x ∷ xs) h = ground (
    arith,
    insert_sorted-IsSorted a xs h.1,
    BeforeAll-trans a x xs,
    total a x,
    insert_sorted-BeforeAll x a xs,
  )

  pub sorted-IsSorted : (xs : List A) → IsSorted before (sorted before xs)
  unfolding sorted
  sorted-IsSorted [] = tt
  sorted-IsSorted (x ∷ xs) = insert_sorted-IsSorted x (sorted before xs) (sorted-IsSorted xs)

module _ {ℓ} {A : Type ℓ} ⦃e : Eq A⦄ (before : A → A → Bool) where
  mem-insert_sorted :
      (b a : A) (xs : List A) → mem b (insert_sorted before a xs) ≡ (b == a || mem b xs)
  unfolding insert_sorted
  mem-insert_sorted b a [] = refl
  mem-insert_sorted b a (x ∷ xs) = ground (arith, mem-insert_sorted b a xs)

  pub mem-sorted : (a : A) (xs : List A) → mem a (sorted before xs) ≡ mem a xs
  unfolding sorted
  mem-sorted a [] = refl
  mem-sorted a (x ∷ xs) = ground (arith, mem-insert_sorted a x (sorted before xs), mem-sorted a xs)

  insert_sorted-Distinct :
      (a : A) (xs : List A) → mem a xs ≡ false → Distinct xs → Distinct (insert_sorted before a xs)
  unfolding insert_sorted
  insert_sorted-Distinct a [] h hs = (refl, tt)
  insert_sorted-Distinct a (x ∷ xs) h hs =
      ground
        (arith, insert_sorted-Distinct a xs, mem-insert_sorted x a xs, e.beq_iff a x, e.beq_iff x a)

  pub sorted-Distinct : (xs : List A) → Distinct xs → Distinct (sorted before xs)
  unfolding sorted
  sorted-Distinct [] h = tt
  sorted-Distinct (x ∷ xs) h =
      insert_sorted-Distinct x (sorted before xs) (rw mem-sorted h.0) (sorted-Distinct xs h.1)

module _ {ℓ} {A : Type ℓ} (before : A → A → Bool) where
  is_empty-insert_sorted : (a : A) (xs : List A) → is_empty (insert_sorted before a xs) ≡ false
  unfolding insert_sorted
  is_empty-insert_sorted a [] = refl
  is_empty-insert_sorted a (x ∷ xs) = elim (Bool-cases (before a x)) [
    | inl e ↦ rw e refl
    | inr e ↦ rw e refl
  ]

  pub is_empty-sorted : (xs : List A) → is_empty (sorted before xs) ≡ is_empty xs
  unfolding sorted
  is_empty-sorted [] = refl
  is_empty-sorted (x ∷ xs) = is_empty-insert_sorted x (sorted before xs)

-- Sorting by a key is sorting the keys.
module _ {ℓ κ} {A : Type ℓ} {B : Type κ} (f : A → B) (before : B → B → Bool) where
  insert_sorted-map :
      (a : A) (xs : List A)
      → insert_sorted before (f a) (map f xs)
        ≡ map f (insert_sorted (λ x y. before (f x) (f y)) a xs)
  unfolding insert_sorted
  insert_sorted-map a [] = refl
  insert_sorted-map a (x ∷ xs) = elim (Bool-cases (before (f a) (f x))) [
    | inl e ↦ rw e refl
    | inr e ↦ rw e (ap (λ ys. f x ∷ ys) (insert_sorted-map a xs))
  ]

  pub sorted-map :
      (xs : List A) → sorted before (map f xs) ≡ map f (sorted (λ x y. before (f x) (f y)) xs)
  unfolding sorted
  sorted-map [] = refl
  sorted-map (x ∷ xs) =
      ap (insert_sorted before (f x)) (sorted-map xs)
      ∙ insert_sorted-map x (sorted (λ x y. before (f x) (f y)) xs)
