-- ===== src/Base/Dicts.antt =====
-- Python's dictionaries, as lists of items in the order of their insertion.
use Prim.Native.Nat.{suc}
use mathlib.Core.Path.{◌≡◌, refl, ap}
use mathlib.Core.Logic.{inl, inr}
use mathlib.Core.Bool.{Bool, true, false, not, ◌&&◌, ◌||◌}
use mathlib.Core.Option.{Option, none, some}
use mathlib.Core.List.{List, [], ◌∷◌}
use native.Mathlib.Omega.{arith}
use finshield_ai.Base.Tests.{if◌then◌else◌, Bool-cases}
use finshield_ai.Base.Lists.{length}
use finshield_ai.Base.Sets.{Eq, ◌==◌, mem, Distinct}

abbrev pub is_some {ℓ} : {A : Type ℓ} → Option A → Bool
is_some none = false
is_some (some _) = true

module _ {K V : Type 0} ⦃e : Eq K⦄ where
  -- `d.get(key)`
  unfoldable pub get_key : K → List (K × V) → Option V
  get_key key [] = none
  get_key key ((k, v) ∷ d) = if key == k then some v else get_key key d

  -- `d[key] = value`
  unfoldable pub put_key : K → V → List (K × V) → List (K × V)
  put_key key value [] = (key, value) ∷ []
  put_key key value ((k, v) ∷ d) =
      let rest = put_key key value d in if key == k then (k, value) ∷ d else (k, v) ∷ rest

  -- `del d[key]`, of a key that is there
  unfoldable pub del_key : K → List (K × V) → List (K × V)
  del_key key [] = []
  del_key key ((k, v) ∷ d) = let rest = del_key key d in if key == k then rest else (k, v) ∷ rest

  -- `d.keys()`
  unfoldable pub keys : List (K × V) → List K
  keys [] = []
  keys ((k, v) ∷ d) = k ∷ keys d

  pub get_key-put_key :
      (k key : K) (value : V) (d : List (K × V))
      → get_key k (put_key key value d) ≡ (if k == key then some value else get_key k d)
  unfolding get_key put_key
  get_key-put_key k key value [] = refl
  get_key-put_key k key value ((j, v) ∷ d) =
      ground (arith, get_key-put_key k key value d, e.beq_iff k key, e.beq_iff key j, e.beq_iff k j)

  pub get_key-del_key :
      (k key : K) (d : List (K × V))
      → get_key k (del_key key d) ≡ (if k == key then none else get_key k d)
  unfolding get_key del_key
  get_key-del_key k key [] = ground arith
  get_key-del_key k key ((j, v) ∷ d) =
      ground (arith, get_key-del_key k key d, e.beq_iff k key, e.beq_iff key j, e.beq_iff k j)

  pub mem-keys : (k : K) (d : List (K × V)) → mem k (keys d) ≡ is_some (get_key k d)
  unfolding get_key keys
  mem-keys k [] = refl
  mem-keys k ((j, v) ∷ d) = elim (Bool-cases (k == j)) [
    | inl same ↦ rw same refl
    | inr apart ↦ rw apart (mem-keys k d)
  ]

  pub length-keys : (d : List (K × V)) → length (keys d) ≡ length d
  unfolding keys
  length-keys [] = refl
  length-keys ((k, v) ∷ d) = ap suc (length-keys d)

  mem-keys-put_key :
      (k key : K) (value : V) (d : List (K × V))
      → mem k (keys (put_key key value d)) ≡ (k == key || mem k (keys d))
  unfolding keys put_key
  mem-keys-put_key k key value [] = refl
  mem-keys-put_key k key value ((j, v) ∷ d) =
      ground
        (arith, mem-keys-put_key k key value d, e.beq_iff k key, e.beq_iff key j, e.beq_iff k j)

  pub keys-put_key-Distinct :
      (key : K) (value : V) (d : List (K × V))
      → Distinct (keys d)
      → Distinct (keys (put_key key value d))
  unfolding keys put_key
  keys-put_key-Distinct key value [] h = (refl, tt)
  keys-put_key-Distinct key value ((j, v) ∷ d) h = ground (
    arith,
    keys-put_key-Distinct key value d h.1,
    mem-keys-put_key j key value d,
    e.beq_iff j key,
    e.beq_iff key j,
  )

  mem-keys-del_key :
      (k key : K) (d : List (K × V))
      → mem k (keys (del_key key d)) ≡ (not (k == key) && mem k (keys d))
  unfolding keys del_key
  mem-keys-del_key k key [] = ground arith
  mem-keys-del_key k key ((j, v) ∷ d) =
      ground (arith, mem-keys-del_key k key d, e.beq_iff k key, e.beq_iff key j, e.beq_iff k j)

  pub keys-del_key-Distinct :
      (key : K) (d : List (K × V)) → Distinct (keys d) → Distinct (keys (del_key key d))
  unfolding keys del_key
  keys-del_key-Distinct key [] h = tt
  keys-del_key-Distinct key ((j, v) ∷ d) h =
      ground (arith, keys-del_key-Distinct key d h.1, mem-keys-del_key j key d)
