-- ===== src/Profiles/Deletions.antt =====
-- `delete` and `delete_all_for_owner` of app/repositories/financial_profiles.py.
use finshield_ai.Base.{
  ℕ, ◌≡◌, refl, sym, ◌∙◌, inl, inr, String, Bool, true, false, ◌||◌, Option, none, some, List, [],
  ◌∷◌, length, ◌==◌, mem, Distinct, beq_refl, ok, if◌then◌else◌, arith, Bool-cases, Option-cases,
  get_key, keys, is_some, get_key-del_key, mem-keys,
}
use finshield_ai.OfficialSources.{string_eq}
use finshield_ai.Profiles.{
  Resource, deleted_count, Profiles, delete, delete_all_for_owner, without_id, delete_found, ids_of,
  delete_ids,
}
use finshield_ai.Profiles.Abstract.{pair_up, held, seen_by, without_owner, DeleteMeets, Meets}
use finshield_ai.Profiles.Updates.{IsGood, without_id-IsGood, without_id-held}

abbrev is_owner : String → Option String → Bool
is_owner owner none = false
is_owner owner (some current_owner) = current_owner == owner

ids_of-keys :
    (owner k : String) (owners : List (String × String))
    → mem k (ids_of owner owners) ≡ true
    → mem k (keys owners) ≡ true
unfolding ids_of keys
ids_of-keys owner k [] h = h
ids_of-keys owner k ((id, c) ∷ owners) h = ground (arith, ids_of-keys owner k owners)

ids_of-Distinct :
    (owner : String) (owners : List (String × String))
    → Distinct (keys owners)
    → Distinct (ids_of owner owners)
unfolding ids_of keys
ids_of-Distinct owner [] h = tt
ids_of-Distinct owner ((id, c) ∷ owners) h =
    ground (arith, ids_of-Distinct owner owners h.1, ids_of-keys owner id owners)

mem-ids_of :
    (owner k : String) (owners : List (String × String))
    → Distinct (keys owners)
    → mem k (ids_of owner owners) ≡ is_owner owner (get_key k owners)
unfolding ids_of keys get_key
mem-ids_of owner k [] h = refl
mem-ids_of owner k ((id, c) ∷ owners) h = elim (Bool-cases (k == id)) [
  | inl same ↦
      rw (same, (string_eq.beq_iff k id).0 same)
        (ground (arith, ids_of-keys owner id owners, beq_refl id, h.0))
  | inr apart ↦ rw apart (ground (arith, mem-ids_of owner k owners h.1))
]

module _ {Profile : Type 0} where
  pub delete_found-Meets :
      (max_profiles : ℕ) (id owner : String) (state : Profiles Profile)
      → IsGood state
      → IsGood (delete_found id owner state (get_key id state.owners) (get_key id state.profiles)).1
        × Meets max_profiles
            (delete id owner)
            (held state)
            (delete_found id owner state (get_key id state.owners) (get_key id state.profiles)).0
            (held
              (delete_found id owner state (get_key id state.owners) (get_key id state.profiles)).1)
  unfolding delete_found held pair_up seen_by
  delete_found-Meets max_profiles id owner state good =
      go (get_key id state.profiles) (get_key id state.owners) (good.0 id)
    where
      go :
          (p : Option (Resource Profile)) (o : Option String)
          → is_some p ≡ is_some o
          → IsGood (delete_found id owner state o p).1
            × DeleteMeets id
                (held state)
                (seen_by owner (pair_up o p))
                (delete_found id owner state o p).0
                (held (delete_found id owner state o p).1)
      go none none h = (good, (refl, λ k. refl))
      go none (some c) h = absurd (cc)
      go (some r) none h = absurd (cc)
      go (some r) (some c) h = elim (Bool-cases (c == owner)) [
        | inl s ↦ rw s (without_id-IsGood id state good, (refl, without_id-held id state))
        | inr a ↦ rw a (good, (refl, λ k. refl))
      ]

  -- Every id has a profile.
  abbrev HasAll : List String → Profiles Profile → Type 0
  HasAll ids state = (k : String) → mem k ids ≡ true → is_some (get_key k state.profiles) ≡ true

  HasAll-without_id :
      (id : String) (ids : List String) (state : Profiles Profile)
      → mem id ids ≡ false
      → HasAll (id ∷ ids) state
      → HasAll ids (without_id id state)
  HasAll-without_id id ids state apart h k m = elim (Bool-cases (k == id)) [
    | inl e ↦ absurd (cc (rw ((string_eq.beq_iff k id).0 e, apart) at m))
    | inr e ↦ rw (get_key-del_key k id state.profiles, e) (h k (rw e m))
  ]

  no_id :
      (a b : Bool) (x : Option (String × Resource Profile))
      → (if b then none else (if a then none else x)) ≡ (if a || b then none else x)
  no_id true true x = refl
  no_id true false x = refl
  no_id false true x = refl
  no_id false false x = refl

  delete_ids-there :
      (id : String) (ids : List String) (count : ℕ) (state : Profiles Profile)
      (r : Resource Profile)
      → get_key id state.profiles ≡ some r
      → delete_ids (id ∷ ids) count state ≡ delete_ids ids count (without_id id state)
  unfolding delete_ids
  delete_ids-there id ids count state r e = rw (delete_ids, e) refl

  delete_ids-held :
      (ids : List String) (count : ℕ) (state : Profiles Profile)
      → IsGood state
      → Distinct ids
      → HasAll ids state
      → ((delete_ids ids count state).0 ≡ ok (deleted_count count))
        × IsGood (delete_ids ids count state).1
        × ((k : String)
            → held (delete_ids ids count state).1 k ≡ (if mem k ids then none else held state k))
  unfolding delete_ids
  delete_ids-held [] count state good d h = (refl, good, λ k. refl)
  delete_ids-held (id ∷ ids) count state good d h =
      let rest =
        delete_ids-held ids count (without_id id state) (without_id-IsGood id state good) d.1
          (HasAll-without_id id ids state d.0 h) in
      elim (Option-cases (get_key id state.profiles)) [
        | inl e ↦ absurd (cc (rw e at (h id (rw (beq_refl id) refl))))
        | inr (r, e) ↦ rw (delete_ids-there id ids count state r e) (
          rest.0,
          rest.1,
          λ k.
              rest.2 k
              ∙ rw (without_id-held id state k) (no_id (k == id) (mem k ids) (held state k)),
        )
      ]

  seen-is_owner :
      (owner k : String) (state : Profiles Profile)
      → IsGood state
      → is_some (seen_by owner (held state k)) ≡ is_owner owner (get_key k state.owners)
  unfolding held pair_up seen_by
  seen-is_owner owner k state good =
      go (get_key k state.owners) (get_key k state.profiles) (good.0 k)
    where
      go :
          (o : Option String) (p : Option (Resource Profile))
          → is_some p ≡ is_some o
          → is_some (seen_by owner (pair_up o p)) ≡ is_owner owner o
      go none p h = refl
      go (some c) none h = absurd (cc)
      go (some c) (some r) h = ground arith

  owner-HasAll :
      (owner : String) (state : Profiles Profile)
      → IsGood state
      → HasAll (ids_of owner state.owners) state
  owner-HasAll owner state good k m =
      good.0 k ∙ sym (mem-keys k state.owners) ∙ ids_of-keys owner k state.owners m

  without_owner-ids :
      (owner k : String) (state : Profiles Profile)
      → IsGood state
      → (if mem k (ids_of owner state.owners) then none else held state k)
        ≡ without_owner owner (held state) k
  without_owner-ids owner k state good =
      rw (mem-ids_of owner k state.owners good.1, sym (seen-is_owner owner k state good))
        (go (seen_by owner (held state k)) (held state k))
    where
      go :
          (o : Option (Resource Profile)) (x : Option (String × Resource Profile))
          → (if is_some o then none else x) ≡ (elim o [ none ↦ x | some _ ↦ none ])
      go none x = refl
      go (some r) x = refl

  pub delete_all-Meets :
      (max_profiles : ℕ) (owner : String) (state : Profiles Profile)
      → IsGood state
      → IsGood (delete_ids (ids_of owner state.owners) (length (ids_of owner state.owners)) state).1
        × Meets max_profiles
            (delete_all_for_owner owner)
            (held state)
            (delete_ids (ids_of owner state.owners) (length (ids_of owner state.owners)) state).0
            (held
              (delete_ids (ids_of owner state.owners) (length (ids_of owner state.owners)) state).1)
  delete_all-Meets max_profiles owner state good =
      let count = length (ids_of owner state.owners) in
      let all =
        delete_ids-held (ids_of owner state.owners) count state good
          (ids_of-Distinct owner state.owners good.1) (owner-HasAll owner state good) in
      (
        all.1,
        (
          count,
          all.0,
          (
            ids_of owner state.owners,
            ids_of-Distinct owner state.owners good.1,
            refl,
            λ k. mem-ids_of owner k state.owners good.1 ∙ sym (seen-is_owner owner k state good),
          ),
          λ k. all.2 k ∙ without_owner-ids owner k state good,
        ),
      )
