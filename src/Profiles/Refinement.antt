-- ===== src/Profiles/Refinement.antt =====
-- `InMemoryFinancialProfileRepository` of app/repositories/financial_profiles.py keeps the promise.
use finshield_ai.Base.{
  ℕ, ◌≡◌, refl, ◌∙◌, ap, ◌⊎◌, inl, inr, String, Option, none, some, List, [], ◌∷◌, length, leb,
  ◌==◌, ok, err, Bool-cases, get_key, keys, is_some, length-keys, mem-keys, arith,
}
use finshield_ai.OfficialSources.{string_eq}
use finshield_ai.Profiles.{
  Resource, not_found, Profiles, Call, create, get, replace, delete, delete_all_for_owner,
  new_resource, replacement_of, owned_by, found, find_profile, create_profile, get_profile,
  replace_found, later_than, handle, answers, run, no_profiles,
}
use finshield_ai.Profiles.Abstract.{Counts, IsFirstAfter, pair_up, held, seen_by, Meets, Replays}
use finshield_ai.Profiles.Deletions.{delete_found-Meets, delete_all-Meets}
use finshield_ai.Profiles.Updates.{IsGood, put-IsGood, put-held, put_again}

later_than-IsFirstAfter : (last now : ℕ) → IsFirstAfter last now (later_than last now)
unfolding later_than
later_than-IsFirstAfter last now = elim (Bool-cases (leb now last)) [
  | inl e ↦ rw e (omega arith, ground arith, inr refl)
  | inr e ↦ rw e (ground arith, omega arith, inl refl)
]

module _ {Profile : Type 0} where
  -- As many ids are held as the dictionary of profiles has.
  held-Counts :
      (state : Profiles Profile)
      → IsGood state
      → Counts (λ k. is_some (held state k)) (length state.profiles)
  unfolding held pair_up
  held-Counts state good = (
    keys state.profiles,
    good.2,
    length-keys state.profiles,
    λ k.
        mem-keys k state.profiles
        ∙ both (get_key k state.owners) (get_key k state.profiles) (good.0 k),
  )
    where
      both :
          (o : Option String) (p : Option (Resource Profile))
          → is_some p ≡ is_some o
          → is_some p ≡ is_some (pair_up o p)
      both none p h = h
      both (some c) none h = refl
      both (some c) (some r) h = refl

  create_profile-Meets :
      (max_profiles : ℕ) (id : String) (now : ℕ) (profile : Profile) (owner : String)
      (state : Profiles Profile)
      → IsGood state
      → IsGood (create_profile max_profiles id now profile owner state).1
        × Meets max_profiles
            (create id now profile owner)
            (held state)
            (create_profile max_profiles id now profile owner state).0
            (held (create_profile max_profiles id now profile owner state).1)
  unfolding create_profile
  create_profile-Meets max_profiles id now profile owner state good =
      elim (Bool-cases (leb max_profiles (length state.profiles))) [
        | inl e ↦ rw e (
          good,
          (length state.profiles, held-Counts state good, inl (ground arith, refl, λ k. refl)),
        )
        | inr e ↦ rw e (
          put-IsGood id (new_resource id now profile) owner state good,
          (
            length state.profiles,
            held-Counts state good,
            inr (ground arith, refl, put-held id (new_resource id now profile) owner state),
          ),
        )
      ]

  -- What is found of an id is what its owner may see of it.
  find-cases :
      (id owner : String) (state : Profiles Profile)
      → IsGood state
      → ((r : Resource Profile) × (find_profile id owner state ≡ ok r)
          × (seen_by owner (held state id) ≡ some r)
          × (get_key id state.owners ≡ some owner))
        ⊎ ((find_profile id owner state ≡ err not_found) × (seen_by owner (held state id) ≡ none))
  unfolding find_profile found owned_by held pair_up seen_by
  find-cases id owner state good =
      go (get_key id state.profiles) (get_key id state.owners) refl refl (good.0 id)
    where
      go :
          (p : Option (Resource Profile)) (o : Option String)
          → get_key id state.profiles ≡ p
          → get_key id state.owners ≡ o
          → is_some p ≡ is_some o
          → ((r : Resource Profile) × (find_profile id owner state ≡ ok r)
              × (seen_by owner (held state id) ≡ some r)
              × (get_key id state.owners ≡ some owner))
            ⊎ ((find_profile id owner state ≡ err not_found)
                × (seen_by owner (held state id) ≡ none))
      go none none e f h = inr (rw e refl, rw (e, f) refl)
      go none (some c) e f h = absurd (cc)
      go (some r) none e f h = absurd (cc)
      go (some r) (some c) e f h = elim (Bool-cases (c == owner)) [
        | inl s ↦
            inl (
              r,
              rw (e, f, s) refl,
              rw (e, f, s) refl,
              f ∙ ap some ((string_eq.beq_iff c owner).0 s),
            )
        | inr a ↦ inr (rw (e, f, a) refl, rw (e, f, a) refl)
      ]

  get_profile-Meets :
      (max_profiles : ℕ) (id owner : String) (state : Profiles Profile)
      → IsGood state
      → Meets max_profiles (get id owner) (held state) (get_profile id owner state) (held state)
  unfolding get_profile
  get_profile-Meets max_profiles id owner state good = elim (find-cases id owner state good) [
    | inl (r, e, s, o) ↦ rw (s, e) (refl, λ k. refl)
    | inr (e, s) ↦ rw (s, e) (refl, λ k. refl)
  ]

  replace_found-Meets :
      (max_profiles : ℕ) (id : String) (now : ℕ) (profile : Profile) (owner : String)
      (state : Profiles Profile)
      → IsGood state
      → IsGood (replace_found id now profile state (find_profile id owner state)).1
        × Meets max_profiles
            (replace id now profile owner)
            (held state)
            (replace_found id now profile state (find_profile id owner state)).0
            (held (replace_found id now profile state (find_profile id owner state)).1)
  unfolding replace_found
  replace_found-Meets max_profiles id now profile owner state good =
      elim (find-cases id owner state good) [
        | inl (r, e, s, o) ↦
            let again = put_again id (replacement_of id now profile r) owner state o good in
            rw (s, e)
              (
                again.0,
                (
                  replacement_of id now profile r,
                  refl,
                  again.1,
                  refl,
                  refl,
                  refl,
                  later_than-IsFirstAfter r.updated_at now,
                ),
              )
        | inr (e, s) ↦ rw (s, e) (good, (refl, λ k. refl))
      ]

  handle-Meets :
      (max_profiles : ℕ) (call : Call Profile) (state : Profiles Profile)
      → IsGood state
      → IsGood (handle max_profiles call state).1
        × Meets max_profiles call
            (held state)
            (handle max_profiles call state).0
            (held (handle max_profiles call state).1)
  unfolding handle
  handle-Meets max_profiles (create id now profile owner) state good =
      create_profile-Meets max_profiles id now profile owner state good
  handle-Meets max_profiles (get id owner) state good =
      (good, get_profile-Meets max_profiles id owner state good)
  handle-Meets max_profiles (replace id now profile owner) state good =
      replace_found-Meets max_profiles id now profile owner state good
  handle-Meets max_profiles (delete id owner) state good =
      delete_found-Meets max_profiles id owner state good
  handle-Meets max_profiles (delete_all_for_owner owner) state good =
      delete_all-Meets max_profiles owner state good

  held-Replays :
      (max_profiles : ℕ) (calls : List (Call Profile)) (state : Profiles Profile)
      → IsGood state
      → Replays max_profiles
          (held state)
          calls
          (answers max_profiles calls state)
          (held (run max_profiles calls state))
  unfolding answers run
  held-Replays max_profiles [] state good = λ k. refl
  held-Replays max_profiles (call ∷ calls) state good =
      let (next, meets) = handle-Meets max_profiles call state good in
      (
        held (handle max_profiles call state).1,
        meets,
        held-Replays max_profiles calls (handle max_profiles call state).1 next,
      )

-- Any sequence of calls on a new repository gives the answers of a map from ids to an owner and a
-- profile, and ends in what that map then holds: an id is only seen, replaced or deleted by its owner; a
-- replacement keeps the id and the time of creation, and its update is at the first time that is not
-- before now and after the last update; a create is refused exactly where the map holds as many ids as
-- the capacity, and stores its profile otherwise; deleting an owner's profiles reports their number and
-- leaves those of others; and no call ends in a KeyError.
pub answers-Replays :
    {Profile : Type 0} (max_profiles : ℕ) (calls : List (Call Profile))
    → Replays max_profiles
        (λ id. none)
        calls
        (answers max_profiles calls no_profiles)
        (held (run max_profiles calls no_profiles))
unfolding held pair_up get_key keys
answers-Replays max_profiles calls =
    held-Replays max_profiles calls no_profiles ((λ id. refl), tt, tt)
