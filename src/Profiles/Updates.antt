-- ===== src/Profiles/Updates.antt =====
-- `InMemoryFinancialProfileRepository` of app/repositories/financial_profiles.py: how what it holds
-- changes where an id is put into its dictionaries or deleted.
use finshield_ai.Base.{
  ◌≡◌, refl, ◌⊎◌, inl, inr, String, Bool, true, false, Option, none, some, ◌==◌, Distinct,
  if◌then◌else◌, Bool-cases, get_key, put_key, keys, is_some, get_key-put_key, get_key-del_key,
  keys-put_key-Distinct, keys-del_key-Distinct,
}
use finshield_ai.OfficialSources.{string_eq}
use finshield_ai.Profiles.{Resource, Profiles, without_id}
use finshield_ai.Profiles.Abstract.{pair_up, held, Same, with_id}

module _ {Profile : Type 0} where
  -- Every profile has an owner and every owner a profile, and an id stands once.
  abbrev pub IsGood : Profiles Profile → Type 0
  IsGood state =
      ((id : String) → is_some (get_key id state.profiles) ≡ is_some (get_key id state.owners))
      × Distinct (keys state.owners)
      × Distinct (keys state.profiles)

  pub put-IsGood :
      (id : String) (record_ : Resource Profile) (owner : String) (state : Profiles Profile)
      → IsGood state
      → IsGood (record {
        profiles = put_key id record_ state.profiles;
        owners = put_key id owner state.owners;
      })
  put-IsGood id record_ owner state good = (
    λ k.
        rw (get_key-put_key k id record_ state.profiles, get_key-put_key k id owner state.owners)
          (same_keys (k == id) (get_key k state.profiles) (get_key k state.owners) (good.0 k)),
    keys-put_key-Distinct id owner state.owners good.1,
    keys-put_key-Distinct id record_ state.profiles good.2,
  )
    where
      same_keys :
          (b : Bool) (r : Option (Resource Profile)) (o : Option String)
          → is_some r ≡ is_some o
          → is_some (if b then some record_ else r) ≡ is_some (if b then some owner else o)
      same_keys true r o h = refl
      same_keys false r o h = h

  pub put-held :
      (id : String) (record_ : Resource Profile) (owner : String) (state : Profiles Profile)
      → Same
          (held (record {
            profiles = put_key id record_ state.profiles;
            owners = put_key id owner state.owners;
          }))
          (with_id id (some (owner, record_)) (held state))
  unfolding held pair_up
  put-held id record_ owner state k =
      rw (get_key-put_key k id record_ state.profiles, get_key-put_key k id owner state.owners)
        (pairs (k == id) (get_key k state.owners) (get_key k state.profiles))
    where
      pairs :
          (b : Bool) (o : Option String) (r : Option (Resource Profile))
          → pair_up (if b then some owner else o) (if b then some record_ else r)
            ≡ (if b then some (owner, record_) else pair_up o r)
      pairs true o r = refl
      pairs false o r = refl

  -- The owner stays where only the profile is put.
  pub put_again :
      (id : String) (record_ : Resource Profile) (owner : String) (state : Profiles Profile)
      → get_key id state.owners ≡ some owner
      → IsGood state
      → IsGood (record { profiles = put_key id record_ state.profiles; owners = state.owners })
        × Same
            (held (record { profiles = put_key id record_ state.profiles; owners = state.owners }))
            (with_id id (some (owner, record_)) (held state))
  unfolding held pair_up
  put_again id record_ owner state h good = (
    (
      λ k. rw (get_key-put_key k id record_ state.profiles) (keys_too k (Bool-cases (k == id))),
      good.1,
      keys-put_key-Distinct id record_ state.profiles good.2,
    ),
    λ k. rw (get_key-put_key k id record_ state.profiles) (pairs k (Bool-cases (k == id))),
  )
    where
      keys_too :
          (k : String)
          → ((k == id) ≡ true) ⊎ ((k == id) ≡ false)
          → is_some (if k == id then some record_ else get_key k state.profiles)
            ≡ is_some (get_key k state.owners)
      keys_too k (inl e) = rw (e, (string_eq.beq_iff k id).0 e, h) refl
      keys_too k (inr e) = rw e (good.0 k)

      pairs :
          (k : String)
          → ((k == id) ≡ true) ⊎ ((k == id) ≡ false)
          → pair_up
              (get_key k state.owners)
              (if k == id then some record_ else get_key k state.profiles)
            ≡ with_id id (some (owner, record_)) (held state) k
      pairs k (inl e) = rw (e, (string_eq.beq_iff k id).0 e, h) refl
      pairs k (inr e) = rw e refl

  pub without_id-IsGood :
      (id : String) (state : Profiles Profile) → IsGood state → IsGood (without_id id state)
  without_id-IsGood id state good = (
    λ k.
        rw (get_key-del_key k id state.profiles, get_key-del_key k id state.owners)
          (same_keys (k == id) (get_key k state.profiles) (get_key k state.owners) (good.0 k)),
    keys-del_key-Distinct id state.owners good.1,
    keys-del_key-Distinct id state.profiles good.2,
  )
    where
      same_keys :
          (b : Bool) (r : Option (Resource Profile)) (o : Option String)
          → is_some r ≡ is_some o
          → is_some (if b then none else r) ≡ is_some (if b then none else o)
      same_keys true r o h = refl
      same_keys false r o h = h

  pub without_id-held :
      (id : String) (state : Profiles Profile)
      → Same (held (without_id id state)) (with_id id none (held state))
  unfolding held pair_up
  without_id-held id state k =
      rw (get_key-del_key k id state.profiles, get_key-del_key k id state.owners)
        (pairs (k == id) (get_key k state.owners) (get_key k state.profiles))
    where
      pairs :
          (b : Bool) (o : Option String) (r : Option (Resource Profile))
          → pair_up (if b then none else o) (if b then none else r)
            ≡ (if b then none else pair_up o r)
      pairs true o r = refl
      pairs false o r = refl
