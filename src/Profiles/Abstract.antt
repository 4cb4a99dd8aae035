-- ===== src/Profiles/Abstract.antt =====
-- What a repository of profiles promises: for each id an owner and a profile, or none.
use finshield_ai.Base.{
  ℕ, ◌+◌, ◌≤◌, ◌<◌, ◌≡◌, ◌⊎◌, String, Bool, not, Option, none, some, List, [], ◌∷◌, length, mem,
  Distinct, ◌==◌, Result, ok, err, if◌then◌else◌, get_key, is_some,
}
use finshield_ai.OfficialSources.{string_eq}
use finshield_ai.Profiles.{
  Resource, ProfileError, not_found, capacity_reached, Answer, resource, deleted, deleted_count,
  Profiles, Call, create, get, replace, delete, delete_all_for_owner,
}

-- The owner and the profile of an id.
abbrev pub Held : Type 0 → Type 0
Held Profile = String → Option (String × Resource Profile)

-- The number of the ids with a property.
abbrev pub Counts : (String → Bool) → ℕ → Type 0
Counts p n =
    (ids : List String) × Distinct ids × (length ids ≡ n) × ((k : String) → mem k ids ≡ p k)

-- The first time that is neither before `now` nor at or before the last one.
abbrev pub IsFirstAfter : ℕ → ℕ → ℕ → Type 0
IsFirstAfter last now t = (last < t) × (now ≤ t) × ((t ≡ now) ⊎ (t ≡ last + 1))

module _ {Profile : Type 0} where
  unfoldable pub pair_up :
      Option String → Option (Resource Profile) → Option (String × Resource Profile)
  pair_up (some owner) (some record_) = some (owner, record_)
  pair_up (some owner) none = none
  pair_up none record_ = none

  -- What the two dictionaries of a repository hold.
  unfoldable pub held : Profiles Profile → Held Profile
  unfolding pair_up
  held state id = pair_up (get_key id state.owners) (get_key id state.profiles)

  -- What an owner may see of an id.
  unfoldable pub seen_by : String → Option (String × Resource Profile) → Option (Resource Profile)
  seen_by owner none = none
  seen_by owner (some (current_owner, record_)) =
      if not (current_owner == owner) then none else some record_

  abbrev pub Same : Held Profile → Held Profile → Type 0
  Same a b = (k : String) → a k ≡ b k

  -- One id with another content.
  abbrev pub with_id : String → Option (String × Resource Profile) → Held Profile → Held Profile
  with_id id content a k = if k == id then content else a k

  -- The ids of other owners.
  abbrev pub without_owner : String → Held Profile → Held Profile
  without_owner owner a k = elim (seen_by owner (a k)) [ none ↦ a k | some _ ↦ none ]

  abbrev pub GetMeets :
      Held Profile
      → Option (Resource Profile)
      → Result ProfileError (Answer Profile)
      → Held Profile
      → Type 0
  GetMeets a none r b = (r ≡ err not_found) × Same b a
  GetMeets a (some record_) r b = (r ≡ ok (resource record_)) × Same b a

  abbrev pub ReplaceMeets :
      String
      → ℕ
      → Profile
      → String
      → Held Profile
      → Option (Resource Profile)
      → Result ProfileError (Answer Profile)
      → Held Profile
      → Type 0
  ReplaceMeets id now profile owner a none r b = (r ≡ err not_found) × Same b a
  ReplaceMeets id now profile owner a (some current) r b =
      (next : Resource Profile) × (r ≡ ok (resource next))
      × (Same b (with_id id (some (owner, next)) a))
      × (next.profile_id ≡ id)
      × (next.profile ≡ profile)
      × (next.created_at ≡ current.created_at)
      × IsFirstAfter current.updated_at now next.updated_at

  abbrev pub DeleteMeets :
      String
      → Held Profile
      → Option (Resource Profile)
      → Result ProfileError (Answer Profile)
      → Held Profile
      → Type 0
  DeleteMeets id a none r b = (r ≡ err not_found) × Same b a
  DeleteMeets id a (some _) r b = (r ≡ ok deleted) × Same b (with_id id none a)

  -- A call, with what it gives back and what is held before and after it.
  abbrev pub Meets :
      ℕ → Call Profile → Held Profile → Result ProfileError (Answer Profile) → Held Profile → Type 0
  Meets max_profiles (create id now profile owner) a r b =
      let new : Resource Profile = record {
        profile_id = id;
        profile = profile;
        created_at = now;
        updated_at = now;
      } in
      (n : ℕ) × (Counts (λ k. is_some (a k)) n)
      × (((max_profiles ≤ n) × (r ≡ err capacity_reached) × Same b a)
          ⊎ ((n < max_profiles)
              × (r ≡ ok (resource new))
              × Same b (with_id id (some (owner, new)) a)))
  Meets max_profiles (get id owner) a r b = GetMeets a (seen_by owner (a id)) r b
  Meets max_profiles (replace id now profile owner) a r b =
      ReplaceMeets id now profile owner a (seen_by owner (a id)) r b
  Meets max_profiles (delete id owner) a r b = DeleteMeets id a (seen_by owner (a id)) r b
  Meets max_profiles (delete_all_for_owner owner) a r b =
      (n : ℕ) × (r ≡ ok (deleted_count n))
      × (Counts (λ k. is_some (seen_by owner (a k))) n)
      × Same b (without_owner owner a)

  -- The answers of a sequence of calls.
  abbrev pub Replays :
      ℕ
      → Held Profile
      → List (Call Profile)
      → List (Result ProfileError (Answer Profile))
      → Held Profile
      → Type 0
  Replays max_profiles a [] [] b = Same b a
  Replays max_profiles a (call ∷ calls) (r ∷ answers) b =
      (m : Held Profile) × Meets max_profiles call a r m × Replays max_profiles m calls answers b
  Replays max_profiles a _ _ b = ⊥
