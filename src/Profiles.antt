-- ===== src/Profiles.antt =====
-- `InMemoryFinancialProfileRepository` of app/repositories/financial_profiles.py, and the service
-- app/services/financial_profiles.py that passes each call on to it. A profile is a value of any type, a
-- time a number of microseconds; the time and the id of `uuid4` are arguments.
pub mod Abstract
pub mod Updates
pub mod Deletions
pub mod Refinement
mod Tests
use finshield_ai.Base.{
  ℕ, suc, ◌+◌, String, Bool, true, false, not, ◌&&◌, Option, none, some, List, [], ◌∷◌, length, leb,
  ◌==◌, get_key, put_key, del_key, Result, ok, err, if◌then◌else◌,
}
use finshield_ai.OfficialSources.{string_eq}

pub record Resource (Profile : Type 0) : Type 0 where
  pub profile_id : String
  pub profile : Profile
  pub created_at : ℕ
  pub updated_at : ℕ

-- `FinancialProfileNotFoundError`, `FinancialProfileCapacityError`, and a KeyError that escapes.
pub data ProfileError : Type 0 where
  not_found capacity_reached key_error : ProfileError

-- What a call gives back.
pub data Answer (Profile : Type 0) : Type 0 where
  resource : Resource Profile → Answer Profile
  deleted : Answer Profile
  deleted_count : ℕ → Answer Profile

-- `self._profiles` and `self._owners`
pub record Profiles (Profile : Type 0) : Type 0 where
  pub profiles : List (String × Resource Profile)
  pub owners : List (String × String)

-- The calls of the repository, with the time and the new id.
pub data Call (Profile : Type 0) : Type 0 where
  create : String → ℕ → Profile → String → Call Profile
  get : String → String → Call Profile
  replace : String → ℕ → Profile → String → Call Profile
  delete : String → String → Call Profile
  delete_all_for_owner : String → Call Profile

-- `now`, or just after the last update.
unfoldable pub later_than : ℕ → ℕ → ℕ
later_than last now = if leb now last then last + 1 else now

-- The ids whose owner it is, in their order.
unfoldable pub ids_of : String → List (String × String) → List String
ids_of owner [] = []
ids_of owner ((id, current_owner) ∷ owners) =
    let rest = ids_of owner owners in if current_owner == owner then id ∷ rest else rest

module _ {Profile : Type 0} where
  abbrev pub new_resource : String → ℕ → Profile → Resource Profile
  new_resource id now profile = record {
    profile_id = id;
    profile = profile;
    created_at = now;
    updated_at = now;
  }

  abbrev pub replacement_of : String → ℕ → Profile → Resource Profile → Resource Profile
  replacement_of id now profile current = record {
    profile_id = id;
    profile = profile;
    created_at = current.created_at;
    updated_at = later_than current.updated_at now;
  }

  -- The resource if the owner is the one that asks.
  unfoldable pub owned_by :
      String → Option String → Resource Profile → Result ProfileError (Resource Profile)
  owned_by owner none record_ = err key_error
  owned_by owner (some current_owner) record_ =
      if not (current_owner == owner) then err not_found else ok record_

  -- The look-ups that `get` and `replace` begin with.
  unfoldable pub found :
      String
      → Profiles Profile
      → String
      → Option (Resource Profile)
      → Result ProfileError (Resource Profile)
  unfolding owned_by
  found id state owner none = err not_found
  found id state owner (some record_) = owned_by owner (get_key id state.owners) record_

  unfoldable pub find_profile :
      String → String → Profiles Profile → Result ProfileError (Resource Profile)
  unfolding found
  find_profile id owner state = found id state owner (get_key id state.profiles)

  unfoldable pub create_profile :
      ℕ
      → String
      → ℕ
      → Profile
      → String
      → Profiles Profile
      → Result ProfileError (Answer Profile) × Profiles Profile
  create_profile max_profiles id now profile owner state =
      if leb max_profiles (length state.profiles) then (err capacity_reached, state) else (
        ok (resource (new_resource id now profile)),
        record {
          profiles = put_key id (new_resource id now profile) state.profiles;
          owners = put_key id owner state.owners;
        },
      )

  unfoldable pub get_profile :
      String → String → Profiles Profile → Result ProfileError (Answer Profile)
  get_profile id owner state = answered (find_profile id owner state)
    where
      answered : Result ProfileError (Resource Profile) → Result ProfileError (Answer Profile)
      answered (ok record_) = ok (resource record_)
      answered (err e) = err e

  -- `replace`, by what was found.
  unfoldable pub replace_found :
      String
      → ℕ
      → Profile
      → Profiles Profile
      → Result ProfileError (Resource Profile)
      → Result ProfileError (Answer Profile) × Profiles Profile
  replace_found id now profile state (err e) = (err e, state)
  replace_found id now profile state (ok current) = (
    ok (resource (replacement_of id now profile current)),
    record {
      profiles = put_key id (replacement_of id now profile current) state.profiles;
      owners = state.owners;
    },
  )

  -- An id without its profile and its owner.
  abbrev pub without_id : String → Profiles Profile → Profiles Profile
  without_id id state = record {
    profiles = del_key id state.profiles;
    owners = del_key id state.owners;
  }

  -- `delete`, by the owner and the profile of the id: every KeyError is a profile that is not found.
  unfoldable pub delete_found :
      String
      → String
      → Profiles Profile
      → Option String
      → Option (Resource Profile)
      → Result ProfileError (Answer Profile) × Profiles Profile
  delete_found id owner state none record_ = (err not_found, state)
  delete_found id owner state (some current_owner) none = (err not_found, state)
  delete_found id owner state (some current_owner) (some record_) =
      if not (current_owner == owner)
      then (err not_found, state)
      else (ok deleted, without_id id state)

  -- The loop of `delete_all_for_owner`; a profile that is missing is a KeyError.
  unfoldable pub delete_ids :
      List String → ℕ → Profiles Profile → Result ProfileError (Answer Profile) × Profiles Profile
  delete_ids [] count state = (ok (deleted_count count), state)
  delete_ids (id ∷ ids) count state =
      let rest = delete_ids ids count (without_id id state) in
      elim (get_key id state.profiles) [ none ↦ (err key_error, state) | some _ ↦ rest ]

  unfoldable pub handle :
      ℕ → Call Profile → Profiles Profile → Result ProfileError (Answer Profile) × Profiles Profile
  unfolding create_profile replace_found delete_found delete_ids
  handle max_profiles (create id now profile owner) state =
      create_profile max_profiles id now profile owner state
  handle max_profiles (get id owner) state = (get_profile id owner state, state)
  handle max_profiles (replace id now profile owner) state =
      replace_found id now profile state (find_profile id owner state)
  handle max_profiles (delete id owner) state =
      delete_found id owner state (get_key id state.owners) (get_key id state.profiles)
  handle max_profiles (delete_all_for_owner owner) state =
      delete_ids (ids_of owner state.owners) (length (ids_of owner state.owners)) state

  -- `InMemoryFinancialProfileRepository()`
  abbrev pub no_profiles : Profiles Profile
  no_profiles = record { profiles = []; owners = [] }

  -- The answers of a sequence of calls, and the state after it.
  unfoldable pub answers :
      ℕ → List (Call Profile) → Profiles Profile → List (Result ProfileError (Answer Profile))
  unfolding handle
  answers max_profiles [] state = []
  answers max_profiles (call ∷ calls) state =
      let (answer, after) = handle max_profiles call state in
      answer ∷ answers max_profiles calls after

  unfoldable pub run : ℕ → List (Call Profile) → Profiles Profile → Profiles Profile
  unfolding handle
  run max_profiles [] state = state
  run max_profiles (call ∷ calls) state = run max_profiles calls (handle max_profiles call state).1
