-- ===== src/Profiles/Tests.antt =====
-- A run of the repository of profiles, and its theorem at it.
use finshield_ai.Base.{ℕ, ◌≡◌, refl, none, List, [], ◌∷◌, ok, err, get_key, put_key}
use finshield_ai.OfficialSources.{string_eq}
use finshield_ai.Profiles.{
  not_found, resource, Call, create, get, delete, new_resource, answers, run, no_profiles, handle,
  create_profile, get_profile, find_profile, found, owned_by, delete_found,
}
use finshield_ai.Profiles.Abstract.{Replays, held}
use finshield_ai.Profiles.Refinement.{answers-Replays}

-- A profile of one owner, which another one asks for and deletes.
abbrev calls : List (Call ℕ)
calls = create "id" 5 7 "anna" ∷ get "id" "boris" ∷ delete "id" "boris" ∷ get "id" "anna" ∷ []

others_see_nothing :
    answers 10 calls no_profiles
    ≡ ok (resource (new_resource "id" 5 7))
      ∷ err not_found
      ∷ err not_found
      ∷ ok (resource (new_resource "id" 5 7))
      ∷ []
unfolding answers handle create_profile get_profile find_profile found owned_by delete_found get_key
    put_key
others_see_nothing = refl

answers-Replays_example :
    Replays 10 (λ id. none) calls (answers 10 calls no_profiles) (held (run 10 calls no_profiles))
answers-Replays_example = answers-Replays 10 calls
