-- ===== src/Sessions/Tests.antt =====
-- The sessions at concrete inputs.
use finshield_ai.Base.{
  ℕ, ◌+◌, String, ◌≡◌, refl, true, leb, none, some, [], ◌∷◌, ok, err, if◌then◌else◌,
}
use finshield_ai.Sessions.Store.{
  SessionPrincipal, Sessions, not_found, lookup, create, cleanup_expired, get,
}
use finshield_ai.Sessions.Owners.{
  IsOwned, IsReachable, empty, step, created, cleaned, IsReachable-IsOwned,
}
use finshield_ai.Sessions.Deletion.{Deletes, delete_account-Deletes, delete_account-authenticated}
use finshield_ai.Sessions.Service.{authenticate, issue, revoke, delete_account, delete_account_of}
use finshield_ai.Sessions.Tokens.{authenticate-issue, authenticate-revoke}

abbrev same : String → String
same s = s

abbrev forty : String → ℕ
forty s = 40

abbrev guest : SessionPrincipal
guest = record { user_id = "u1"; created_at = 3; expires_at = 13 }

abbrev one_session : Sessions
one_session = record {
  sessions = record { token_hash = "t1"; principal = guest } ∷ [];
  users = "u1" ∷ [];
}

abbrev no_session : Sessions
no_session = record { sessions = []; users = [] }

t2_is_fresh : lookup "t2" one_session.sessions ≡ none
unfolding lookup
t2_is_fresh = refl

authenticate-issue_example :
    authenticate same forty "t2" 12 (issue same forty 10 "t2" "u2" 5 one_session).1 ≡ (
      if leb (5 + 10) 12
      then err not_found
      else ok (record { user_id = "u2"; created_at = 5; expires_at = 5 + 10 }))
authenticate-issue_example =
    authenticate-issue same forty 10 5 12 "t2" "u2" one_session refl t2_is_fresh

authenticate-revoke_example :
    authenticate same forty "t1" 4 (revoke same forty (some "t1") one_session) ≡ err not_found
authenticate-revoke_example = authenticate-revoke same forty 4 "t1" one_session refl

abbrev after_creation : Sessions
after_creation = (create "t1" guest no_session).1

reached : IsReachable (cleanup_expired 20 true after_creation).1
reached =
    step after_creation (cleanup_expired 20 true after_creation).1
      (step no_session after_creation empty (created "t1" guest no_session))
      (cleaned 20 true after_creation)

IsReachable-IsOwned_example :
    IsOwned
      (cleanup_expired 20 true after_creation).1.sessions
      (cleanup_expired 20 true after_creation).1.users
IsReachable-IsOwned_example = IsReachable-IsOwned (cleanup_expired 20 true after_creation).1 reached

delete_account-Deletes_example :
    Deletes "u1" one_session (delete_account same forty (some "t1") "u1" 4 one_session)
delete_account-Deletes_example = delete_account-Deletes same forty (some "t1") "u1" 4 one_session

guest_deletes : (delete_account same forty (some "t1") "u1" 4 one_session).0 ≡ ok tt
unfolding delete_account delete_account_of authenticate get lookup
guest_deletes = refl

delete_account-authenticated_example :
    (p : SessionPrincipal) × (authenticate same forty "t1" 4 one_session ≡ ok p)
    × (p.user_id ≡ "u1")
delete_account-authenticated_example =
    delete_account-authenticated same forty "t1" "u1" 4 one_session guest_deletes
