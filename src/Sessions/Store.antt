-- ===== src/Sessions/Store.antt =====
-- `InMemoryAuthSessionRepository` of app/repositories/auth_sessions.py. A time is a number of
-- microseconds since the epoch.
use finshield_ai.Base.{
  ℕ, String, Bool, not, List, [], ◌∷◌, ◌++◌, map, length, mem, add, update, discard, leb, Option,
  none, some, ◌==◌, if◌then◌else◌, Result, ok, err,
}
use finshield_ai.OfficialSources.{string_eq}

pub record SessionPrincipal : Type 0 where
  pub user_id : String
  pub created_at : ℕ
  pub expires_at : ℕ

-- An item of `self._sessions`.
pub record Session : Type 0 where
  pub token_hash : String
  pub principal : SessionPrincipal

pub record Sessions : Type 0 where
  pub sessions : List Session
  pub users : List String

pub data SessionError : Type 0 where
  not_found storage_error : SessionError

pub record AuthCleanupSummary : Type 0 where
  pub expired_sessions : ℕ
  pub anonymous_users : ℕ
  pub financial_profiles : ℕ
  pub executed : Bool

-- `self._sessions.get(token_hash)`
unfoldable pub lookup : String → List Session → Option SessionPrincipal
lookup token_hash [] = none
lookup token_hash (s ∷ sessions) =
    if s.token_hash == token_hash then some s.principal else lookup token_hash sessions

-- The sessions that pass the test, in their order.
unfoldable pub select_sessions : (Session → Bool) → List Session → List Session
select_sessions p [] = []
select_sessions p (s ∷ sessions) =
    let rest = select_sessions p sessions in if p s then s ∷ rest else rest

unfoldable pub create :
    String → SessionPrincipal → Sessions → Result SessionError SessionPrincipal × Sessions
create token_hash principal state = elim (lookup token_hash state.sessions) [
  | some _ ↦ (err storage_error, state)
  | none ↦ (
    ok principal,
    record {
      sessions = state.sessions ++ record { token_hash = token_hash; principal = principal } ∷ [];
      users = add principal.user_id state.users;
    },
  )
]

unfoldable pub get : String → ℕ → Sessions → Result SessionError SessionPrincipal
get token_hash now state = elim (lookup token_hash state.sessions) [
  | none ↦ err not_found
  | some principal ↦ if leb principal.expires_at now then err not_found else ok principal
]

-- `self._sessions.pop(token_hash, None)`
unfoldable pub delete : String → Sessions → Sessions
delete token_hash state = record {
  sessions = select_sessions (λ s. not (s.token_hash == token_hash)) state.sessions;
  users = state.users;
}

unfoldable pub delete_user : String → Sessions → Sessions
delete_user user_id state = record {
  sessions = select_sessions (λ s. not (s.principal.user_id == user_id)) state.sessions;
  users = discard user_id state.users;
}

abbrev pub is_expired : ℕ → Session → Bool
is_expired now s = leb s.principal.expires_at now

-- `self._users - active_users`, and what is left of the users without them.
unfoldable pub select_users : (String → Bool) → List String → List String
select_users p [] = []
select_users p (u ∷ users) = let rest = select_users p users in if p u then u ∷ rest else rest

-- `active_users`
unfoldable pub active_users : ℕ → List Session → List String
active_users now sessions =
    update (map (λ s. s.principal.user_id) (select_sessions (λ s. not (is_expired now s)) sessions))
      []

unfoldable pub cleanup_expired : ℕ → Bool → Sessions → AuthCleanupSummary × Sessions
cleanup_expired now execute state =
    let active = active_users now state.sessions in
    let kept : Sessions = record {
      sessions = select_sessions (λ s. not (is_expired now s)) state.sessions;
      users = select_users (λ u. mem u active) state.users;
    } in
    (
      record {
        expired_sessions = length (select_sessions (is_expired now) state.sessions);
        anonymous_users = length (select_users (λ u. not (mem u active)) state.users);
        financial_profiles = 0;
        executed = execute;
      },
      if execute then kept else state,
    )
