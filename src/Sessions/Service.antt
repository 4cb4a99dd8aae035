-- ===== src/Sessions/Service.antt =====
-- `AuthSessionService` of app/services/auth_sessions.py. `token_hash` stands for the hexadecimal
-- digest of SHA-256, `token_length` for the number of characters of a token; a fresh token and a
-- fresh user are arguments.
use finshield_ai.Base.{
  ℕ, ◌+◌, String, not, ◌&&◌, ◌||◌, ltb, leb, Option, none, some, Result, ok, err, ◌>>=◌, ◌==◌,
  if◌then◌else◌,
}
use finshield_ai.OfficialSources.{string_eq}
use finshield_ai.Sessions.Store.{
  SessionPrincipal, Sessions, SessionError, not_found, create, get, delete, delete_user,
}

pub record SessionIssue : Type 0 where
  pub principal : SessionPrincipal
  pub raw_token : Option String

module _ (token_hash : String → String) (token_length : String → ℕ) where
  unfoldable pub authenticate : String → ℕ → Sessions → Result SessionError SessionPrincipal
  authenticate raw_token now state =
      if ltb (token_length raw_token) 32 || ltb 256 (token_length raw_token)
      then err not_found
      else get (token_hash raw_token) now state

  -- A new session of `bootstrap`, for the fresh token and user.
  unfoldable pub issue :
      ℕ → String → String → ℕ → Sessions → Result SessionError SessionIssue × Sessions
  issue ttl fresh_token fresh_user now state =
      let (created, after) =
        create (token_hash fresh_token)
          (record { user_id = fresh_user; created_at = now; expires_at = now + ttl }) state in
      (
        created >>= λ principal.
            ok (record { principal = principal; raw_token = some fresh_token }),
        after,
      )

  -- `bootstrap`, where the token that was sent is authenticated to the given result: the only error
  -- of authentication is the one that is caught.
  unfoldable pub bootstrap_with :
      Result SessionError SessionPrincipal
      → ℕ
      → String
      → String
      → ℕ
      → Sessions
      → Result SessionError SessionIssue × Sessions
  bootstrap_with (ok principal) ttl fresh_token fresh_user now state =
      (ok (record { principal = principal; raw_token = none }), state)
  bootstrap_with (err e) ttl fresh_token fresh_user now state =
      issue ttl fresh_token fresh_user now state

  unfoldable pub bootstrap :
      ℕ
      → String
      → String
      → Option String
      → ℕ
      → Sessions
      → Result SessionError SessionIssue × Sessions
  bootstrap ttl fresh_token fresh_user none now state = issue ttl fresh_token fresh_user now state
  bootstrap ttl fresh_token fresh_user (some raw_token) now state =
      if raw_token == ""
      then issue ttl fresh_token fresh_user now state
      else bootstrap_with (authenticate raw_token now state) ttl fresh_token fresh_user now state

  unfoldable pub revoke : Option String → Sessions → Sessions
  revoke none state = state
  revoke (some raw_token) state =
      if not (raw_token == "")
        && (leb 32 (token_length raw_token) && leb (token_length raw_token) 256)
      then delete (token_hash raw_token) state
      else state

  -- `delete_account`, once the token is authenticated.
  unfoldable pub delete_account_of :
      Result SessionError SessionPrincipal → String → Sessions → Result SessionError Unit × Sessions
  delete_account_of (err e) user_id state = (err e, state)
  delete_account_of (ok principal) user_id state =
      if not (principal.user_id == user_id)
      then (err not_found, state)
      else (ok tt, delete_user principal.user_id state)

  unfoldable pub delete_account :
      Option String → String → ℕ → Sessions → Result SessionError Unit × Sessions
  delete_account none user_id now state = (err not_found, state)
  delete_account (some raw_token) user_id now state =
      if raw_token == ""
      then (err not_found, state)
      else delete_account_of (authenticate raw_token now state) user_id state
