-- ===== src/Sessions/Tokens.antt =====
-- What a token is good for: app/services/auth_sessions.py.
use finshield_ai.Base.{
  ℕ, ◌+◌, String, ◌≡◌, refl, true, false, not, ◌&&◌, ◌||◌, ltb, leb, none, some, List, [], ◌∷◌,
  ◌++◌, ok, err, ◌==◌, if◌then◌else◌, arith, Bool-cases, inl, inr, beq_refl,
}
use finshield_ai.OfficialSources.{string_eq}
use finshield_ai.Sessions.Store.{
  SessionPrincipal, Session, Sessions, not_found, lookup, select_sessions, get, delete,
}
use finshield_ai.Sessions.Owners.{with_session, create-fresh}
use finshield_ai.Sessions.Service.{authenticate, issue, revoke}

lookup-append :
    (h : String) (p : SessionPrincipal) (sessions : List Session)
    → lookup h sessions ≡ none
    → lookup h (sessions ++ record { token_hash = h; principal = p } ∷ []) ≡ some p
unfolding lookup
lookup-append h p [] e = rw (beq_refl h) refl
lookup-append h p (s ∷ sessions) e = elim (Bool-cases (s.token_hash == h)) [
  | inl found ↦ cc (rw found at e)
  | inr later ↦ rw later (lookup-append h p sessions (rw later at e))
]

lookup-delete :
    (h : String) (sessions : List Session)
    → lookup h (select_sessions (λ s. not (s.token_hash == h)) sessions) ≡ none
unfolding lookup select_sessions
lookup-delete h [] = refl
lookup-delete h (s ∷ sessions) = elim (Bool-cases (s.token_hash == h)) [
  | inl found ↦ rw found (lookup-delete h sessions)
  | inr later ↦ rw (later, later) (lookup-delete h sessions)
]

get-lookup :
    (h : String) (now : ℕ) (state : Sessions) (p : SessionPrincipal)
    → lookup h state.sessions ≡ some p
    → get h now state ≡ (if leb p.expires_at now then err not_found else ok p)
unfolding get
get-lookup h now state p e = rw (get, e) refl

get-delete : (h : String) (now : ℕ) (state : Sessions) → get h now (delete h state) ≡ err not_found
unfolding get delete
get-delete h now state = rw (get, lookup-delete h state.sessions) refl

module _ (token_hash : String → String) (token_length : String → ℕ) where
  -- For a fresh token of 32 to 256 characters whose hash no session has, the session that is issued
  -- is the one that the token authenticates until it expires, and none from then on.
  pub authenticate-issue :
      (ttl now later : ℕ) (token user : String) (state : Sessions)
      → (ltb (token_length token) 32 || ltb 256 (token_length token)) ≡ false
      → lookup (token_hash token) state.sessions ≡ none
      → authenticate token_hash token_length token later
          (issue token_hash token_length ttl token user now state).1
        ≡ (if leb (now + ttl) later
            then err not_found
            else ok (record { user_id = user; created_at = now; expires_at = now + ttl }))
  unfolding authenticate issue
  authenticate-issue ttl now later token user state h e =
      rw (h, create-fresh (token_hash token) fresh state e)
        (get-lookup (token_hash token) later (with_session (token_hash token) fresh state) fresh
          (lookup-append (token_hash token) fresh state.sessions e))
    where
      fresh : SessionPrincipal
      fresh = record { user_id = user; created_at = now; expires_at = now + ttl }

  -- Once a token that is not empty is revoked, it authenticates nobody, at any time.
  pub authenticate-revoke :
      (now : ℕ) (token : String) (state : Sessions)
      → (token == "") ≡ false
      → authenticate token_hash token_length token now
          (revoke token_hash token_length (some token) state)
        ≡ err not_found
  unfolding authenticate revoke
  authenticate-revoke now token state h =
      elim (Bool-cases (ltb (token_length token) 32 || ltb 256 (token_length token))) [
        | inl bad ↦ rw bad refl
        | inr good ↦ rw (h, good, in_range good) (get-delete (token_hash token) now state)
      ]
    where
      in_range :
          (ltb (token_length token) 32 || ltb 256 (token_length token)) ≡ false
          → (leb 32 (token_length token) && leb (token_length token) 256) ≡ true
      in_range g = ground arith
