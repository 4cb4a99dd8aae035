-- ===== src/Sessions/Deletion.antt =====
-- The deletion of an account: app/services/auth_sessions.py.
use finshield_ai.Base.{
  ℕ, String, ◌≡◌, refl, Bool, true, false, not, Option, none, some, List, [], ◌∷◌, all, mem,
  mem-discard, Result, ok, err, ◌==◌, beq_refl, arith, Bool-cases, inl, inr,
}
use finshield_ai.OfficialSources.{string_eq}
use finshield_ai.Sessions.Store.{
  SessionPrincipal, Session, Sessions, SessionError, select_sessions, delete_user,
}
use finshield_ai.Sessions.Service.{authenticate, delete_account, delete_account_of}

-- What a deletion does, by its result: an error changes nothing, and else the user and all of the
-- user's sessions are gone.
abbrev pub Deletes : String → Sessions → Result SessionError Unit × Sessions → Type 0
Deletes user_id before (err e, after) = after ≡ before
Deletes user_id before (ok u, after) =
    (all (λ s. not (s.principal.user_id == user_id)) after.sessions ≡ true)
    × (mem user_id after.users ≡ false)

all-select_sessions :
    (p : Session → Bool) (sessions : List Session) → all p (select_sessions p sessions) ≡ true
unfolding select_sessions
all-select_sessions p [] = refl
all-select_sessions p (s ∷ sessions) = ground (arith, all-select_sessions p sessions)

delete_user-Deletes :
    (user_id : String) (state : Sessions) → Deletes user_id state (ok tt, delete_user user_id state)
unfolding delete_user
delete_user-Deletes user_id state = (
  all-select_sessions (λ s. not (s.principal.user_id == user_id)) state.sessions,
  rw (mem-discard, beq_refl user_id) refl,
)

delete_account_of-Deletes :
    (token_hash : String → String) (token_length : String → ℕ) (user_id : String) (state : Sessions)
    (r : Result SessionError SessionPrincipal)
    → Deletes user_id state (delete_account_of token_hash token_length r user_id state)
unfolding delete_account_of
delete_account_of-Deletes token_hash token_length user_id state (err e) = refl
delete_account_of-Deletes token_hash token_length user_id state (ok p) =
    elim (Bool-cases (p.user_id == user_id)) [
      | inl same ↦
          rw (same, (string_eq.beq_iff p.user_id user_id).0 same)
            (delete_user-Deletes user_id state)
      | inr other ↦ rw other refl
    ]

-- The deletion of an account either fails and changes nothing, or leaves neither the user nor any
-- session of the user.
pub delete_account-Deletes :
    (token_hash : String → String) (token_length : String → ℕ) (token : Option String)
    (user_id : String) (now : ℕ) (state : Sessions)
    → Deletes user_id state (delete_account token_hash token_length token user_id now state)
unfolding delete_account
delete_account-Deletes token_hash token_length none user_id now state = refl
delete_account-Deletes token_hash token_length (some token) user_id now state =
    elim (Bool-cases (token == "")) [
      | inl missing ↦ rw missing refl
      | inr given ↦ rw given (
          delete_account_of-Deletes token_hash token_length user_id state
            (authenticate token_hash token_length token now state))
    ]

deleted_for :
    (token_hash : String → String) (token_length : String → ℕ) (user_id : String) (state : Sessions)
    (r : Result SessionError SessionPrincipal)
    → (delete_account_of token_hash token_length r user_id state).0 ≡ ok tt
    → (p : SessionPrincipal) × (r ≡ ok p) × (p.user_id ≡ user_id)
unfolding delete_account_of
deleted_for token_hash token_length user_id state (err e) h = cc
deleted_for token_hash token_length user_id state (ok p) h =
    elim (Bool-cases (p.user_id == user_id)) [
      | inl same ↦ (p, refl, (string_eq.beq_iff p.user_id user_id).0 same)
      | inr other ↦ cc (rw other at h)
    ]

-- The deletion of an account succeeds only for a token that authenticates its user at that time.
pub delete_account-authenticated :
    (token_hash : String → String) (token_length : String → ℕ) (token user_id : String) (now : ℕ)
    (state : Sessions)
    → (delete_account token_hash token_length (some token) user_id now state).0 ≡ ok tt
    → (p : SessionPrincipal) × (authenticate token_hash token_length token now state ≡ ok p)
      × (p.user_id ≡ user_id)
unfolding delete_account
delete_account-authenticated token_hash token_length token user_id now state h =
    elim (Bool-cases (token == "")) [
      | inl missing ↦ cc (rw missing at h)
      | inr given ↦
          deleted_for token_hash token_length user_id state
            (authenticate token_hash token_length token now state) (rw given at h)
    ]
