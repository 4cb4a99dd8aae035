-- ===== src/Sessions/Owners.antt =====
-- Every session belongs to a user that is known: app/repositories/auth_sessions.py.
use finshield_ai.Base.{
  ℕ, String, ◌≡◌, refl, Bool, true, false, not, none, some, List, [], ◌∷◌, ◌++◌, map, mem, add,
  discard, update, mem-add, mem-discard, mem-update, or-false, ok, err, arith, Option-cases, inl,
  inr, Bool-cases,
}
use finshield_ai.OfficialSources.{string_eq}
use finshield_ai.Sessions.Store.{
  SessionPrincipal, Session, Sessions, storage_error, lookup, select_sessions, select_users,
  active_users, is_expired, create, delete, delete_user, cleanup_expired,
}

-- The user of each session is one of the users.
abbrev pub IsOwned : List Session → List String → Type 0
IsOwned [] users = Unit
IsOwned (s ∷ sessions) users = (mem s.principal.user_id users ≡ true) × IsOwned sessions users

IsOwned-more :
    (sessions : List Session) (users more : List String)
    → ((u : String) → mem u users ≡ true → mem u more ≡ true)
    → IsOwned sessions users
    → IsOwned sessions more
IsOwned-more [] users more f h = tt
IsOwned-more (s ∷ sessions) users more f h =
    (f s.principal.user_id h.0, IsOwned-more sessions users more f h.1)

IsOwned-append :
    (sessions : List Session) (s : Session) (users : List String)
    → IsOwned sessions users
    → mem s.principal.user_id users ≡ true
    → IsOwned (sessions ++ s ∷ []) users
IsOwned-append [] s users h k = (k, tt)
IsOwned-append (x ∷ sessions) s users h k = (h.0, IsOwned-append sessions s users h.1 k)

-- A choice of the sessions is owned by users that hold those chosen.
IsOwned-select :
    (p : Session → Bool) (sessions : List Session) (users more : List String)
    → ((s : Session)
        → p s ≡ true
        → mem s.principal.user_id users ≡ true
        → mem s.principal.user_id more ≡ true)
    → IsOwned sessions users
    → IsOwned (select_sessions p sessions) more
unfolding select_sessions
IsOwned-select p [] users more f h = tt
IsOwned-select p (s ∷ sessions) users more f h = elim (Bool-cases (p s)) [
  | inl e ↦ rw e (f s e h.0, IsOwned-select p sessions users more f h.1)
  | inr e ↦ rw e (IsOwned-select p sessions users more f h.1)
]

-- The state after a session is created under a hash that none has.
abbrev pub with_session : String → SessionPrincipal → Sessions → Sessions
with_session h p state = record {
  sessions = state.sessions ++ record { token_hash = h; principal = p } ∷ [];
  users = add p.user_id state.users;
}

pub create-fresh :
    (h : String) (p : SessionPrincipal) (state : Sessions)
    → lookup h state.sessions ≡ none
    → create h p state ≡ (ok p, with_session h p state)
unfolding create
create-fresh h p state e = rw (create, e) refl

create-taken :
    (h : String) (p q : SessionPrincipal) (state : Sessions)
    → lookup h state.sessions ≡ some q
    → create h p state ≡ (err storage_error, state)
unfolding create
create-taken h p q state e = rw (create, e) refl

with_session-IsOwned :
    (h : String) (p : SessionPrincipal) (state : Sessions)
    → IsOwned state.sessions state.users
    → IsOwned (with_session h p state).sessions (with_session h p state).users
with_session-IsOwned h p state k =
    IsOwned-append state.sessions (record { token_hash = h; principal = p })
      (add p.user_id state.users)
      (IsOwned-more state.sessions state.users (add p.user_id state.users)
        (λ u m. ground (arith, mem-add u p.user_id state.users)) k)
      (ground
        (arith, mem-add p.user_id p.user_id state.users, string_eq.beq_iff p.user_id p.user_id))

create-IsOwned :
    (h : String) (p : SessionPrincipal) (state : Sessions)
    → IsOwned state.sessions state.users
    → IsOwned (create h p state).1.sessions (create h p state).1.users
create-IsOwned h p state k = elim (Option-cases (lookup h state.sessions)) [
  | inl e ↦ rw (create-fresh h p state e) (with_session-IsOwned h p state k)
  | inr (q, e) ↦ rw (create-taken h p q state e) k
]

delete-IsOwned :
    (h : String) (state : Sessions)
    → IsOwned state.sessions state.users
    → IsOwned (delete h state).sessions (delete h state).users
unfolding delete
delete-IsOwned h state k = IsOwned-select _ state.sessions state.users state.users (λ s e m. m) k

delete_user-IsOwned :
    (u : String) (state : Sessions)
    → IsOwned state.sessions state.users
    → IsOwned (delete_user u state).sessions (delete_user u state).users
unfolding delete_user
delete_user-IsOwned u state k =
    IsOwned-select _ state.sessions state.users (discard u state.users)
      (λ s e m. ground (
        arith,
        mem-discard s.principal.user_id u state.users,
        string_eq.beq_iff s.principal.user_id u,
      ))
      k

mem-select_users :
    (q : String → Bool) (users : List String) (u : String)
    → q u ≡ true
    → mem u users ≡ true
    → mem u (select_users q users) ≡ true
unfolding select_users
mem-select_users q [] u h k = cc
mem-select_users q (x ∷ users) u h k =
    ground (arith, mem-select_users q users u h, string_eq.beq_iff u x)

-- Sessions are owned by their own users.
IsOwned-self :
    (sessions : List Session) → IsOwned sessions (map (λ s. s.principal.user_id) sessions)
IsOwned-self [] = tt
IsOwned-self (s ∷ sessions) = (
  ground (arith, string_eq.beq_iff s.principal.user_id s.principal.user_id),
  IsOwned-more sessions (map (λ x. x.principal.user_id) sessions) _ (λ u m. ground arith)
      (IsOwned-self sessions),
)

IsOwned-both :
    (sessions : List Session) (a b c : List String)
    → ((u : String) → mem u a ≡ true → mem u b ≡ true → mem u c ≡ true)
    → IsOwned sessions a
    → IsOwned sessions b
    → IsOwned sessions c
IsOwned-both [] a b c f h k = tt
IsOwned-both (s ∷ sessions) a b c f h k =
    (f s.principal.user_id h.0 k.0, IsOwned-both sessions a b c f h.1 k.1)

kept-IsOwned :
    (now : ℕ) (sessions : List Session) (users : List String)
    → IsOwned sessions users
    → IsOwned
        (select_sessions (λ s. not (is_expired now s)) sessions)
        (select_users (λ u. mem u (active_users now sessions)) users)
unfolding active_users
kept-IsOwned now sessions users k =
    let kept = select_sessions (λ s. not (is_expired now s)) sessions in
    IsOwned-both kept (map (λ s. s.principal.user_id) kept) users _
      (λ u m n.
        mem-select_users (λ v. mem v (update (map (λ s. s.principal.user_id) kept) [])) users u
          (rw (mem-update, or-false) m) n)
      (IsOwned-self kept)
      (IsOwned-select (λ s. not (is_expired now s)) sessions users users (λ s e m. m) k)

cleanup_expired-IsOwned :
    (now : ℕ) (execute : Bool) (state : Sessions)
    → IsOwned state.sessions state.users
    → IsOwned
        (cleanup_expired now execute state).1.sessions
        (cleanup_expired now execute state).1.users
unfolding cleanup_expired
cleanup_expired-IsOwned now true state k = kept-IsOwned now state.sessions state.users k
cleanup_expired-IsOwned now false state k = k

-- One call of an operation of the repository that changes its state.
pub data Step : Sessions → Sessions → Type 0 where
  created : (h : String) (p : SessionPrincipal) (state : Sessions) → Step state (create h p state).1
  deleted : (h : String) (state : Sessions) → Step state (delete h state)
  user_deleted : (u : String) (state : Sessions) → Step state (delete_user u state)
  cleaned :
      (now : ℕ) (execute : Bool) (state : Sessions)
      → Step state (cleanup_expired now execute state).1

-- The states that calls reach from the empty repository.
pub data IsReachable : Sessions → Type 0 where
  empty : IsReachable (record { sessions = []; users = [] })
  step : (s t : Sessions) → IsReachable s → Step s t → IsReachable t

-- In every state that calls of the repository reach from the empty one, each session belongs to a
-- user that is known.
pub IsReachable-IsOwned : (s : Sessions) → IsReachable s → IsOwned s.sessions s.users
IsReachable-IsOwned _ empty = tt
IsReachable-IsOwned _ (step s _ r (created h p _)) = create-IsOwned h p s (IsReachable-IsOwned s r)
IsReachable-IsOwned _ (step s _ r (deleted h _)) = delete-IsOwned h s (IsReachable-IsOwned s r)
IsReachable-IsOwned _ (step s _ r (user_deleted u _)) =
    delete_user-IsOwned u s (IsReachable-IsOwned s r)
IsReachable-IsOwned _ (step s _ r (cleaned now execute _)) =
    cleanup_expired-IsOwned now execute s (IsReachable-IsOwned s r)
