-- ===== src/RequestLimit/Replies.antt =====
-- What a client gets from a limited application of app/core/request_limits.py.
use mathlib.Core.List.{append-nil}
use finshield_ai.Base.{
  ℕ, ◌+◌, ◌≡◌, refl, sym, Bool, true, false, ◌&&◌, ◌||◌, Option, List, [], ◌∷◌, ltb, if◌then◌else◌,
  arith, Bool-cases, inl, inr, ◌∙◌, ap,
}
use finshield_ai.RequestLimit.{
  Incoming, request, disconnect, Outgoing, Event, receives, sends, passed, too_large, Limits,
  is_start, is_over, counting_receive, limiting_send, finish, run, no_limits, unlimited, call,
}

module _ (max_bytes : ℕ) where
  -- Whether more bytes come than the limit before the response starts, after so many.
  unfoldable pub is_over_before_start : List Event → ℕ → Bool
  is_over_before_start [] received = false
  is_over_before_start (receives disconnect ∷ events) received =
      is_over_before_start events received
  is_over_before_start (receives (request size) ∷ events) received =
      ltb max_bytes (received + size) || is_over_before_start events (received + size)
  is_over_before_start (sends message ∷ events) received = false

  -- A run in which the response starts before its body is sent, as ASGI asks of an application.
  unfoldable pub starts_first : List Event → Bool
  starts_first [] = true
  starts_first (receives message ∷ events) = starts_first events
  starts_first (sends message ∷ events) = is_start message

  receive-keeps :
      (message : Incoming) (limits : Limits)
      → ((counting_receive max_bytes message limits).1.response_started ≡ limits.response_started)
        × ((counting_receive max_bytes message limits).1.rejected ≡ limits.rejected)
        × ((limits.exceeded || (counting_receive max_bytes message limits).1.exceeded)
            ≡ (counting_receive max_bytes message limits).1.exceeded)
  unfolding counting_receive
  receive-keeps disconnect limits = ground arith
  receive-keeps (request size) limits = elim (Bool-cases (ltb max_bytes (limits.received + size))) [
    | inl e ↦ rw e (ground arith)
    | inr e ↦ rw e (ground arith)
  ]

  send-started :
      (message : Outgoing) (limits : Limits)
      → limits.response_started ≡ true
      → ((limiting_send max_bytes message limits).0 ≡ passed message ∷ [])
        × ((limiting_send max_bytes message limits).1.response_started ≡ true)
  unfolding limiting_send
  send-started message limits h = elim (Bool-cases limits.exceeded) [
    | inl e ↦ rw (e, h) (refl, ground arith)
    | inr e ↦ rw (e, h) (refl, ground arith)
  ]

  run-started :
      (events : List Event) (limits : Limits)
      → limits.response_started ≡ true
      → run max_bytes events limits ≡ unlimited events
  unfolding run unlimited finish
  run-started [] limits h = ground arith
  run-started (receives message ∷ events) limits h =
      run-started events (counting_receive max_bytes message limits).1
        ((receive-keeps message limits).0 ∙ h)
  run-started (sends message ∷ events) limits h = rw ((send-started message limits h).0) (
      ap (λ rest. passed message ∷ rest)
        (run-started events (limiting_send max_bytes message limits).1
          (send-started message limits h).1))

  send-exceeded :
      (message : Outgoing) (limits : Limits)
      → limits.response_started ≡ false
      → limits.exceeded ≡ true
      → ((limiting_send max_bytes message limits).0
          ≡ (if limits.rejected then [] else too_large ∷ []))
        × ((limiting_send max_bytes message limits).1.response_started ≡ false)
        × ((limiting_send max_bytes message limits).1.exceeded ≡ true)
        × ((limiting_send max_bytes message limits).1.rejected ≡ true)
  unfolding limiting_send
  send-exceeded message limits h k = ground arith

  or_true : (a b : Bool) → a ≡ true → (a || b) ≡ b → b ≡ true
  or_true a b h e = ground arith

  run-exceeded :
      (events : List Event) (limits : Limits)
      → limits.response_started ≡ false
      → limits.exceeded ≡ true
      → run max_bytes events limits ≡ (if limits.rejected then [] else too_large ∷ [])
  unfolding run finish
  run-exceeded [] limits h k = ground arith
  run-exceeded (receives message ∷ events) limits h k =
      rw
        (
          run-exceeded events (counting_receive max_bytes message limits).1
              ((receive-keeps message limits).0 ∙ h)
              (or_true limits.exceeded _ k (receive-keeps message limits).2),
          (receive-keeps message limits).1,
        )
        refl
  run-exceeded (sends message ∷ events) limits h k =
      let sent = send-exceeded message limits h k in
      rw
        (
          sent.0,
          run-exceeded events (limiting_send max_bytes message limits).1 sent.1 sent.2,
          sent.3,
        )
        (append-nil (if limits.rejected then [] else too_large ∷ []))

  send-open :
      (message : Outgoing) (limits : Limits)
      → limits.exceeded ≡ false
      → is_start message ≡ true
      → ((limiting_send max_bytes message limits).0 ≡ passed message ∷ [])
        × ((limiting_send max_bytes message limits).1.response_started ≡ true)
  unfolding limiting_send
  send-open message limits h k = ground arith

  receive-over :
      (size : ℕ) (limits : Limits)
      → ltb max_bytes (limits.received + size) ≡ true
      → (counting_receive max_bytes (request size) limits).1.exceeded ≡ true
  unfolding counting_receive
  receive-over size limits e = rw e refl

  receive-within :
      (size : ℕ) (limits : Limits)
      → ltb max_bytes (limits.received + size) ≡ false
      → ((counting_receive max_bytes (request size) limits).1.exceeded ≡ limits.exceeded)
        × ((counting_receive max_bytes (request size) limits).1.received ≡ limits.received + size)
  unfolding counting_receive
  receive-within size limits e = rw e (refl, refl)

  receive-disconnect : (limits : Limits) → (counting_receive max_bytes disconnect limits).1 ≡ limits
  unfolding counting_receive
  receive-disconnect limits = refl

  run-open :
      (events : List Event) (limits : Limits)
      → limits.response_started ≡ false
      → limits.exceeded ≡ false
      → limits.rejected ≡ false
      → starts_first events ≡ true
      → run max_bytes events limits
        ≡ (if is_over_before_start events limits.received then too_large ∷ [] else unlimited events)
  unfolding run unlimited finish is_over_before_start starts_first
  run-open [] limits h k r f = ground arith
  run-open (receives disconnect ∷ events) limits h k r f =
      rw (receive-disconnect limits) (run-open events limits h k r f)
  run-open (receives (request size) ∷ events) limits h k r f =
      let after = (counting_receive max_bytes (request size) limits).1 in
      let kept = receive-keeps (request size) limits in
      elim (Bool-cases (ltb max_bytes (limits.received + size))) [
        | inl e ↦
            rw (e, run-exceeded events after (kept.0 ∙ h) (receive-over size limits e), kept.1 ∙ r)
              refl
        | inr e ↦
            let (same, sum) = receive-within size limits e in
            rw (e, sym sum) (run-open events after (kept.0 ∙ h) (same ∙ k) (kept.1 ∙ r) f)
      ]
  run-open (sends message ∷ events) limits h k r f =
      let (out, started) = send-open message limits k f in
      rw (out, run-started events (limiting_send max_bytes message limits).1 started) refl

-- Over an application that starts its response before it sends the body, a client of a request gets
-- exactly one response 413 and nothing of the application's if the declared length is over the limit or
-- more bytes than it come before the response starts, and otherwise what the application sends, in its
-- order; other scopes are passed through.
pub call-replies :
    (is_http : Bool) (declared : Option ℕ) (max_bytes : ℕ) (events : List Event)
    → starts_first max_bytes events ≡ true
    → call is_http declared max_bytes events ≡ (
        if is_http && (is_over max_bytes declared || is_over_before_start max_bytes events 0)
        then too_large ∷ []
        else unlimited events)
unfolding call
call-replies false declared max_bytes events f = refl
call-replies true declared max_bytes events f = elim (Bool-cases (is_over max_bytes declared)) [
  | inl e ↦ rw e refl
  | inr e ↦ rw e (run-open max_bytes events no_limits refl refl refl f)
]
