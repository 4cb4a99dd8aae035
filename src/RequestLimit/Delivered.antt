-- ===== src/RequestLimit/Delivered.antt =====
-- The bytes that an application behind the middleware of app/core/request_limits.py is given.
use finshield_ai.Base.{
  ℕ, ◌+◌, ◌≤◌, ◌≡◌, ◌⊎◌, refl, true, false, List, [], ◌∷◌, ltb, arith, Bool-cases, inl, inr,
}
use finshield_ai.RequestLimit.{
  Incoming, request, disconnect, Outgoing, Event, receives, sends, Limits, counting_receive,
  limiting_send, bytes_of, delivered, no_limits,
}

module _ (max_bytes : ℕ) where
  send-received :
      (message : Outgoing) (limits : Limits)
      → (limiting_send max_bytes message limits).1.received ≡ limits.received
  unfolding limiting_send
  send-received message limits = ground arith

  receive-bytes :
      (message : Incoming) (limits : Limits)
      → (bytes_of (counting_receive max_bytes message limits).0 ≡ 0)
          × (limits.received ≤ (counting_receive max_bytes message limits).1.received)
        ⊎ ((counting_receive max_bytes message limits).1.received
            ≡ limits.received + bytes_of (counting_receive max_bytes message limits).0)
          × ((counting_receive max_bytes message limits).1.received ≤ max_bytes)
  unfolding counting_receive
  receive-bytes disconnect limits = inl (refl, omega arith)
  receive-bytes (request size) limits = elim (Bool-cases (ltb max_bytes (limits.received + size))) [
    | inl e ↦ rw e (inl (refl, omega arith))
    | inr e ↦ rw e (inr (refl, ground arith))
  ]

  delivered-over :
      (events : List Event) (limits : Limits)
      → ltb max_bytes limits.received ≡ true
      → delivered max_bytes events limits ≡ 0
  unfolding delivered
  delivered-over [] limits h = refl
  delivered-over (receives message ∷ events) limits h = ground (
    arith,
    receive-bytes message limits,
    delivered-over events (counting_receive max_bytes message limits).1,
  )
  delivered-over (sends message ∷ events) limits h =
      delivered-over events (limiting_send max_bytes message limits).1
        (rw (send-received message limits) h)

  delivered-within :
      (events : List Event) (limits : Limits)
      → ltb max_bytes limits.received ≡ false
      → limits.received + delivered max_bytes events limits ≤ max_bytes
  unfolding delivered
  delivered-within [] limits h = ground arith
  delivered-within (receives message ∷ events) limits h = ground (
    arith,
    receive-bytes message limits,
    delivered-over events (counting_receive max_bytes message limits).1,
    delivered-within events (counting_receive max_bytes message limits).1,
  )
  delivered-within (sends message ∷ events) limits h = ground (
    arith,
    send-received message limits,
    delivered-within events (limiting_send max_bytes message limits).1,
  )

-- However an application receives and sends, it is given no more bytes of a body than the limit.
pub delivered-bounded :
    (max_bytes : ℕ) (events : List Event) → delivered max_bytes events no_limits ≤ max_bytes
delivered-bounded max_bytes events = ground (arith, delivered-within max_bytes events no_limits)
