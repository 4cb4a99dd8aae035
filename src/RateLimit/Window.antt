-- ===== src/RateLimit/Window.antt =====
-- The windows of app/services/rate_limits.py, and the time until a retry.
use native.Mathlib.Nat.{mod-lt, mod-le}
use finshield_ai.Base.{ℕ, ◌+◌, ◌-◌, ◌*◌, ◌/◌, ◌%◌, ◌≤◌, ◌<◌, ◌≡◌, refl, max, some, arith}
use finshield_ai.RateLimit.Policies.{RateLimitPolicy}
use finshield_ai.RateLimit.Service.{floor_to_window, window_end_of, decide}

around :
    (now seconds rest w : ℕ)
    → seconds ≡ now / 1000000
    → rest ≤ seconds
    → rest < w
    → ((seconds - rest) * 1000000 ≤ now) × (now < (seconds - rest) * 1000000 + w * 1000000)
around now seconds rest w e h k = (omega arith, omega arith)

-- A window holds the time of the request: it starts at or before it and ends after it.
window_holds :
    (now : ℕ) (p : RateLimitPolicy)
    → 0 < p.window_seconds
    → (floor_to_window now p.window_seconds ≤ now) × (now < window_end_of now p)
unfolding floor_to_window window_end_of
window_holds now p h =
    around now (now / 1000000) ((now / 1000000) % p.window_seconds) p.window_seconds refl
      (mod-le (now / 1000000) p.window_seconds) (mod-lt (now / 1000000) h)

retry_bounds :
    (now start w : ℕ)
    → 0 < w
    → start ≤ now
    → (1 ≤ max ((start + w * 1000000 - now) / 1000000) 1)
      × (max ((start + w * 1000000 - now) / 1000000) 1 ≤ w)
retry_bounds now start w h k = (omega arith, omega arith)

-- For a policy whose window is not empty, the window of a request starts at or before it and ends
-- after it, and the seconds until a retry that a counted request is told are at least one and at
-- most the length of the window.
pub decide-retry_after :
    (now : ℕ) (p : RateLimitPolicy) (hits : ℕ)
    → 0 < p.window_seconds
    → (floor_to_window now p.window_seconds ≤ now)
      × (now < window_end_of now p)
      × (1 ≤ (decide now p (some hits)).retry_after_seconds)
      × ((decide now p (some hits)).retry_after_seconds ≤ p.window_seconds)
unfolding decide window_end_of
decide-retry_after now p hits h =
    let (before, after) = window_holds now p h in
    let (least, most) =
      retry_bounds now (floor_to_window now p.window_seconds) p.window_seconds h before in
    (before, after, least, most)
