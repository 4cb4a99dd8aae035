-- ===== src/Housing/Ratio/Rounding.antt =====
-- The quantum of 0.1 in app/domain/housing/deposit_risk.py.
use native.Mathlib.Nat.{div-add-mod, mod-lt, pow-suc}
use finshield_ai.Base.{ℕ, zero, suc, ◌+◌, ◌*◌, ◌/◌, ◌%◌, ◌^◌, ◌≤◌, ◌<◌, ◌≡◌, arith}
use finshield_ai.Housing.Ratio.{quantize}

power_positive : (s : ℕ) → 0 < 2 * 10 ^ s
power_positive zero = omega arith
power_positive (suc s) = rw (pow-suc 10 s) (doubled (10 ^ s) (power_positive s))
  where
    doubled : (x : ℕ) → 0 < 2 * x → 0 < 2 * (x * 10)
    doubled x h = omega arith

half_up :
    (m r n d : ℕ)
    → m + r ≡ 2 * (n * 1000) + d
    → r < 2 * d
    → (m ≤ 2 * (n * 1000) + d) × (2 * (n * 1000) + d < m + 2 * d)
half_up m r n d e h = (omega arith, omega arith)

-- The rounding of a percentage to a multiple of 0.1 takes the nearest one, and of two the higher.
pub quantize-near :
    (n s : ℕ)
    → (2 * 10 ^ s * quantize (n, s) ≤ 2 * (n * 1000) + 10 ^ s)
      × (2 * (n * 1000) + 10 ^ s < 2 * 10 ^ s * quantize (n, s) + 2 * 10 ^ s)
unfolding quantize
quantize-near n s =
    half_up (2 * 10 ^ s * ((2 * (n * 1000) + 10 ^ s) / (2 * 10 ^ s)))
      ((2 * (n * 1000) + 10 ^ s) % (2 * 10 ^ s)) n (10 ^ s)
      (div-add-mod (2 * (n * 1000) + 10 ^ s) (2 * 10 ^ s))
      (mod-lt (2 * (n * 1000) + 10 ^ s) (power_positive s))
