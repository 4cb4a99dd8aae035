-- ===== src/Loan/Totals.antt =====
-- The totals of a simulation of app/domain/finance/loan_calculator.py.
use finshield_ai.Base.{ℕ, ◌≤◌, ◌≡◌, List, length, ok}
use finshield_ai.Loan.{Rate, Decimals, PaymentScheduleEntry, scheduled_payment}
use finshield_ai.Loan.Schedule.{last_balance, AreMonths, ArePayments}

-- A schedule that pays a principal off in a number of months.
abbrev pub PaysOff : ℕ → ℕ → List PaymentScheduleEntry → Type 0
PaysOff principal months schedule =
    (length schedule ≡ months)
    × AreMonths 1 schedule
    × ArePayments principal schedule
    × (last_balance principal schedule ≡ 0)

-- What the decimal module computes of a loan: the share of a month, the scheduled payment, and the
-- interest on each balance up to the principal, which is at most the principal and which the scheduled
-- payment covers.
pub record Computes (decimals : Decimals) (principal : ℕ) (rate : Rate) (months : ℕ) : Type 0 where
  pub shared : (n : ℕ) × (decimals.share principal months ≡ ok n)
  pub scheduled :
      (n : ℕ) × (scheduled_payment decimals principal rate months ≡ ok n)
      × ((balance : ℕ)
          → balance ≤ principal
          → (i : ℕ) × (decimals.interest_on rate balance ≡ ok i) × (i ≤ principal) × (i ≤ n))
