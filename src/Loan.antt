-- ===== src/Loan.antt =====
-- app/domain/finance/loan_calculator.py: the schedule of a loan. An amount is a number of cents, which
-- `_money` rounds to. What the decimal module computes with 40 digits, the interest on a balance, the
-- amount of a constant payment and the share of a month, or raises instead, is a parameter.
pub mod Schedule
pub mod Totals
mod Tests
use finshield_ai.Base.{
  ℕ, zero, suc, ◌+◌, ◌-◌, ◌*◌, ◌^◌, Bool, true, false, not, ◌&&◌, ◌||◌, Option, none, some, List,
  [], ◌∷◌, ltb, leb, nat_beq, min, Result, ok, err, ◌>>=◌, ◌>>◌, raise_if, with_error,
  if◌then◌else◌,
}

pub data RepaymentType : Type 0 where
  equal_principal_and_interest equal_principal : RepaymentType

-- An amount, or one below zero.
pub data Amount : Type 0 where
  plus minus : ℕ → Amount

-- A finite decimal: a coefficient and the number of its digits after the point.
pub record Rate : Type 0 where
  pub coefficient : Amount
  pub places : ℕ

-- What the decimal module may raise.
pub data DecimalError : Type 0 where
  invalid_operation division_by_zero overflow : DecimalError

-- What the decimal module computes of a rate, a principal and a number of months, in cents, or raises:
-- `_money(balance * monthly_rate)`, `_money(principal * monthly_rate * growth / (growth - 1))` and
-- `_money(principal / months)`.
pub record Decimals : Type 0 where
  pub interest_on : Rate → ℕ → Result DecimalError ℕ
  pub constant_payment : Rate → ℕ → ℕ → Result DecimalError ℕ
  pub share : ℕ → ℕ → Result DecimalError ℕ

pub record PaymentScheduleEntry : Type 0 where
  pub month : ℕ
  pub principal_payment : Amount
  pub interest_payment : ℕ
  pub payment : ℕ
  pub remaining_principal : ℕ

pub record LoanSimulation : Type 0 where
  pub principal : ℕ
  pub annual_interest_rate : Rate
  pub months : ℕ
  pub repayment_type : RepaymentType
  pub monthly_payment : Option ℕ
  pub schedule : List PaymentScheduleEntry
  pub total_repayment : ℕ
  pub total_interest : ℕ

-- The causes of ValueError, and an error of the decimal module.
pub data LoanError : Type 0 where
  not_finite bad_principal bad_rate bad_months : LoanError
  decimal_error : DecimalError → LoanError

-- `_money` of an amount of whole cents, in a context of a precision: `quantize` raises InvalidOperation
-- where the result has more digits.
unfoldable pub money : ℕ → ℕ → Result DecimalError ℕ
money precision n = if ltb n (10 ^ precision) then ok n else err invalid_operation

-- The digits of the default context, and of the one of the schedule.
abbrev pub default_precision : ℕ
default_precision = 28

abbrev pub schedule_precision : ℕ
schedule_precision = 40

abbrev pub is_positive : Amount → Bool
is_positive (plus n) = ltb 0 n
is_positive (minus n) = false

-- The distance from zero.
abbrev pub size : Amount → ℕ
size (plus n) = n
size (minus n) = n

-- The number of cents of an amount that is positive.
abbrev pub cents : Amount → ℕ
cents (plus n) = n
cents (minus n) = 0

unfoldable pub is_rate : Rate → Bool
is_rate rate = within rate.coefficient
  where
    within : Amount → Bool
    within (plus n) = leb n (100 * 10 ^ rate.places)
    within (minus zero) = true
    within (minus (suc n)) = false

unfoldable pub is_zero_rate : Amount → Bool
is_zero_rate (plus n) = nat_beq n 0
is_zero_rate (minus n) = nat_beq n 0

-- `_validate_inputs`
unfoldable pub validate_inputs : Amount → Rate → ℕ → Result LoanError Unit
validate_inputs principal rate months =
    raise_if (not (is_positive principal)) bad_principal
    >> raise_if (not (is_rate rate)) bad_rate
    >> raise_if (ltb months 1 || ltb 600 months) bad_months

-- `min(scheduled_payment - interest_payment, balance)`
unfoldable pub regular_principal : ℕ → ℕ → ℕ → Amount
regular_principal scheduled interest balance =
    if leb interest scheduled
    then plus (min (scheduled - interest) balance)
    else minus (interest - scheduled)

-- `balance - principal_payment`, of a payment that is at most the balance
abbrev pub balance_after : ℕ → Amount → ℕ
balance_after balance (plus n) = balance - n
balance_after balance (minus n) = balance + n

-- `principal_payment + interest_payment`, of a payment that is not below zero
abbrev pub paid : Amount → ℕ → ℕ
paid (plus n) interest = n + interest
paid (minus n) interest = interest - n

-- The entry of a month, of an amount of cents that `_money` leaves as it is.
unfoldable pub entry_of : ℕ → ℕ → Amount → ℕ → Result DecimalError PaymentScheduleEntry
unfolding money
entry_of month balance principal_payment interest = do
  remaining ← money schedule_precision (balance_after balance principal_payment)
  payment ← money schedule_precision (paid principal_payment interest)
  ok (record {
    month = month;
    principal_payment = principal_payment;
    interest_payment = interest;
    payment = payment;
    remaining_principal = remaining;
  })

-- The loops of both schedules, by the interest on a balance, the principal payment of a month before the
-- last one, the number of months, the number of rounds that are left, the month and the balance.
unfoldable pub entries :
    (ℕ → Result DecimalError ℕ)
    → (ℕ → ℕ → Amount)
    → ℕ
    → ℕ
    → ℕ
    → ℕ
    → Result DecimalError (List PaymentScheduleEntry)
unfolding entry_of
entries interest_on payment_of months zero month balance = ok []
entries interest_on payment_of months (suc rounds) month balance =
    interest_on balance >>= λ interest.
    let principal_payment =
      if nat_beq month months then plus balance else payment_of interest balance in
    entry_of month balance principal_payment interest >>= λ entry.
    entries interest_on payment_of months rounds (suc month) entry.remaining_principal >>= λ rest.
    ok (entry ∷ rest)

unfoldable pub sum_payments : List PaymentScheduleEntry → ℕ
sum_payments [] = 0
sum_payments (entry ∷ schedule) = entry.payment + sum_payments schedule

unfoldable pub sum_interest : List PaymentScheduleEntry → ℕ
sum_interest [] = 0
sum_interest (entry ∷ schedule) = entry.interest_payment + sum_interest schedule

module _ (decimals : Decimals) where
  open decimals use {interest_on, constant_payment, share}

  -- `scheduled_payment`
  unfoldable pub scheduled_payment : ℕ → Rate → ℕ → Result DecimalError ℕ
  scheduled_payment principal rate months =
      if is_zero_rate rate.coefficient
      then share principal months
      else constant_payment rate principal months

  -- `_equal_principal_and_interest_schedule`
  unfoldable pub equal_principal_and_interest_schedule :
      ℕ → Rate → ℕ → Result DecimalError (Option ℕ × List PaymentScheduleEntry)
  equal_principal_and_interest_schedule principal rate months = do
    scheduled ← scheduled_payment principal rate months
    schedule ← entries (interest_on rate) (regular_principal scheduled) months months 1 principal
    ok (some scheduled, schedule)

  -- `_equal_principal_schedule`
  unfoldable pub equal_principal_schedule :
      ℕ → Rate → ℕ → Result DecimalError (Option ℕ × List PaymentScheduleEntry)
  equal_principal_schedule principal rate months = do
    regular ← share principal months
    schedule ←
        entries (interest_on rate) (λ interest balance. plus (min regular balance)) months months 1
          principal
    ok (none, schedule)

  -- The monthly payment and the schedule of a type of repayment.
  unfoldable pub schedule_of :
      ℕ → Rate → ℕ → RepaymentType → Result DecimalError (Option ℕ × List PaymentScheduleEntry)
  unfolding equal_principal_and_interest_schedule equal_principal_schedule
  schedule_of principal rate months equal_principal_and_interest =
      equal_principal_and_interest_schedule principal rate months
  schedule_of principal rate months equal_principal = equal_principal_schedule principal rate months

  -- The simulation of a principal in cents that was found valid; the totals are those of the default
  -- context again.
  unfoldable pub simulation_of : ℕ → Rate → ℕ → RepaymentType → Result DecimalError LoanSimulation
  unfolding money
  simulation_of principal rate months repayment_type =
      schedule_of principal rate months repayment_type >>= λ made.
      money default_precision (sum_payments made.1) >>= λ total_repayment.
      money default_precision (sum_interest made.1) >>= λ total_interest. ok (record {
        principal = principal;
        annual_interest_rate = rate;
        months = months;
        repayment_type = repayment_type;
        monthly_payment = made.0;
        schedule = made.1;
        total_repayment = total_repayment;
        total_interest = total_interest;
      })

  -- `simulate_loan`, of a principal as the amount of cents that it rounds to; the first argument is
  -- `principal.is_finite() and annual_interest_rate.is_finite()`.
  unfoldable pub simulate_loan :
      Bool → Amount → Rate → ℕ → RepaymentType → Result LoanError LoanSimulation
  unfolding simulation_of money
  simulate_loan is_finite principal rate months repayment_type =
      raise_if (not is_finite) not_finite
      >> with_error decimal_error (money default_precision (size principal))
      >> validate_inputs principal rate months
      >> with_error decimal_error (simulation_of (cents principal) rate months repayment_type)
