-- ===== src/Loan/Schedule.antt =====
-- The loop of app/domain/finance/loan_calculator.py clears the principal in the given months.
use finshield_ai.Base.{
  ℕ, zero, suc, ◌+◌, ◌-◌, ◌*◌, ◌≤◌, ◌≡◌, refl, ap, true, List, [], ◌∷◌, length, ltb, nat_beq,
  Result, ok, if◌then◌else◌, arith, Bool-cases, inl, inr,
}
use finshield_ai.Loan.{
  Amount, plus, DecimalError, PaymentScheduleEntry, money, schedule_precision, default_precision,
  paid, entry_of, entries, sum_payments, sum_interest,
}

-- A bound of twice 18 digits of cents, which every payment keeps.
abbrev pub payment_bound : ℕ
payment_bound = 2000000000000000000

money-schedule_precision : (n : ℕ) → n ≤ payment_bound → money schedule_precision n ≡ ok n
unfolding money
money-schedule_precision n h = ground arith

pub money-default_precision : (n : ℕ) → n ≤ 600 * payment_bound → money default_precision n ≡ ok n
unfolding money
money-default_precision n h = ground arith

-- The balance after the last entry.
unfoldable pub last_balance : ℕ → List PaymentScheduleEntry → ℕ
last_balance balance [] = balance
last_balance balance (entry ∷ schedule) = last_balance entry.remaining_principal schedule

-- The months of a schedule follow one another from a first one.
abbrev pub AreMonths : ℕ → List PaymentScheduleEntry → Type 0
AreMonths month [] = Unit
AreMonths month (entry ∷ schedule) = (entry.month ≡ month) × AreMonths (suc month) schedule

-- Each entry pays a part of the balance, none of it below zero, and the interest.
abbrev pub ArePayments : ℕ → List PaymentScheduleEntry → Type 0
ArePayments balance [] = Unit
ArePayments balance (entry ∷ schedule) =
    ((p : ℕ) × (entry.principal_payment ≡ plus p)
      × (entry.remaining_principal + p ≡ balance)
      × (entry.payment ≡ p + entry.interest_payment))
    × ArePayments entry.remaining_principal schedule

-- A schedule over some rounds, from a month and a balance.
pub record IsSchedule (months rounds month balance : ℕ) (schedule : List PaymentScheduleEntry)
    : Type 0 where
  pub count : length schedule ≡ rounds
  pub numbered : AreMonths month schedule
  pub payments : ArePayments balance schedule
  pub cleared :
      month + rounds ≡ suc months → ltb 0 rounds ≡ true → last_balance balance schedule ≡ 0
  pub bounded : sum_payments schedule ≤ rounds * payment_bound
  pub interest_bounded : sum_interest schedule ≤ rounds * payment_bound

-- The interest on a balance is found, and the payment of a month pays a part of the balance.
abbrev pub IsPayable : (ℕ → Result DecimalError ℕ) → (ℕ → ℕ → Amount) → ℕ → Type 0
IsPayable interest_on payment_of cents =
    (balance : ℕ)
    → balance ≤ cents
    → (i : ℕ) × (interest_on balance ≡ ok i)
      × (i ≤ cents)
      × ((p : ℕ) × (payment_of i balance ≡ plus p) × (p ≤ balance))

entry_of-paid :
    (month balance p i : ℕ)
    → p ≤ balance
    → p + i ≤ payment_bound
    → balance ≤ payment_bound
    → entry_of month balance (plus p) i
      ≡ ok (record {
        month = month;
        principal_payment = plus p;
        interest_payment = i;
        payment = p + i;
        remaining_principal = balance - p;
      })
unfolding entry_of
entry_of-paid month balance p i h k l =
    rw (money-schedule_precision (balance - p) (omega arith), money-schedule_precision (p + i) k)
      refl

grown :
    (sum rounds paid : ℕ)
    → sum ≤ rounds * payment_bound
    → paid ≤ payment_bound
    → paid + sum ≤ suc rounds * payment_bound
grown sum rounds paid h k = omega arith

cleared_after :
    (rounds month months balance p : ℕ) (schedule : List PaymentScheduleEntry)
    → month + suc rounds ≡ suc months
    → (month ≡ months → p ≡ balance)
    → length schedule ≡ rounds
    → (suc month + rounds ≡ suc months
        → ltb 0 rounds ≡ true
        → last_balance (balance - p) schedule ≡ 0)
    → last_balance (balance - p) schedule ≡ 0
unfolding last_balance
cleared_after zero month months balance p [] e h l k = ground (arith, h (omega arith))
cleared_after zero month months balance p (x ∷ schedule) e h l k = absurd (omega arith)
cleared_after (suc rounds) month months balance p schedule e h l k = k (omega arith) (ground arith)

module _ (interest_on : ℕ → Result DecimalError ℕ) (payment_of : ℕ → ℕ → Amount) (months cents : ℕ)
    (few : cents + cents ≤ payment_bound) (payable : IsPayable interest_on payment_of cents) where
  -- What a month pays of the balance: all of it in the last one.
  part_paid :
      (month balance i : ℕ)
      → ((p : ℕ) × (payment_of i balance ≡ plus p) × (p ≤ balance))
      → (p : ℕ) × ((if nat_beq month months then plus balance else payment_of i balance) ≡ plus p)
        × (p ≤ balance)
        × (month ≡ months → p ≡ balance)
  part_paid month balance i (p, e, h) = elim (Bool-cases (nat_beq month months)) [
    | inl last ↦ (balance, rw last refl, omega arith, λ _. refl)
    | inr more ↦ (p, rw (more, e) refl, h, λ same. absurd (ground arith))
  ]

  pub entries-IsSchedule :
      (rounds month balance : ℕ)
      → balance ≤ cents
      → (schedule : List PaymentScheduleEntry) × (entries interest_on payment_of months rounds month
            balance
          ≡ ok schedule)
        × IsSchedule months rounds month balance schedule
  unfolding entries last_balance sum_payments sum_interest
  entries-IsSchedule zero month balance h = (
    [],
    refl,
    record {
      count = refl;
      numbered = tt;
      payments = tt;
      cleared = λ e k. absurd (cc);
      bounded = omega arith;
      interest_bounded = omega arith;
    },
  )
  entries-IsSchedule (suc rounds) month balance h =
      let (i, e, small, part) = payable balance h in
      let (p, is, within, all_paid) = part_paid month balance i part in
      let (schedule, made, rest) =
        entries-IsSchedule rounds (suc month) (balance - p) (omega arith) in
      (
        record {
          month = month;
          principal_payment = plus p;
          interest_payment = i;
          payment = p + i;
          remaining_principal = balance - p;
        }
            ∷ schedule,
        rw (e, is, entry_of-paid month balance p i within (omega arith) (omega arith), made) refl,
        record {
          count = ap suc rest.count;
          numbered = (refl, rest.numbered);
          payments = ((p, refl, omega arith, refl), rest.payments);
          cleared = λ same _.
              cleared_after rounds month months balance p schedule same all_paid rest.count
                rest.cleared;
          bounded = grown _ rounds (p + i) rest.bounded (omega arith);
          interest_bounded = grown _ rounds i rest.interest_bounded (omega arith);
        },
      )
