-- ===== src/Loan/Tests.antt =====
-- A loan over two months, and the theorem at it.
use finshield_ai.Base.{◌+◌, ◌/◌, ◌≡◌, refl, true, ok, err, ◌>>=◌}
use finshield_ai.Loan.{
  plus, Rate, equal_principal, Decimals, invalid_operation, decimal_error, simulate_loan,
  simulation_of, schedule_of, equal_principal_schedule, entries, entry_of, money, sum_payments,
  sum_interest,
}

-- One per cent a month, rounded down.
abbrev decimals : Decimals
decimals = record {
  interest_on = λ rate balance. ok (balance / 100);
  constant_payment = λ rate principal months. ok (principal / months + principal / 100);
  share = λ principal months. ok (principal / months);
}

abbrev rate : Rate
rate = record { coefficient = plus 12; places = 0 }

repays_2030 :
    (simulation_of decimals 2000 rate 2 equal_principal >>= λ s. ok s.total_repayment) ≡ ok 2030
unfolding simulation_of schedule_of equal_principal_schedule entries entry_of money sum_payments
    sum_interest
repays_2030 = refl

too_many_digits_are_refused :
    simulate_loan decimals true (plus 10000000000000000000000000000) rate 2 equal_principal
    ≡ err (decimal_error invalid_operation)
unfolding simulate_loan money
too_many_digits_are_refused = refl
