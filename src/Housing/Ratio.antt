-- ===== src/Housing/Ratio.antt =====
-- app/domain/housing/deposit_risk.py: the debt ratio and the legal protection. The Decimals are
-- written out: a coefficient of 28 digits at most and a power of ten. A date is its ordinal,
-- and `date.max`, which the schema of the request does not admit, is not told apart.
pub mod Protection
pub mod Rounding
use finshield_ai.Base.{
  ℕ, zero, suc, ◌+◌, ◌-◌, ◌*◌, ◌/◌, ◌%◌, ◌^◌, Bool, true, false, ◌&&◌, ◌||◌, Option, none, some,
  List, [], ◌∷◌, mem, ltb, leb, nat_beq, if◌then◌else◌,
}
use finshield_ai.Housing.Codes.{LeaseStage, DepositCheck, stage_eq, check_eq}

pub data Band : Type 0 where
  unknown low elevated high : Band

-- `ratio_percent` is a multiple of 0.1, and given as that multiple.
pub record RatioResult : Type 0 where
  pub ratio_percent : Option ℕ
  pub band : Band

pub record ProtectionResult : Type 0 where
  pub opposing_power_effective_on : Option ℕ
  pub has_opposing_power_requirements : Bool
  pub has_priority_repayment_requirements : Bool

-- `ELEVATED_RATIO_PERCENT`, as a multiple of 0.1
abbrev pub elevated_ratio_percent : ℕ
elevated_ratio_percent = 600

-- `HIGH_RATIO_PERCENT`, as a multiple of 0.1
abbrev pub high_ratio_percent : ℕ
high_ratio_percent = 800

-- `OCCUPIED_STAGES`
abbrev pub occupied_stages : List LeaseStage
occupied_stages =
    LeaseStage.balance_paid ∷ LeaseStage.moved_in ∷ LeaseStage.lease_ending
    ∷ LeaseStage.deposit_unreturned ∷ []

-- The number of decimal digits of a number, for as many as the fuel allows.
unfoldable digits_from : ℕ → ℕ → ℕ
digits_from zero n = 0
digits_from (suc fuel) n = let more = digits_from fuel (n / 10) in if ltb n 10 then 1 else 1 + more

-- Forty digits are more than a sum of two amounts has.
unfoldable digits : ℕ → ℕ
unfolding digits_from
digits n = digits_from 40 n

-- The quotient, rounded half to even: the division of a Decimal context.
unfoldable pub half_even : ℕ → ℕ → ℕ
half_even a b =
    let q = a / b in
    let twice = 2 * (a % b) in
    if ltb b twice || (nat_beq twice b && nat_beq (q % 2) 1) then q + 1 else q

-- The power of ten at which the quotient has 28 digits: one less where it would have 29.
unfoldable pub quotient_scale : ℕ → ℕ → ℕ
unfolding digits
quotient_scale a b =
    let s = 28 + digits b - digits a in if leb (10 ^ 28) (a * 10 ^ s / b) then s - 1 else s

-- `a / b` in a context of precision 28: a coefficient, and the power of ten it is divided by.
unfoldable pub decimal_div : ℕ → ℕ → ℕ × ℕ
unfolding half_even quotient_scale
decimal_div a b = let s = quotient_scale a b in (half_even (a * 10 ^ s) b, s)

-- `(x * Decimal(100)).quantize(Decimal("0.1"), rounding=ROUND_HALF_UP)`, as a multiple of 0.1;
-- the product by 100 is exact, since it keeps the digits of x.
unfoldable pub quantize : ℕ × ℕ → ℕ
quantize (coefficient, s) = (2 * (coefficient * 1000) + 10 ^ s) / (2 * 10 ^ s)

unfoldable pub ratio_band : ℕ → Band
ratio_band ratio =
    if ltb high_ratio_percent ratio
    then high
    else if ltb elevated_ratio_percent ratio
    then elevated
    else low

unfoldable pub compute_ratio : ℕ → Option ℕ → Option ℕ → RatioResult
unfolding decimal_div quantize ratio_band
compute_ratio deposit_krw none senior_lien_krw = record { ratio_percent = none; band = unknown }
compute_ratio deposit_krw (some zero) senior_lien_krw = record {
  ratio_percent = none;
  band = unknown;
}
compute_ratio deposit_krw (some (suc price)) none = record { ratio_percent = none; band = unknown }
compute_ratio deposit_krw (some (suc price)) (some lien) =
    let ratio = quantize (decimal_div (lien + deposit_krw) (suc price)) in
    record { ratio_percent = some ratio; band = ratio_band ratio }

-- The day after, if the requirements are met and the day is known.
unfoldable pub effective_on : Bool → Option ℕ → Option ℕ
effective_on true (some reported_on) = some (reported_on + 1)
effective_on true none = none
effective_on false reported_on = none

unfoldable pub compute_protection : LeaseStage → List DepositCheck → Option ℕ → ProtectionResult
unfolding effective_on
compute_protection stage completed_checks move_in_reported_on =
    let has_opposing =
      mem stage occupied_stages && mem DepositCheck.move_in_reported completed_checks in
    record {
      opposing_power_effective_on = effective_on has_opposing move_in_reported_on;
      has_opposing_power_requirements = has_opposing;
      has_priority_repayment_requirements =
          has_opposing && mem DepositCheck.confirmed_date_obtained completed_checks;
    }
