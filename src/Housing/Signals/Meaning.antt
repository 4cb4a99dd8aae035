-- ===== src/Housing/Signals/Meaning.antt =====
-- When app/domain/housing/policy.py gives each of its signals.
use finshield_ai.Base.{
  ℕ, ◌≡◌, refl, Bool, true, false, not, ◌&&◌, ◌||◌, Option, List, [], ◌∷◌, ◌++◌, mem, ◌==◌,
  if◌then◌else◌, ◌∙◌, arith, bool_laws,
}
use finshield_ai.Housing.Codes.{
  LeaseStage, DepositCheck, SignalCode, stage_eq, check_eq, signal_code_eq, SignalCode-discrete,
}
use finshield_ai.Housing.Tables.{guarantee_relevant_stages, tax_arrears_relevant_stages}
use finshield_ai.Housing.Ratio.{Band, RatioResult, compute_protection, occupied_stages}
use finshield_ai.Housing.Signals.{append_if, ratio_signals, is_guarantee_band, detected_codes}

-- The two bands, and the lack of one.
abbrev pub is_high : Band → Bool
is_high Band.high = true
is_high _ = false

abbrev pub is_elevated : Band → Bool
is_elevated Band.elevated = true
is_elevated _ = false

abbrev pub is_unknown : Band → Bool
is_unknown Band.unknown = true
is_unknown _ = false

-- What each signal says of a lease, by the stage, the completed checks, the band and what is known.
abbrev pub calls_for : LeaseStage → List DepositCheck → Band → Bool → Bool → SignalCode → Bool
calls_for stage checks band price lien SignalCode.deposit_unreturned =
    stage == LeaseStage.deposit_unreturned
calls_for stage checks band price lien SignalCode.high_debt_ratio = is_high band
calls_for stage checks band price lien SignalCode.elevated_debt_ratio = is_elevated band
calls_for stage checks band price lien SignalCode.property_price_unknown =
    is_unknown band && not price
calls_for stage checks band price lien SignalCode.senior_lien_unknown = is_unknown band && not lien
calls_for stage checks band price lien SignalCode.opposing_power_missing =
    mem stage occupied_stages && not (mem DepositCheck.move_in_reported checks)
calls_for stage checks band price lien SignalCode.priority_repayment_missing =
    mem stage occupied_stages
    && (mem DepositCheck.move_in_reported checks
        && not (mem DepositCheck.confirmed_date_obtained checks))
calls_for stage checks band price lien SignalCode.registry_not_checked =
    not (mem DepositCheck.registry_checked checks)
calls_for stage checks band price lien SignalCode.owner_identity_unverified =
    not (mem DepositCheck.owner_identity_verified checks)
calls_for stage checks band price lien SignalCode.tax_arrears_unchecked =
    not (mem DepositCheck.tax_arrears_checked checks) && mem stage tax_arrears_relevant_stages
calls_for stage checks band price lien SignalCode.deposit_guarantee_absent =
    not (mem DepositCheck.deposit_guarantee_joined checks)
    && (is_guarantee_band band && mem stage guarantee_relevant_stages)

mem-append : (c : SignalCode) (xs ys : List SignalCode) → mem c (xs ++ ys) ≡ (mem c xs || mem c ys)
mem-append c [] ys = refl
mem-append c (x ∷ xs) ys = ground (arith, mem-append c xs ys)

mem-append_if : (c d : SignalCode) (b : Bool) → mem c (append_if b d) ≡ (b && c == d)
mem-append_if c d true = ground arith
mem-append_if c d false = refl

-- The signals of the ratio.
mem-ratio_signals :
    (c : SignalCode) (ratio : RatioResult) (price lien : Bool)
    → mem c (ratio_signals ratio price lien) ≡ (
        (is_high ratio.band && c == SignalCode.high_debt_ratio)
        || (is_elevated ratio.band && c == SignalCode.elevated_debt_ratio)
        || ((is_unknown ratio.band && not price) && c == SignalCode.property_price_unknown)
        || ((is_unknown ratio.band && not lien) && c == SignalCode.senior_lien_unknown))
unfolding ratio_signals
mem-ratio_signals c ratio price lien = by_band ratio.band
  where
    by_band :
        (band : Band)
        → mem c (elim band [
          | Band.high ↦ SignalCode.high_debt_ratio ∷ []
          | Band.elevated ↦ SignalCode.elevated_debt_ratio ∷ []
          | Band.low ↦ []
          | Band.unknown ↦
              append_if (not price) SignalCode.property_price_unknown
              ++ append_if (not lien) SignalCode.senior_lien_unknown
        ])
          ≡ ((is_high band && c == SignalCode.high_debt_ratio)
              || (is_elevated band && c == SignalCode.elevated_debt_ratio)
              || ((is_unknown band && not price) && c == SignalCode.property_price_unknown)
              || ((is_unknown band && not lien) && c == SignalCode.senior_lien_unknown))
    by_band Band.unknown = rw (mem-append, mem-append_if, mem-append_if) refl
    by_band Band.low = refl
    by_band Band.elevated = ground arith
    by_band Band.high = ground arith

mem-power_signals :
    (c : SignalCode) (occupied reported confirmed : Bool)
    → mem c (
        if occupied && not (occupied && reported)
        then SignalCode.opposing_power_missing ∷ []
        else append_if
            ((occupied && reported) && not ((occupied && reported) && confirmed))
            SignalCode.priority_repayment_missing)
      ≡ (((occupied && not reported) && c == SignalCode.opposing_power_missing)
          || ((occupied && (reported && not confirmed))
              && c == SignalCode.priority_repayment_missing))
mem-power_signals c true true true = refl
mem-power_signals c true true false = ground arith
mem-power_signals c true false confirmed = ground arith
mem-power_signals c false reported confirmed = ground arith

mem-append7 :
    (c : SignalCode) (b1 b4 b5 b6 b7 : Bool) (c1 c4 c5 c6 c7 : SignalCode)
    (ratio_part power_part : List SignalCode) (r p : Bool)
    → mem c ratio_part ≡ r
    → mem c power_part ≡ p
    → mem c (
        append_if b1 c1
        ++ (ratio_part
            ++ (power_part
                ++ (append_if b4 c4 ++ (append_if b5 c5 ++ (append_if b6 c6 ++ append_if b7 c7))))))
      ≡ ((b1 && c == c1)
          || (r
              || (p
                  || ((b4 && c == c4)
                      || ((b5 && c == c5) || ((b6 && c == c6) || (b7 && c == c7)))))))
mem-append7 c b1 b4 b5 b6 b7 c1 c4 c5 c6 c7 ratio_part power_part r p e k =
    rw
      (
        mem-append,
        mem-append,
        mem-append,
        mem-append,
        mem-append,
        mem-append,
        mem-append_if c c1 b1,
        mem-append_if c c4 b4,
        mem-append_if c c5 b5,
        mem-append_if c c6 b6,
        mem-append_if c c7 b7,
        e,
        k,
      )
      refl

-- One of eleven answers, by the code.
abbrev pick :
    SignalCode → Bool → Bool → Bool → Bool → Bool → Bool → Bool → Bool → Bool → Bool → Bool → Bool
pick SignalCode.deposit_unreturned x0 x1 x2 x3 x4 x5 x6 x7 x8 x9 x10 = x0
pick SignalCode.high_debt_ratio x0 x1 x2 x3 x4 x5 x6 x7 x8 x9 x10 = x1
pick SignalCode.elevated_debt_ratio x0 x1 x2 x3 x4 x5 x6 x7 x8 x9 x10 = x2
pick SignalCode.property_price_unknown x0 x1 x2 x3 x4 x5 x6 x7 x8 x9 x10 = x3
pick SignalCode.senior_lien_unknown x0 x1 x2 x3 x4 x5 x6 x7 x8 x9 x10 = x4
pick SignalCode.opposing_power_missing x0 x1 x2 x3 x4 x5 x6 x7 x8 x9 x10 = x5
pick SignalCode.priority_repayment_missing x0 x1 x2 x3 x4 x5 x6 x7 x8 x9 x10 = x6
pick SignalCode.registry_not_checked x0 x1 x2 x3 x4 x5 x6 x7 x8 x9 x10 = x7
pick SignalCode.owner_identity_unverified x0 x1 x2 x3 x4 x5 x6 x7 x8 x9 x10 = x8
pick SignalCode.tax_arrears_unchecked x0 x1 x2 x3 x4 x5 x6 x7 x8 x9 x10 = x9
pick SignalCode.deposit_guarantee_absent x0 x1 x2 x3 x4 x5 x6 x7 x8 x9 x10 = x10

-- The answer for a code is the guard of the place that gives it.
guard-pick :
    (c : SignalCode) (x0 x1 x2 x3 x4 x5 x6 x7 x8 x9 x10 : Bool)
    → ((x0 && c == SignalCode.deposit_unreturned)
        || (((x1 && c == SignalCode.high_debt_ratio)
              || (x2 && c == SignalCode.elevated_debt_ratio)
              || (x3 && c == SignalCode.property_price_unknown)
              || (x4 && c == SignalCode.senior_lien_unknown))
            || (((x5 && c == SignalCode.opposing_power_missing)
                  || (x6 && c == SignalCode.priority_repayment_missing))
                || ((x7 && c == SignalCode.registry_not_checked)
                    || ((x8 && c == SignalCode.owner_identity_unverified)
                        || ((x9 && c == SignalCode.tax_arrears_unchecked)
                            || (x10 && c == SignalCode.deposit_guarantee_absent)))))))
      ≡ pick c x0 x1 x2 x3 x4 x5 x6 x7 x8 x9 x10
unfolding SignalCode-discrete
guard-pick SignalCode.deposit_unreturned x0 x1 x2 x3 x4 x5 x6 x7 x8 x9 x10 = simp bool_laws refl
guard-pick SignalCode.high_debt_ratio x0 x1 x2 x3 x4 x5 x6 x7 x8 x9 x10 = simp bool_laws refl
guard-pick SignalCode.elevated_debt_ratio x0 x1 x2 x3 x4 x5 x6 x7 x8 x9 x10 = simp bool_laws refl
guard-pick SignalCode.property_price_unknown x0 x1 x2 x3 x4 x5 x6 x7 x8 x9 x10 = simp bool_laws refl
guard-pick SignalCode.senior_lien_unknown x0 x1 x2 x3 x4 x5 x6 x7 x8 x9 x10 = simp bool_laws refl
guard-pick SignalCode.opposing_power_missing x0 x1 x2 x3 x4 x5 x6 x7 x8 x9 x10 = simp bool_laws refl
guard-pick SignalCode.priority_repayment_missing x0 x1 x2 x3 x4 x5 x6 x7 x8 x9 x10 =
    simp bool_laws refl
guard-pick SignalCode.registry_not_checked x0 x1 x2 x3 x4 x5 x6 x7 x8 x9 x10 = simp bool_laws refl
guard-pick SignalCode.owner_identity_unverified x0 x1 x2 x3 x4 x5 x6 x7 x8 x9 x10 =
    simp bool_laws refl
guard-pick SignalCode.tax_arrears_unchecked x0 x1 x2 x3 x4 x5 x6 x7 x8 x9 x10 = simp bool_laws refl
guard-pick SignalCode.deposit_guarantee_absent x0 x1 x2 x3 x4 x5 x6 x7 x8 x9 x10 =
    simp bool_laws refl

pick-calls_for :
    (stage : LeaseStage) (checks : List DepositCheck) (band : Band) (price lien : Bool)
    (c : SignalCode)
    → pick c
        (calls_for stage checks band price lien SignalCode.deposit_unreturned)
        (calls_for stage checks band price lien SignalCode.high_debt_ratio)
        (calls_for stage checks band price lien SignalCode.elevated_debt_ratio)
        (calls_for stage checks band price lien SignalCode.property_price_unknown)
        (calls_for stage checks band price lien SignalCode.senior_lien_unknown)
        (calls_for stage checks band price lien SignalCode.opposing_power_missing)
        (calls_for stage checks band price lien SignalCode.priority_repayment_missing)
        (calls_for stage checks band price lien SignalCode.registry_not_checked)
        (calls_for stage checks band price lien SignalCode.owner_identity_unverified)
        (calls_for stage checks band price lien SignalCode.tax_arrears_unchecked)
        (calls_for stage checks band price lien SignalCode.deposit_guarantee_absent)
      ≡ calls_for stage checks band price lien c
pick-calls_for stage checks band price lien SignalCode.deposit_unreturned = refl
pick-calls_for stage checks band price lien _ = refl

-- A signal is given exactly if what it says is so, whatever the stage, the completed checks, the
-- ratio and the day of the report are.
pub mem-detected_codes :
    (stage : LeaseStage) (checks : List DepositCheck) (reported_on : Option ℕ) (ratio : RatioResult)
    (price lien : Bool) (c : SignalCode)
    → mem c
        (detected_codes stage checks ratio (compute_protection stage checks reported_on) price lien)
      ≡ calls_for stage checks ratio.band price lien c
unfolding detected_codes compute_protection SignalCode-discrete
mem-detected_codes stage checks reported_on ratio price lien c =
    mem-append7 c (calls_for stage checks ratio.band price lien SignalCode.deposit_unreturned)
      (calls_for stage checks ratio.band price lien SignalCode.registry_not_checked)
      (calls_for stage checks ratio.band price lien SignalCode.owner_identity_unverified)
      (calls_for stage checks ratio.band price lien SignalCode.tax_arrears_unchecked)
      (calls_for stage checks ratio.band price lien SignalCode.deposit_guarantee_absent)
      SignalCode.deposit_unreturned SignalCode.registry_not_checked
      SignalCode.owner_identity_unverified SignalCode.tax_arrears_unchecked
      SignalCode.deposit_guarantee_absent _ _ _ _ (mem-ratio_signals c ratio price lien)
      (mem-power_signals c (mem stage occupied_stages) (mem DepositCheck.move_in_reported checks)
        (mem DepositCheck.confirmed_date_obtained checks))
    ∙ (guard-pick c (calls_for stage checks ratio.band price lien SignalCode.deposit_unreturned)
          (calls_for stage checks ratio.band price lien SignalCode.high_debt_ratio)
          (calls_for stage checks ratio.band price lien SignalCode.elevated_debt_ratio)
          (calls_for stage checks ratio.band price lien SignalCode.property_price_unknown)
          (calls_for stage checks ratio.band price lien SignalCode.senior_lien_unknown)
          (calls_for stage checks ratio.band price lien SignalCode.opposing_power_missing)
          (calls_for stage checks ratio.band price lien SignalCode.priority_repayment_missing)
          (calls_for stage checks ratio.band price lien SignalCode.registry_not_checked)
          (calls_for stage checks ratio.band price lien SignalCode.owner_identity_unverified)
          (calls_for stage checks ratio.band price lien SignalCode.tax_arrears_unchecked)
          (calls_for stage checks ratio.band price lien SignalCode.deposit_guarantee_absent)
        ∙ pick-calls_for stage checks ratio.band price lien c)
