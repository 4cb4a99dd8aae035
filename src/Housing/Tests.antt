-- ===== src/Housing/Tests.antt =====
-- The deposit check at concrete inputs.
use finshield_ai.Base.{
  false, ℕ, ◌+◌, ◌≡◌, ◌↔◌, refl, true, ◌&&◌, not, ◌||◌, none, some, [], ◌∷◌, map, any, mem, ok,
  List, show_nat, concat, ◌*◌, ◌^◌, ◌≤◌, ◌<◌,
}
use finshield_ai.Risk.{at_least, high}
use finshield_ai.Housing.Codes.{
  LeaseStage, DepositCheck, SignalCode, DepositRiskSignal, DepositRiskAction, stage_eq, check_eq,
  signal_code_eq,
}
use finshield_ai.Housing.Tables.{signal_minimum_risk, stage_minimum_risk}
use finshield_ai.Housing.Ratio.{
  Band, compute_ratio, compute_protection, ProtectionResult, occupied_stages, decimal_div,
  half_even, quotient_scale, quantize, ratio_band,
}
use finshield_ai.Housing.Ratio.Protection.{
  is_some, is_known, BandOf, compute_ratio-BandOf, compute_protection-effective,
}
use finshield_ai.Housing.Ratio.Rounding.{quantize-near}
use finshield_ai.Housing.Signals.{detected_codes, format_ratio}
use finshield_ai.Housing.Signals.Meaning.{calls_for, mem-detected_codes}
use finshield_ai.Housing.Policy.{determine_risk_level, select_actions}
use finshield_ai.Housing.Policy.Choice.{IsDueFor, select_actions-IsDueFor}
use finshield_ai.Housing.Policy.Level.{determine_risk_level-at_least}
use finshield_ai.Housing.Deposit.{DepositRiskRequest}

abbrev signed_request : DepositRiskRequest
signed_request = record {
  stage = LeaseStage.contract_signed;
  deposit_krw = 250000000;
  property_price_krw = some 300000000;
  senior_lien_krw = some 0;
  completed_checks = DepositCheck.registry_checked ∷ [];
  move_in_reported_on = none;
}

abbrev high_signal : DepositRiskSignal
high_signal = record { code = SignalCode.high_debt_ratio; label = ""; detail = "" }

ratio_of_five_sixths :
    compute_ratio 250000000 (some 300000000) (some 0)
    ≡ record { ratio_percent = some 833; band = Band.high }
unfolding compute_ratio decimal_div half_even quotient_scale quantize ratio_band
ratio_of_five_sixths = refl

a_third_is_shown : format_ratio (some 333) ≡ "33.3"
unfolding format_ratio show_nat concat
a_third_is_shown = refl

compute_ratio-BandOf_example :
    (is_some (compute_ratio 250000000 (some 300000000) (some 0)).ratio_percent
      ≡ is_known (some 300000000) (some 0))
    × BandOf
        (compute_ratio 250000000 (some 300000000) (some 0)).ratio_percent
        (compute_ratio 250000000 (some 300000000) (some 0)).band
compute_ratio-BandOf_example = compute_ratio-BandOf 250000000 (some 300000000) (some 0)

abbrev moved_on_day_7 : ProtectionResult
moved_on_day_7 =
    compute_protection LeaseStage.moved_in (DepositCheck.move_in_reported ∷ []) (some 7)

compute_protection-effective_example :
    ((moved_on_day_7.opposing_power_effective_on ≡ some 8) ↔ (
      ((mem LeaseStage.moved_in occupied_stages
          && mem DepositCheck.move_in_reported (DepositCheck.move_in_reported ∷ []))
        ≡ true)
      × ((d : ℕ) × (some 7 ≡ some d) × (8 ≡ d + 1))))
    × ((moved_on_day_7.has_priority_repayment_requirements
          && not moved_on_day_7.has_opposing_power_requirements)
        ≡ false)
compute_protection-effective_example =
    compute_protection-effective LeaseStage.moved_in (DepositCheck.move_in_reported ∷ []) (some 7) 8

mem-detected_codes_example :
    mem SignalCode.opposing_power_missing (
      detected_codes LeaseStage.moved_in []
        (record { ratio_percent = some 833; band = Band.high })
        (compute_protection LeaseStage.moved_in [] none)
        true
        true)
    ≡ calls_for LeaseStage.moved_in [] Band.high true true SignalCode.opposing_power_missing
mem-detected_codes_example =
    mem-detected_codes LeaseStage.moved_in [] none
      (record { ratio_percent = some 833; band = Band.high }) true true
      SignalCode.opposing_power_missing

select_actions-IsDueFor_example :
    (actions : List DepositRiskAction) × (select_actions
        (high_signal ∷ [])
        LeaseStage.contract_signed
        (DepositCheck.registry_checked ∷ [])
      ≡ ok actions)
    × IsDueFor
        (high_signal ∷ [])
        LeaseStage.contract_signed
        (DepositCheck.registry_checked ∷ [])
        (map (λ a. a.code) actions)
select_actions-IsDueFor_example =
    select_actions-IsDueFor (high_signal ∷ []) LeaseStage.contract_signed
      (DepositCheck.registry_checked ∷ [])

determine_risk_level-at_least_example :
    at_least high (determine_risk_level (high_signal ∷ []) LeaseStage.contract_signed) ≡ (
      any (λ s. at_least high (signal_minimum_risk s.code)) (high_signal ∷ [])
      || at_least high (stage_minimum_risk LeaseStage.contract_signed))
determine_risk_level-at_least_example =
    determine_risk_level-at_least high (high_signal ∷ []) LeaseStage.contract_signed

quantize-near_example :
    (2 * 10 ^ 4 * quantize (8335, 4) ≤ 2 * (8335 * 1000) + 10 ^ 4)
    × (2 * (8335 * 1000) + 10 ^ 4 < 2 * 10 ^ 4 * quantize (8335, 4) + 2 * 10 ^ 4)
quantize-near_example = quantize-near 8335 4
