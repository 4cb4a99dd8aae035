-- ===== src/Housing/Signals.antt =====
-- app/domain/housing/policy.py: the signals of a deposit check.
pub mod Meaning
use finshield_ai.Base.{
  ℕ, ◌/◌, ◌%◌, String, concat, show_nat, Bool, true, false, not, ◌&&◌, Option, none, some, List, [],
  ◌∷◌, ◌++◌, map, mem, nat_beq, if◌then◌else◌, ◌==◌,
}
use finshield_ai.Housing.Codes.{
  LeaseStage, DepositCheck, SignalCode, DepositRiskSignal, stage_eq, check_eq,
}
use finshield_ai.Housing.Ratio.{Band, RatioResult, ProtectionResult, occupied_stages}
use finshield_ai.Housing.Tables.{
  guarantee_relevant_stages, tax_arrears_relevant_stages, signal_labels,
}

-- `if test: codes.append(code)`
abbrev pub append_if : Bool → SignalCode → List SignalCode
append_if true code = code ∷ []
append_if false code = []

-- `_ratio_signals`
unfoldable pub ratio_signals : RatioResult → Bool → Bool → List SignalCode
ratio_signals ratio has_price has_lien = elim ratio.band [
  | Band.high ↦ SignalCode.high_debt_ratio ∷ []
  | Band.elevated ↦ SignalCode.elevated_debt_ratio ∷ []
  | Band.low ↦ []
  | Band.unknown ↦
      append_if (not has_price) SignalCode.property_price_unknown
      ++ append_if (not has_lien) SignalCode.senior_lien_unknown
]

-- `ratio.band in {"unknown", "elevated", "high"}`
abbrev pub is_guarantee_band : Band → Bool
is_guarantee_band Band.low = false
is_guarantee_band _ = true

-- The list `codes` of `detect_signals`.
unfoldable pub detected_codes :
    LeaseStage → List DepositCheck → RatioResult → ProtectionResult → Bool → Bool → List SignalCode
unfolding ratio_signals
detected_codes stage completed_checks ratio protection has_price has_lien =
    append_if (stage == LeaseStage.deposit_unreturned) SignalCode.deposit_unreturned
    ++ (ratio_signals ratio has_price has_lien
        ++ ((if mem stage occupied_stages && not protection.has_opposing_power_requirements
              then SignalCode.opposing_power_missing ∷ []
              else append_if
                  (protection.has_opposing_power_requirements
                    && not protection.has_priority_repayment_requirements)
                  SignalCode.priority_repayment_missing)
            ++ (append_if (not (mem DepositCheck.registry_checked completed_checks))
                  SignalCode.registry_not_checked
                ++ (append_if (not (mem DepositCheck.owner_identity_verified completed_checks))
                      SignalCode.owner_identity_unverified
                    ++ (append_if
                          (not (mem DepositCheck.tax_arrears_checked completed_checks)
                            && mem stage tax_arrears_relevant_stages)
                          SignalCode.tax_arrears_unchecked
                        ++ append_if
                            (not (mem DepositCheck.deposit_guarantee_joined completed_checks)
                              && (is_guarantee_band ratio.band
                                  && mem stage guarantee_relevant_stages))
                            SignalCode.deposit_guarantee_absent)))))

-- `_format_ratio`: without the trailing zero.
unfoldable pub format_ratio : Option ℕ → String
format_ratio none = "-"
format_ratio (some tenths) =
    if nat_beq (tenths % 10) 0
    then show_nat (tenths / 10)
    else concat (show_nat (tenths / 10) ∷ "." ∷ show_nat (tenths % 10) ∷ [])

-- `_signal_detail`
unfoldable pub signal_detail : SignalCode → RatioResult → String
unfolding format_ratio
signal_detail SignalCode.high_debt_ratio ratio = concat (
    "계산된 비율은 "
    ∷ format_ratio ratio.ratio_percent
    ∷ "%입니다. 이 서비스는 "
    ∷ "80"
    ∷ "%를 넘으면 높은 구간으로 봅니다. 공식 기준이 아니라 이 서비스의 보수적 기준입니다."
    ∷ [])
signal_detail SignalCode.elevated_debt_ratio ratio = concat (
    "계산된 비율은 "
    ∷ format_ratio ratio.ratio_percent
    ∷ "%입니다. 이 서비스는 "
    ∷ "60"
    ∷ "%를 넘으면 낮지 않은 구간으로 봅니다. 공식 기준이 아니라 이 서비스의 보수적 기준입니다."
    ∷ [])
signal_detail SignalCode.property_price_unknown ratio = "주택가격이 없으면 보증금이 차지하는 비중을 계산할 수 없습니다."
signal_detail SignalCode.senior_lien_unknown ratio =
    "선순위 채권최고액을 0으로 두고 계산하면 실제보다 안전해 보입니다. 그래서 계산하지 않고 확인을 먼저 안내합니다."
signal_detail SignalCode.opposing_power_missing ratio =
    "주택임대차보호법 제3조 제1항의 대항요건은 주택의 인도와 주민등록 둘 다입니다. 전입신고 전에는 보증금이 대항력 없이 놓여 있습니다."
signal_detail SignalCode.priority_repayment_missing ratio =
    "대항요건은 갖추었지만 확정일자가 없습니다. 주택임대차보호법 제3조의2 제2항은 대항요건과 확정일자를 함께 갖춘 경우를 우선변제의 요건으로 정하고 있습니다."
signal_detail SignalCode.tax_arrears_unchecked ratio =
    "임대인이 세금을 체납했는지는 국세징수법 제109조·지방세징수법 제6조의 열람 신청으로 확인합니다. 신청할 수 있는 기간은 임대차 기간이 시작하는 날까지입니다."
signal_detail SignalCode.deposit_guarantee_absent ratio = "보증금 반환을 보장하는 별도 장치가 확인되지 않았습니다."
signal_detail SignalCode.deposit_unreturned ratio = "이미 발생한 미반환 상태이므로 예방이 아니라 회수 절차 단계입니다."
signal_detail SignalCode.registry_not_checked ratio = "선순위 권리와 소유자는 등기부에서만 확인됩니다."
signal_detail SignalCode.owner_identity_unverified ratio = "계약 상대의 권한을 확인하지 않은 상태입니다."

unfoldable pub detect_signals :
    LeaseStage
    → List DepositCheck
    → RatioResult
    → ProtectionResult
    → Bool
    → Bool
    → List DepositRiskSignal
detect_signals stage completed_checks ratio protection has_price has_lien =
    map
      (λ code. record {
        code = code;
        label = signal_labels code;
        detail = signal_detail code ratio;
      })
      (detected_codes stage completed_checks ratio protection has_price has_lien)
