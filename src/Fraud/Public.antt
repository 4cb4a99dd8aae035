-- ===== src/Fraud/Public.antt =====
-- app/domain/fraud/signals.py: the signals that the public API shows for the canonical ones, and the
-- score of the legacy signals.
pub mod Loop
pub mod Projection
use finshield_ai.Base.{
  ℕ, ◌+◌, String, Bool, true, false, ◌&&◌, Option, none, some, List, [], ◌∷◌, ◌++◌, map, mem, add,
  ◌==◌, min, if◌then◌else◌,
}
use finshield_ai.Fraud.Codes.{SignalCode, RiskSignal, signal_code_eq}
use finshield_ai.Fraud.Levels.{signal_codes}

-- `CANONICAL_TO_LEGACY_PUBLIC.get(code)`
unfoldable pub canonical_to_legacy_public : SignalCode → Option SignalCode
canonical_to_legacy_public SignalCode.urgency_pressure = some SignalCode.urgency
canonical_to_legacy_public SignalCode.credential_request = some SignalCode.credential
canonical_to_legacy_public SignalCode.account_access_request = some SignalCode.account_access
canonical_to_legacy_public SignalCode.app_install_request = some SignalCode.remote_app
canonical_to_legacy_public SignalCode.remote_control_request = some SignalCode.remote_app
canonical_to_legacy_public SignalCode.receive_and_forward_money = some SignalCode.money_mule
canonical_to_legacy_public _ = none

-- The code, label and weight of `LEGACY_RULE_BY_CODE[code]`.
unfoldable pub legacy_rule_by_code : SignalCode → Option RiskSignal
legacy_rule_by_code SignalCode.urgency =
    some (record { code = SignalCode.urgency; label = "긴급한 행동 요구"; weight = 12 })
legacy_rule_by_code SignalCode.credential =
    some (record { code = SignalCode.credential; label = "인증정보 요구"; weight = 25 })
legacy_rule_by_code SignalCode.account_access =
    some (record { code = SignalCode.account_access; label = "계좌·접근수단 요구"; weight = 35 })
legacy_rule_by_code SignalCode.remote_app =
    some (record { code = SignalCode.remote_app; label = "앱 설치·원격접속 요구"; weight = 30 })
legacy_rule_by_code SignalCode.money_mule =
    some (record { code = SignalCode.money_mule; label = "자금 수취·재전달 요구"; weight = 35 })
legacy_rule_by_code _ = none

-- The signal shown for a canonical one. A lookup of `LEGACY_RULE_BY_CODE` that fails would raise
-- KeyError: `none`.
unfoldable pub public_signal : RiskSignal → Option RiskSignal
public_signal signal = elim (canonical_to_legacy_public signal.code) [
  | none ↦ some signal
  | some legacy ↦ legacy_rule_by_code legacy
]

-- A money transfer is left out beside the request to receive and forward money.
unfoldable pub is_left_out : List SignalCode → RiskSignal → Bool
is_left_out canonical_codes signal =
    signal.code == SignalCode.money_transfer_request
    && mem SignalCode.receive_and_forward_money canonical_codes

-- The loop, with the signals projected so far and their codes.
unfoldable pub project_from :
    List SignalCode → List RiskSignal → List RiskSignal → List SignalCode → Option (List RiskSignal)
project_from canonical_codes [] projected seen_codes = some projected
project_from canonical_codes (signal ∷ signals) projected seen_codes =
    elim (is_left_out canonical_codes signal) [
      | true ↦ project_from canonical_codes signals projected seen_codes
      | false ↦ elim (public_signal signal) [
        | none ↦ none
        | some p ↦ elim (mem p.code seen_codes) [
          | true ↦ project_from canonical_codes signals projected seen_codes
          | false ↦
              project_from canonical_codes signals (projected ++ p ∷ []) (add p.code seen_codes)
        ]
      ]
    ]

unfoldable pub project_public_signals : List RiskSignal → Option (List RiskSignal)
project_public_signals canonical_signals =
    project_from (signal_codes canonical_signals) canonical_signals [] []

-- `code in legacy_codes`
abbrev pub is_legacy : SignalCode → Bool
is_legacy code = elim (legacy_rule_by_code code) [ none ↦ false | some _ ↦ true ]

-- `sum(s.weight for s in signals if s.code in legacy_codes)`
unfoldable pub legacy_weight : List RiskSignal → ℕ
legacy_weight [] = 0
legacy_weight (s ∷ signals) =
    let rest = legacy_weight signals in if is_legacy s.code then s.weight + rest else rest

unfoldable pub baseline_score : List RiskSignal → ℕ
baseline_score signals = min (legacy_weight signals) 100
