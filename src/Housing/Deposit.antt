-- ===== src/Housing/Deposit.antt =====
-- app/services/housing_deposit.py: the deposit check. An amount is a natural number, as the
-- request's fields demand; a ratio stays a multiple of 0.1, which the source turns into a float.
pub mod Outcome
use finshield_ai.Base.{
  ℕ, zero, suc, String, concat, show_nat, length, Bool, true, false, Option, none, some, List, [],
  ◌∷◌, map, update, Result, ok, err, ◌>>=◌, with_error,
}
use finshield_ai.Risk.{RiskLevel, low, medium, high}
use finshield_ai.OfficialSources.{OfficialSource, SupportedAction, SourceError, sources_for_actions}
use finshield_ai.Housing.Codes.{
  LeaseStage, DepositCheck, DepositRiskSignal, DepositRiskAction, spelling, check_eq,
}
use finshield_ai.Housing.Catalog.{housing_sources}
use finshield_ai.Housing.Ratio.{RatioResult, ProtectionResult, compute_ratio, compute_protection}
use finshield_ai.Housing.Signals.{detect_signals}
use finshield_ai.Housing.Policy.{PolicyError, determine_risk_level, select_actions}

pub record DepositRiskRequest : Type 0 where
  pub stage : LeaseStage
  pub deposit_krw : ℕ
  pub property_price_krw : Option ℕ
  pub senior_lien_krw : Option ℕ
  pub completed_checks : List DepositCheck
  pub move_in_reported_on : Option ℕ

pub record DepositRiskResponse : Type 0 where
  pub risk_level : RiskLevel
  pub stage : LeaseStage
  pub summary : String
  pub ratio : RatioResult
  pub formula : String
  pub protection : ProtectionResult
  pub signals : List DepositRiskSignal
  pub actions : List DepositRiskAction
  pub official_sources : List OfficialSource
  pub disclaimer : String

-- `STAGE_LABELS`
unfoldable pub stage_labels : LeaseStage → String
stage_labels LeaseStage.before_contract = "계약 전"
stage_labels LeaseStage.contract_signed = "계약 체결 후 잔금 전"
stage_labels LeaseStage.balance_paid = "잔금 지급·입주"
stage_labels LeaseStage.moved_in = "전입신고·확정일자 이후"
stage_labels LeaseStage.lease_ending = "계약 종료 예정"
stage_labels LeaseStage.deposit_unreturned = "보증금 미반환"

-- `LEVEL_SENTENCES`
unfoldable pub level_sentences : RiskLevel → String
level_sentences low = "지금 확인된 범위에서는 큰 문제가 보이지 않습니다."
level_sentences medium = "지금 확인하고 넘어가야 할 부분이 있습니다."
level_sentences high = "먼저 처리해야 할 부분이 있습니다."

-- How the summary ends.
unfoldable pub count_sentence : ℕ → String
count_sentence zero = " 확인이 필요한 항목은 없습니다."
count_sentence (suc n) = concat (" 확인이 필요한 항목이 " ∷ show_nat (suc n) ∷ "건입니다." ∷ [])

-- `_build_summary`
unfoldable pub build_summary : RiskLevel → LeaseStage → ℕ → String
unfolding stage_labels level_sentences count_sentence
build_summary level stage signal_count =
    concat
      (stage_labels stage ∷ " 단계입니다. " ∷ level_sentences level ∷ count_sentence signal_count ∷ [])

-- The price is given, and is not 0.
abbrev pub has_price : Option ℕ → Bool
has_price (some (suc _)) = true
has_price _ = false

abbrev pub has_lien : Option ℕ → Bool
has_lien none = false
has_lien (some _) = true

-- The action as the catalogue of sources sees it.
unfoldable pub supported_action : DepositRiskAction → SupportedAction
supported_action a = record { code = spelling a.code; source_ids = a.source_ids }

-- app/domain/housing/sources.py: `sources_for_actions`
unfoldable pub housing_sources_for_actions :
    List DepositRiskAction → Result SourceError (List OfficialSource)
housing_sources_for_actions actions =
    sources_for_actions housing_sources (map supported_action actions)

unfoldable pub request_ratio : DepositRiskRequest → RatioResult
request_ratio request =
    compute_ratio request.deposit_krw request.property_price_krw request.senior_lien_krw

unfoldable pub request_protection : DepositRiskRequest → ProtectionResult
request_protection request =
    compute_protection request.stage (update request.completed_checks [])
      request.move_in_reported_on

unfoldable pub request_signals : DepositRiskRequest → List DepositRiskSignal
request_signals request =
    detect_signals request.stage (update request.completed_checks []) (request_ratio request)
      (request_protection request) (has_price request.property_price_krw)
      (has_lien request.senior_lien_krw)

unfoldable pub request_actions : DepositRiskRequest → Result PolicyError (List DepositRiskAction)
request_actions request =
    select_actions (request_signals request) request.stage (update request.completed_checks [])

-- What the check may raise.
pub data DepositError : Type 0 where
  policy_error : PolicyError → DepositError
  source_error : SourceError → DepositError

-- The `DepositRiskResponse` that is returned.
unfoldable pub response_of :
    DepositRiskRequest → List DepositRiskAction → List OfficialSource → DepositRiskResponse
response_of request actions sources =
    let signals = request_signals request in
    let level = determine_risk_level signals request.stage in
    record {
      risk_level = level;
      stage = request.stage;
      summary = build_summary level request.stage (length signals);
      ratio = request_ratio request;
      formula = "(선순위 채권최고액 + 보증금) ÷ 주택가격 × 100";
      protection = request_protection request;
      signals = signals;
      actions = actions;
      official_sources = sources;
      disclaimer =
          "이 점검은 입력한 값에 대한 규칙 기반 확인이며 법률 자문, 계약 안전 보증, 전세사기 여부 판단을 대신하지 않습니다. 위험 구간은 이 서비스가 정한 보수적 기준이며 공식 기준이 아닙니다.";
    }

unfoldable pub check_deposit_risk : DepositRiskRequest → Result DepositError DepositRiskResponse
check_deposit_risk request = do
  actions ← with_error policy_error (request_actions request)
  sources ← with_error source_error (housing_sources_for_actions actions)
  ok (response_of request actions sources)
