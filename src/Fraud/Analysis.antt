-- ===== src/Fraud/Analysis.antt =====
-- app/services/fraud_analysis.py: the analysis of a message. What reads the text itself,
-- `detect_canonical_signals`, `detect_legacy_signals` and `contains_url` of
-- app/domain/fraud/signals.py and Python's `str.casefold`, is a parameter.
pub mod Outcome
pub mod Score
pub mod Silence
pub mod Sources
use finshield_ai.Base.{
  ℕ, String, concat, join, Bool, true, false, Option, none, some, List, [], ◌∷◌, map, min, max,
  is_empty, Result, ok, err, ◌>>=◌, if◌then◌else◌,
}
use finshield_ai.Risk.{RiskLevel}
use finshield_ai.OfficialSources.{OfficialSource, SupportedAction, SourceError, sources_for_actions}
use finshield_ai.Fraud.Codes.{UserState, RiskSignal, Action, spelling}
use finshield_ai.Fraud.Catalog.{official_sources}
use finshield_ai.Fraud.Levels.{
  determine_risk_level, has_nothing_to_show, score_floor_for_level, score_ceiling_for_level,
}
use finshield_ai.Fraud.Actions.{select_actions}
use finshield_ai.Fraud.Types.{FraudType, classify_fraud_types}
use finshield_ai.Fraud.Public.{project_public_signals, baseline_score}

-- The part of `AnalyzeRequest` that the analysis reads.
pub record AnalyzeRequest : Type 0 where
  pub text : String
  pub state : UserState
  pub url : Option String

pub record AnalyzeResponse : Type 0 where
  pub risk_score : ℕ
  pub risk_level : RiskLevel
  pub signals : List RiskSignal
  pub scenario : UserState
  pub disclaimer : String
  pub fraud_types : List FraudType
  pub summary : String
  pub actions : List Action
  pub official_sources : List OfficialSource

-- What reads the text of a message.
pub record Detectors : Type 0 where
  pub casefold : String → String
  pub detect_canonical_signals : String → Option String → List RiskSignal
  pub detect_legacy_signals : String → List RiskSignal
  pub contains_url : String → Option String → Bool

-- What an analysis may raise: a KeyError of a table, or the ValueError of the sources.
pub data AnalysisError : Type 0 where
  key_error : AnalysisError
  source_error : SourceError → AnalysisError

unfoldable pub or_key_error : {A : Type 0} → Option A → Result AnalysisError A
or_key_error none = err key_error
or_key_error (some a) = ok a

unfoldable pub or_source_error : {A : Type 0} → Result SourceError A → Result AnalysisError A
or_source_error (ok a) = ok a
or_source_error (err e) = err (source_error e)

-- `FRAUD_TYPE_LABELS[fraud_type]`
unfoldable pub fraud_type_labels : FraudType → String
fraud_type_labels FraudType.authority_impersonation = "기관 사칭"
fraud_type_labels FraudType.acquaintance_impersonation = "지인·가족 사칭"
fraud_type_labels FraudType.loan_policy_impersonation = "대출·정책금융 사칭"
fraud_type_labels FraudType.investment_scheme = "투자·리딩방 유인"
fraud_type_labels FraudType.advance_fee_demand = "선입금·수수료 요구"
fraud_type_labels FraudType.account_access_request = "계좌·인증수단 접근 요구"
fraud_type_labels FraudType.money_mule_transfer = "자금 수취·재전달 요구"
fraud_type_labels FraudType.smishing_malware = "스미싱·악성 앱 유도"
fraud_type_labels FraudType.card_delivery_impersonation = "카드 배송 사칭"
fraud_type_labels FraudType.isolation_coercion = "고립·확인 차단 유도"

-- What the summary says of the state: `URGENT_STATES` first, then any state but `RECEIVED_ONLY`.
unfoldable pub state_sentence : UserState → String
state_sentence UserState.shared_account_access = " 이미 취한 행동에 맞춘 긴급 대응을 우선 확인하세요."
state_sentence UserState.installed_app = " 이미 취한 행동에 맞춘 긴급 대응을 우선 확인하세요."
state_sentence UserState.received_unknown_money = " 이미 취한 행동에 맞춘 긴급 대응을 우선 확인하세요."
state_sentence UserState.transferred_money = " 이미 취한 행동에 맞춘 긴급 대응을 우선 확인하세요."
state_sentence UserState.received_only = " 확정 판정이 아니므로 공식 채널을 통한 확인이 필요할 수 있습니다."
state_sentence _ = " 이미 취한 행동에 맞춘 대응 절차를 확인하세요."

-- The first sentence of the summary.
unfoldable pub base_sentence : List FraudType → List RiskSignal → String
base_sentence (t ∷ types) signals =
    concat ("입력에서 " ∷ join ", " (map fraud_type_labels (t ∷ types)) ∷ " 관련 위험 신호가 확인되었습니다." ∷ [])
base_sentence [] (s ∷ signals) =
    concat
      ("사기 유형을 특정하지는 못했지만 " ∷ join ", " (map (λ x. x.label) (s ∷ signals)) ∷ " 신호가 확인되었습니다." ∷ [])
base_sentence [] [] = "현재 입력에서 명시적인 사기 위험 신호는 확인되지 않았습니다."

-- `_build_summary`
unfoldable pub build_summary : List FraudType → List RiskSignal → UserState → Bool → String
build_summary fraud_types signals state url_was_provided = concat (
    base_sentence fraud_types signals
    ∷ state_sentence state
    ∷ (if url_was_provided then " URL에 접속하거나 평판을 확인하지 않아 안전 여부를 보증하지 않습니다." else "")
    ∷ [])

-- The score that is shown with a level.
unfoldable pub displayed_score : ℕ → List RiskSignal → UserState → RiskLevel → ℕ
displayed_score score signals state level =
    let kept = (if has_nothing_to_show signals state then 0 else score) in
    min (max kept (score_floor_for_level level)) (score_ceiling_for_level level)

-- The action as the catalogue of sources sees it.
unfoldable pub supported_action : Action → SupportedAction
supported_action a = record { code = spelling a.code; source_ids = a.source_ids }

-- app/domain/fraud/sources.py: `sources_for_actions`, by the catalogue of the domain.
unfoldable pub fraud_sources_for_actions : List Action → Result SourceError (List OfficialSource)
fraud_sources_for_actions actions =
    sources_for_actions official_sources (map supported_action actions)

module _ (detectors : Detectors) where
  open detectors use {casefold, detect_canonical_signals, detect_legacy_signals, contains_url}

  -- `baseline_score(detect_legacy_signals(request.text))`
  unfoldable pub text_score : AnalyzeRequest → ℕ
  text_score request = baseline_score (detect_legacy_signals request.text)

  unfoldable pub request_level : AnalyzeRequest → RiskLevel
  request_level request =
      determine_risk_level (text_score request) (detect_canonical_signals request.text request.url)
        request.state

  -- The `AnalyzeResponse` that is returned.
  unfoldable pub response_of :
      AnalyzeRequest → List Action → List OfficialSource → List RiskSignal → AnalyzeResponse
  response_of request actions sources public_signals =
      let canonical_signals = detect_canonical_signals request.text request.url in
      let fraud_types = classify_fraud_types casefold canonical_signals request.text in
      record {
        risk_score =
            displayed_score (text_score request) canonical_signals request.state
              (request_level request);
        risk_level = request_level request;
        signals = public_signals;
        scenario = request.state;
        disclaimer = "현재 결과는 실험적 규칙 기반 위험 신호 분석이며 범죄 확정, 금융·법률 판단 또는 공식 신고 절차를 대신하지 않습니다.";
        fraud_types = fraud_types;
        summary =
            build_summary fraud_types public_signals request.state
              (contains_url request.text request.url);
        actions = actions;
        official_sources = sources;
      }

  unfoldable pub analyze_fraud : AnalyzeRequest → Result AnalysisError AnalyzeResponse
  analyze_fraud request = do
    let canonical_signals = detect_canonical_signals request.text request.url
    actions ← or_key_error (select_actions casefold canonical_signals request.state request.text)
    sources ← or_source_error (fraud_sources_for_actions actions)
    public_signals ← or_key_error (project_public_signals canonical_signals)
    ok (response_of request actions sources public_signals)
