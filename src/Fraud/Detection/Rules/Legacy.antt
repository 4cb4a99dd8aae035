-- ===== src/Fraud/Detection/Rules/Legacy.antt =====
-- app/domain/fraud/signals.py: the rules of the legacy score.
use finshield_ai.Base.{[], ◌∷◌}
use finshield_ai.Fraud.Codes.{SignalCode}
use finshield_ai.Fraud.Detection.{SignalRule}

unfoldable pub urgency_rule : SignalRule
urgency_rule = record {
  code = SignalCode.urgency;
  keywords = "오늘까지" ∷ "즉시" ∷ "긴급" ∷ "지금 바로" ∷ [];
  weight = 12;
  label = "긴급한 행동 요구";
  demand_gated_keywords = [];
  demand_gated_sequences = [];
  receipt_gated_keywords = [];
  demand_gated_patterns = [];
  money_gated_keywords = [];
  money_gated_sequences = [];
  investment_gated_keywords = [];
  accusation_contexts = [];
  patterns = [];
  pattern_exemptions = [];
  request_gated_keywords = [];
}

unfoldable pub credential_rule : SignalRule
credential_rule = record {
  code = SignalCode.credential;
  keywords = [];
  weight = 25;
  label = "인증정보 요구";
  demand_gated_keywords = "인증번호" ∷ "비밀번호" ∷ "otp" ∷ [];
  demand_gated_sequences = [];
  receipt_gated_keywords = [];
  demand_gated_patterns = [];
  money_gated_keywords = [];
  money_gated_sequences = [];
  investment_gated_keywords = [];
  accusation_contexts = [];
  patterns = [];
  pattern_exemptions = [];
  request_gated_keywords = [];
}

unfoldable pub account_access_rule : SignalRule
account_access_rule = record {
  code = SignalCode.account_access;
  keywords = "계좌를 빌려" ∷ "계좌 대여" ∷ [];
  weight = 35;
  label = "계좌·접근수단 요구";
  demand_gated_keywords = "체크카드" ∷ "통장" ∷ [];
  demand_gated_sequences = [];
  receipt_gated_keywords = [];
  demand_gated_patterns = [];
  money_gated_keywords = [];
  money_gated_sequences = [];
  investment_gated_keywords = [];
  accusation_contexts = [];
  patterns = [];
  pattern_exemptions = [];
  request_gated_keywords = [];
}

unfoldable pub remote_app_rule : SignalRule
remote_app_rule = record {
  code = SignalCode.remote_app;
  keywords = "원격제어" ∷ "apk" ∷ [];
  weight = 30;
  label = "앱 설치·원격접속 요구";
  demand_gated_keywords = "설치" ∷ [];
  demand_gated_sequences = [];
  receipt_gated_keywords = [];
  demand_gated_patterns = [];
  money_gated_keywords = [];
  money_gated_sequences = [];
  investment_gated_keywords = [];
  accusation_contexts = [];
  patterns = [];
  pattern_exemptions = [];
  request_gated_keywords = [];
}

unfoldable pub money_mule_rule : SignalRule
money_mule_rule = record {
  code = SignalCode.money_mule;
  keywords = "입금받고" ∷ "재송금" ∷ [];
  weight = 35;
  label = "자금 수취·재전달 요구";
  demand_gated_keywords = [];
  demand_gated_sequences = [];
  receipt_gated_keywords = [];
  demand_gated_patterns = [];
  money_gated_keywords = "다시 보내" ∷ "전달해" ∷ [];
  money_gated_sequences = [];
  investment_gated_keywords = [];
  accusation_contexts = [];
  patterns = [];
  pattern_exemptions = [];
  request_gated_keywords = [];
}
