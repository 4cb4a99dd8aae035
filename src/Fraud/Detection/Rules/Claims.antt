-- ===== src/Fraud/Detection/Rules/Claims.antt =====
-- app/domain/fraud/signals.py: the rules of who writes and how urgent it is.
use finshield_ai.Base.{[], ◌∷◌}
use finshield_ai.Fraud.Codes.{SignalCode}
use finshield_ai.Fraud.Detection.Terms.{isolation_secret_objects}
use finshield_ai.Fraud.Detection.{
  SignalRule, isolation_prohibition, channel_monopoly, external_isolation, familiar_self_reference,
}

unfoldable pub urgency_pressure_rule : SignalRule
urgency_pressure_rule = record {
  code = SignalCode.urgency_pressure;
  keywords =
      "오늘까지" ∷ "즉시" ∷ "긴급" ∷ "지금 바로" ∷ "곧 정지" ∷ "시간이 없습니다" ∷ "1시간 안에" ∷ "30분 내" ∷ "오늘 자정까지" ∷ "내일까지"
      ∷ "금일 중" ∷ "마감 임박" ∷ [];
  weight = 12;
  label = "긴급한 행동 압박";
  demand_gated_keywords = [];
  demand_gated_sequences = [];
  receipt_gated_keywords = [];
  demand_gated_patterns = [];
  money_gated_keywords = [];
  money_gated_sequences = [];
  investment_gated_keywords = [];
  accusation_contexts = [];
  patterns = [];
  pattern_exemptions = [];
  request_gated_keywords = [];
}

unfoldable pub authority_impersonation_rule : SignalRule
authority_impersonation_rule = record {
  code = SignalCode.authority_impersonation;
  keywords = "검찰" ∷ "경찰" ∷ "금융감독원" ∷ "금감원" ∷ "수사관" ∷ "정부기관" ∷ "공공기관" ∷ "수사기관" ∷ "법원" ∷ "집행관" ∷ [];
  weight = 25;
  label = "공식 기관 사칭 가능성";
  demand_gated_keywords = [];
  demand_gated_sequences = [];
  receipt_gated_keywords = [];
  demand_gated_patterns = [];
  money_gated_keywords = [];
  money_gated_sequences = [];
  investment_gated_keywords = [];
  accusation_contexts = [];
  patterns = [];
  pattern_exemptions = [];
  request_gated_keywords =
      "은행" ∷ "뱅크" ∷ "카드사" ∷ "공단" ∷ "국세청" ∷ "관세청" ∷ "병무청" ∷ "우체국" ∷ "건강보험" ∷ "국민연금" ∷ "근로복지" ∷ "농협"
      ∷ "토스" ∷ "증권사" ∷ "새마을금고" ∷ "세무서" ∷ "신용정보원" ∷ "금융결제원" ∷ "지검" ∷ [];
}

unfoldable pub secrecy_isolation_rule : SignalRule
secrecy_isolation_rule = record {
  code = SignalCode.secrecy_isolation;
  keywords =
      "아무에게도 말하지" ∷ "아무에게도 알리지" ∷ "누구에게도 말" ∷ "누구에게도 알리" ∷ "누구에게도 보여" ∷ "주변에 말하지" ∷ "주변에는 알리지"
      ∷ "주변에 알리지" ∷ "가족에게도 알리" ∷ "가족에게도 말" ∷ "가족에게도 비밀" ∷ "통화를 끊지" ∷ "통화 끊지" ∷ "전화 끊지" ∷ "전화를 끊지"
      ∷ "혼자 처리하셔" ∷ "혼자 처리하세" ∷ "혼자 조용히" ∷ "저와만 연락" ∷ "저에게만 연락" ∷ "제게만 연락" ∷ "직원에게도 알리"
      ∷ "다른 곳에 연락하지" ∷ [];
  weight = 18;
  label = "주변 확인을 막는 고립 요구";
  demand_gated_keywords = [];
  demand_gated_sequences = [];
  receipt_gated_keywords = [];
  demand_gated_patterns = [];
  money_gated_keywords = [];
  money_gated_sequences = [];
  investment_gated_keywords = [];
  accusation_contexts = [];
  patterns = isolation_prohibition ∷ channel_monopoly ∷ external_isolation ∷ [];
  pattern_exemptions = isolation_secret_objects;
  request_gated_keywords = [];
}

unfoldable pub familiar_person_claim_rule : SignalRule
familiar_person_claim_rule = record {
  code = SignalCode.familiar_person_claim;
  keywords =
      "폰이 고장" ∷ "폰 고장" ∷ "핸드폰이 고장" ∷ "휴대폰이 고장" ∷ "폰이 망가" ∷ "핸드폰이 망가" ∷ "휴대폰이 망가" ∷ "액정이 깨" ∷ "액정 깨"
      ∷ "폰 액정" ∷ "새 번호로" ∷ "번호가 바뀌었" ∷ "번호 바뀌었" ∷ "번호 바꿨" ∷ "번호를 바꿨" ∷ "이 번호로 저장" ∷ "전화가 안 돼"
      ∷ "전화가 안돼" ∷ "카톡이 안 돼" ∷ "카톡이 안돼" ∷ "통화가 안 돼" ∷ "통화가 안돼" ∷ "전화를 못 받" ∷ "친구 폰으로" ∷ "다른 폰으로"
      ∷ "컴퓨터로 카톡" ∷ "지금 컴퓨터로" ∷ [];
  weight = 25;
  label = "가족·지인 자칭과 연락 수단 변경";
  demand_gated_keywords = [];
  demand_gated_sequences = [];
  receipt_gated_keywords = [];
  demand_gated_patterns = familiar_self_reference ∷ [];
  money_gated_keywords = [];
  money_gated_sequences = [];
  investment_gated_keywords = [];
  accusation_contexts = [];
  patterns = [];
  pattern_exemptions = [];
  request_gated_keywords = [];
}
