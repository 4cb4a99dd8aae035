-- ===== src/Fraud/Detection/Rules/Offers.antt =====
-- app/domain/fraud/signals.py: the rules of what is offered.
use finshield_ai.Base.{[], ◌∷◌}
use finshield_ai.Fraud.Codes.{SignalCode}
use finshield_ai.Fraud.Detection.{SignalRule}

unfoldable pub guaranteed_return_offer_rule : SignalRule
guaranteed_return_offer_rule = record {
  code = SignalCode.guaranteed_return_offer;
  keywords =
      "원금 보장" ∷ "원금보장" ∷ "원금을 보장" ∷ "손실 보전" ∷ "손실보전" ∷ "전액 보전" ∷ "메워 드" ∷ "메워 주" ∷ "메워 줄" ∷ "메워 줘"
      ∷ "확정 수익" ∷ "확정수익" ∷ "배 확정" ∷ "수익 보장" ∷ "수익보장" ∷ "무조건 수익" ∷ "절대 손해" ∷ "손해 볼 일 없" ∷ [];
  weight = 30;
  label = "원금·수익 보장 제안";
  demand_gated_keywords = [];
  demand_gated_sequences = [];
  receipt_gated_keywords = [];
  demand_gated_patterns = [];
  money_gated_keywords = [];
  money_gated_sequences = [];
  investment_gated_keywords = [];
  accusation_contexts = [];
  patterns = [];
  pattern_exemptions = [];
  request_gated_keywords = [];
}

unfoldable pub private_channel_invite_rule : SignalRule
private_channel_invite_rule = record {
  code = SignalCode.private_channel_invite;
  keywords =
      "리딩방에 초대" ∷ "리딩방 초대" ∷ "리딩방으로" ∷ "리딩방 입장" ∷ "무료 리딩" ∷ "종목 추천방" ∷ "종목추천방" ∷ "추천방으로" ∷ "1:1 상담방"
      ∷ "1대1 상담방" ∷ "전담 애널리스트" ∷ "vip방" ∷ "vip 방" ∷ [];
  weight = 25;
  label = "폐쇄 채널·리딩방 유도";
  demand_gated_keywords = [];
  demand_gated_sequences = [];
  receipt_gated_keywords = [];
  demand_gated_patterns = [];
  money_gated_keywords = [];
  money_gated_sequences = [];
  investment_gated_keywords = "단톡방" ∷ "오픈채팅방" ∷ "오픈 채팅방" ∷ "오픈채팅" ∷ "비공개 방" ∷ "체험방" ∷ "텔레그램" ∷ [];
  accusation_contexts = [];
  patterns = [];
  pattern_exemptions = [];
  request_gated_keywords = [];
}

unfoldable pub loan_policy_offer_rule : SignalRule
loan_policy_offer_rule = record {
  code = SignalCode.loan_policy_offer;
  keywords =
      "저금리 대출" ∷ "정책자금" ∷ "정책 자금" ∷ "햇살론" ∷ "정부지원 대출" ∷ "대환대출" ∷ "특례 대출" ∷ "보증료 입금" ∷ "정부 융자" ∷ [];
  weight = 30;
  label = "대출·정책금융 제안";
  demand_gated_keywords = [];
  demand_gated_sequences = [];
  receipt_gated_keywords = [];
  demand_gated_patterns = [];
  money_gated_keywords = [];
  money_gated_sequences = [];
  investment_gated_keywords = [];
  accusation_contexts = [];
  patterns = [];
  pattern_exemptions = [];
  request_gated_keywords = "대환 대출" ∷ [];
}
