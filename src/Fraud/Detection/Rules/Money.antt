-- ===== src/Fraud/Detection/Rules/Money.antt =====
-- app/domain/fraud/signals.py: the rules of money and cards.
use finshield_ai.Base.{[], ◌∷◌}
use finshield_ai.Fraud.Codes.{SignalCode}
use finshield_ai.Fraud.Detection.{SignalRule, payment_to_account}

unfoldable pub money_transfer_request_rule : SignalRule
money_transfer_request_rule = record {
  code = SignalCode.money_transfer_request;
  keywords =
      "송금해" ∷ "입금해" ∷ "돈을 보내" ∷ "이체하세요" ∷ "이체해" ∷ "이체 바랍니다" ∷ "이체를 진행" ∷ "입금하셔" ∷ "송금하셔" ∷ "이체하셔"
      ∷ "입금하시면" ∷ "송금하시면" ∷ "이체하시면" ∷ [];
  weight = 35;
  label = "송금 요구";
  demand_gated_keywords = "안전계좌" ∷ "보호계좌" ∷ [];
  demand_gated_sequences = [];
  receipt_gated_keywords = [];
  demand_gated_patterns = [];
  money_gated_keywords = "옮기" ∷ "옮겨" ∷ [];
  money_gated_sequences = [];
  investment_gated_keywords = [];
  accusation_contexts = [];
  patterns = payment_to_account ∷ [];
  pattern_exemptions = [];
  request_gated_keywords = [];
}

unfoldable pub receive_and_forward_money_rule : SignalRule
receive_and_forward_money_rule = record {
  code = SignalCode.receive_and_forward_money;
  keywords = "입금받고" ∷ "재송금" ∷ "돈을 받아서 보내" ∷ "수령한 금액" ∷ [];
  weight = 70;
  label = "자금 수취·재전달 요구";
  demand_gated_keywords = [];
  demand_gated_sequences = [];
  receipt_gated_keywords = "옮기" ∷ "옮겨" ∷ "넘겨" ∷ "넘기" ∷ "반환" ∷ "반송" ∷ "돌려주" ∷ "다시 이체" ∷ [];
  demand_gated_patterns = [];
  money_gated_keywords = "다시 보내" ∷ "전달해" ∷ "돌려보내" ∷ "나눠 보내" ∷ [];
  money_gated_sequences = ("빼서" ∷ "넣어" ∷ []) ∷ ("빼서" ∷ "보내" ∷ []) ∷ ("빼서" ∷ "이체" ∷ []) ∷ [];
  investment_gated_keywords = [];
  accusation_contexts = [];
  patterns = [];
  pattern_exemptions = [];
  request_gated_keywords = [];
}

unfoldable pub card_delivery_claim_rule : SignalRule
card_delivery_claim_rule = record {
  code = SignalCode.card_delivery_claim;
  keywords =
      "카드 배송" ∷ "카드가 발급" ∷ "신청한 카드" ∷ "신청하신 카드" ∷ "카드 배달" ∷ "배송 기사" ∷ "신용카드 수령" ∷ "발급된 카드"
      ∷ "발급된 체크카드" ∷ "발급된 신용카드" ∷ "카드를 배송" ∷ "택배 기사" ∷ [];
  weight = 35;
  label = "신청하지 않은 카드 배송·발급 주장";
  demand_gated_keywords = [];
  demand_gated_sequences = [];
  receipt_gated_keywords = [];
  demand_gated_patterns = [];
  money_gated_keywords = [];
  money_gated_sequences = [];
  investment_gated_keywords = [];
  accusation_contexts = [];
  patterns = [];
  pattern_exemptions = [];
  request_gated_keywords = [];
}
