-- ===== src/Fraud/Detection/Rules/Access.antt =====
-- app/domain/fraud/signals.py: the rules of what is asked for, but money.
use finshield_ai.Base.{[], ◌∷◌}
use finshield_ai.Fraud.Codes.{SignalCode}
use finshield_ai.Fraud.Detection.Terms.{account_authority_sequences}
use finshield_ai.Fraud.Detection.{SignalRule}

unfoldable pub credential_request_rule : SignalRule
credential_request_rule = record {
  code = SignalCode.credential_request;
  keywords = [];
  weight = 40;
  label = "인증정보 요구";
  demand_gated_keywords =
      "인증번호" ∷ "비밀번호" ∷ "비번" ∷ "otp" ∷ "보안카드 번호" ∷ "일회용 승인코드" ∷ "공인인증서" ∷ "보안카드" ∷ "뒷면 세 자리"
      ∷ "신분증 사진" ∷ [];
  demand_gated_sequences = [];
  receipt_gated_keywords = [];
  demand_gated_patterns = [];
  money_gated_keywords = [];
  money_gated_sequences = [];
  investment_gated_keywords = [];
  accusation_contexts = [];
  patterns = [];
  pattern_exemptions = [];
  request_gated_keywords = [];
}

unfoldable pub account_access_request_rule : SignalRule
account_access_request_rule = record {
  code = SignalCode.account_access_request;
  keywords = "계좌를 빌려" ∷ "계좌 대여" ∷ "카드를 보내" ∷ "카드 전달" ∷ [];
  weight = 40;
  label = "계좌·접근수단 요구";
  demand_gated_keywords = "체크카드" ∷ "통장" ∷ "계좌번호" ∷ [];
  demand_gated_sequences = account_authority_sequences;
  receipt_gated_keywords = [];
  demand_gated_patterns = [];
  money_gated_keywords = [];
  money_gated_sequences = [];
  investment_gated_keywords = [];
  accusation_contexts = "대포통장" ∷ "대포 통장" ∷ "통장이 범죄" ∷ "계좌가 범죄" ∷ "통장이 대포" ∷ [];
  patterns = [];
  pattern_exemptions = [];
  request_gated_keywords = [];
}

unfoldable pub app_install_request_rule : SignalRule
app_install_request_rule = record {
  code = SignalCode.app_install_request;
  keywords = "apk" ∷ "실행파일" ∷ "설치 파일" ∷ "설치 링크" ∷ [];
  weight = 35;
  label = "앱 설치 요구";
  demand_gated_keywords = "설치" ∷ "내려받" ∷ "다운로드" ∷ "깔아" ∷ [];
  demand_gated_sequences = [];
  receipt_gated_keywords = [];
  demand_gated_patterns = [];
  money_gated_keywords = [];
  money_gated_sequences = [];
  investment_gated_keywords = [];
  accusation_contexts = [];
  patterns = [];
  pattern_exemptions = [];
  request_gated_keywords = [];
}

unfoldable pub remote_control_request_rule : SignalRule
remote_control_request_rule = record {
  code = SignalCode.remote_control_request;
  keywords = "원격제어" ∷ "원격 접속" ∷ "화면 공유" ∷ "팀뷰어" ∷ "애니데스크" ∷ "원격 프로그램" ∷ [];
  weight = 40;
  label = "원격제어·화면공유 요구";
  demand_gated_keywords = [];
  demand_gated_sequences = [];
  receipt_gated_keywords = [];
  demand_gated_patterns = [];
  money_gated_keywords = [];
  money_gated_sequences = [];
  investment_gated_keywords = [];
  accusation_contexts = [];
  patterns = [];
  pattern_exemptions = [];
  request_gated_keywords = [];
}
