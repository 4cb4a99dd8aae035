-- ===== src/Fraud/Policies.antt =====
-- app/domain/fraud/policy.py: `ActionPolicy` and the table `ACTION_POLICIES`.
use finshield_ai.Base.{ℕ, String, Option, none, some, List, [], ◌∷◌}
use finshield_ai.Fraud.Codes.{ActionCode}

pub record ActionPolicy : Type 0 where
  pub priority : ℕ
  pub title : String
  pub reason : String
  pub source_ids : List String

-- `ACTION_POLICIES[code]`; the placeholder has no entry, and a lookup of it raises.
unfoldable pub action_policies : ActionCode → Option ActionPolicy
action_policies ActionCode.stop_contact = some (record {
  priority = 1;
  title = "상대방과의 연락을 중단하세요";
  reason = "추가 지시를 따르기 전에 대화를 멈추면 피해 확대 가능성을 낮출 수 있습니다.";
  source_ids = "police_1394" ∷ [];
})
action_policies ActionCode.do_not_click = some (record {
  priority = 1;
  title = "링크를 누르지 마세요";
  reason = "출처가 확인되지 않은 링크는 개인정보 입력이나 악성 앱 설치로 이어질 수 있습니다.";
  source_ids = "kisa_smishing" ∷ [];
})
action_policies ActionCode.do_not_install = some (record {
  priority = 1;
  title = "앱이나 프로그램을 설치하지 마세요";
  reason = "상대방이 보낸 앱은 단말 제어 또는 정보 탈취에 악용될 수 있습니다.";
  source_ids = "kisa_smishing" ∷ [];
})
action_policies ActionCode.do_not_share_access = some (record {
  priority = 1;
  title = "인증정보와 금융 접근수단을 공유하지 마세요";
  reason = "비밀번호, OTP, 통장, 카드를 넘기면 계좌와 자금에 접근할 수 있습니다.";
  source_ids = "electronic_financial_transactions_act" ∷ [];
})
action_policies ActionCode.do_not_forward_money = some (record {
  priority = 1;
  title = "받은 돈을 다른 곳으로 보내지 마세요";
  reason = "출처를 모르는 자금을 재전달하면 피해가 커질 수 있으므로 먼저 금융기관에 확인해야 합니다.";
  source_ids = "police_1394" ∷ "fraud_refund_act" ∷ [];
})
action_policies ActionCode.verify_official_channel = some (record {
  priority = 2;
  title = "공식 대표번호로 사실을 확인하세요";
  reason = "메시지에 적힌 연락처가 아니라 해당 기관의 공식 채널을 직접 찾아 확인하세요.";
  source_ids = "police_1394" ∷ [];
})
action_policies ActionCode.verify_by_known_contact = some (record {
  priority = 1;
  title = "원래 알던 연락처로 본인에게 직접 확인하세요";
  reason =
      "상대가 어느 기관인지 밝히지 않았다면 찾아갈 공식 대표번호가 없습니다. 가족·지인을 자칭하면 이전부터 쓰던 번호로 본인에게, 그 밖에는 카드 뒷면이나 기존 거래 창구처럼 이미 알고 있는 연락처로 확인하세요. 지금 대화 중인 창과 메시지에 적힌 번호는 확인 수단이 아닙니다.";
  source_ids = "police_1394" ∷ [];
})
action_policies ActionCode.contact_financial_institution = some (record {
  priority = 1;
  title = "거래 금융기관에 즉시 연락하세요";
  reason = "계좌 접근이나 송금이 발생했다면 금융기관에 지급정지 등 가능한 조치를 문의해야 합니다.";
  source_ids = "fraud_refund_act" ∷ "police_ecrm_victim_help" ∷ [];
})
action_policies ActionCode.contact_1394 = some (record {
  priority = 1;
  title = "보이스피싱 통합신고대응센터 1394에 상담하세요";
  reason = "링크 클릭, 정보 제공, 악성 앱 설치 또는 송금 상황의 대응 절차를 안내받을 수 있습니다.";
  source_ids = "police_1394" ∷ [];
})
action_policies ActionCode.contact_112 = some (record {
  priority = 1;
  title = "긴급한 피해 상황은 112에 신고하세요";
  reason = "이미 계좌 접근, 자금 수취·재전달 또는 송금이 발생한 경우 신속한 신고가 필요합니다.";
  source_ids = "police_ecrm_victim_help" ∷ [];
})
action_policies ActionCode.contact_kisa_118 = some (record {
  priority = 1;
  title = "KISA 118에 상담하세요";
  reason = "스미싱, 악성 앱, 개인정보 침해 대응 안내를 받을 수 있습니다.";
  source_ids = "kisa_118" ∷ "kisa_smishing" ∷ [];
})
action_policies ActionCode.preserve_evidence = some (record {
  priority = 2;
  title = "대화와 거래 기록을 보존하세요";
  reason = "문자, 메신저, 전화번호, 계좌와 이체 내역은 신고와 상담에 도움이 됩니다.";
  source_ids = "police_ecrm_victim_help" ∷ [];
})
action_policies ActionCode.verify_claimed_identity = none
