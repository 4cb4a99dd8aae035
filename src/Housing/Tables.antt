-- ===== src/Housing/Tables.antt =====
-- app/domain/housing/policy.py: the tables. Each has an entry for every code.
use finshield_ai.Base.{ℕ, String, List, [], ◌∷◌}
use finshield_ai.Risk.{RiskLevel, low, medium, high}
use finshield_ai.Housing.Codes.{ActionCode, SignalCode, LeaseStage, DepositCheck}

-- `STAGE_ACTIONS`
unfoldable pub stage_actions : LeaseStage → List ActionCode
stage_actions LeaseStage.before_contract =
    ActionCode.check_registry ∷ ActionCode.verify_owner_identity ∷ ActionCode.check_tax_arrears ∷ []
stage_actions LeaseStage.contract_signed =
    ActionCode.check_registry ∷ ActionCode.verify_owner_identity ∷ ActionCode.check_tax_arrears
    ∷ ActionCode.join_deposit_guarantee ∷ []
stage_actions LeaseStage.balance_paid =
    ActionCode.report_move_in ∷ ActionCode.get_confirmed_date ∷ ActionCode.join_deposit_guarantee
    ∷ []
stage_actions LeaseStage.moved_in =
    ActionCode.keep_opposing_power ∷ ActionCode.join_deposit_guarantee ∷ []
stage_actions LeaseStage.lease_ending = ActionCode.keep_opposing_power ∷ []
stage_actions LeaseStage.deposit_unreturned =
    ActionCode.keep_opposing_power ∷ ActionCode.apply_lease_registration_order
    ∷ ActionCode.check_victim_support ∷ []

-- `SIGNAL_ACTIONS`
unfoldable pub signal_actions : SignalCode → List ActionCode
signal_actions SignalCode.high_debt_ratio = ActionCode.join_deposit_guarantee ∷ []
signal_actions SignalCode.elevated_debt_ratio = ActionCode.join_deposit_guarantee ∷ []
signal_actions SignalCode.property_price_unknown = []
signal_actions SignalCode.senior_lien_unknown = ActionCode.check_registry ∷ []
signal_actions SignalCode.registry_not_checked = ActionCode.check_registry ∷ []
signal_actions SignalCode.owner_identity_unverified = ActionCode.verify_owner_identity ∷ []
signal_actions SignalCode.tax_arrears_unchecked = ActionCode.check_tax_arrears ∷ []
signal_actions SignalCode.opposing_power_missing =
    ActionCode.report_move_in ∷ ActionCode.get_confirmed_date ∷ []
signal_actions SignalCode.priority_repayment_missing = ActionCode.get_confirmed_date ∷ []
signal_actions SignalCode.deposit_guarantee_absent = ActionCode.join_deposit_guarantee ∷ []
signal_actions SignalCode.deposit_unreturned =
    ActionCode.keep_opposing_power ∷ ActionCode.apply_lease_registration_order
    ∷ ActionCode.check_victim_support ∷ []

-- `SIGNAL_MINIMUM_RISK`
unfoldable pub signal_minimum_risk : SignalCode → RiskLevel
signal_minimum_risk SignalCode.high_debt_ratio = high
signal_minimum_risk SignalCode.elevated_debt_ratio = medium
signal_minimum_risk SignalCode.property_price_unknown = medium
signal_minimum_risk SignalCode.senior_lien_unknown = medium
signal_minimum_risk SignalCode.registry_not_checked = medium
signal_minimum_risk SignalCode.owner_identity_unverified = medium
signal_minimum_risk SignalCode.tax_arrears_unchecked = medium
signal_minimum_risk SignalCode.opposing_power_missing = high
signal_minimum_risk SignalCode.priority_repayment_missing = medium
signal_minimum_risk SignalCode.deposit_guarantee_absent = medium
signal_minimum_risk SignalCode.deposit_unreturned = high

-- `STAGE_MINIMUM_RISK`
unfoldable pub stage_minimum_risk : LeaseStage → RiskLevel
stage_minimum_risk LeaseStage.before_contract = low
stage_minimum_risk LeaseStage.contract_signed = low
stage_minimum_risk LeaseStage.balance_paid = medium
stage_minimum_risk LeaseStage.moved_in = low
stage_minimum_risk LeaseStage.lease_ending = low
stage_minimum_risk LeaseStage.deposit_unreturned = high

-- `GUARANTEE_RELEVANT_STAGES`
unfoldable pub guarantee_relevant_stages : List LeaseStage
guarantee_relevant_stages =
    LeaseStage.contract_signed ∷ LeaseStage.balance_paid ∷ LeaseStage.moved_in
    ∷ LeaseStage.lease_ending ∷ []

-- `TAX_ARREARS_RELEVANT_STAGES`
unfoldable pub tax_arrears_relevant_stages : List LeaseStage
tax_arrears_relevant_stages = LeaseStage.before_contract ∷ LeaseStage.contract_signed ∷ []

-- `ACTION_ORDER`
unfoldable pub action_order : List ActionCode
action_order =
    ActionCode.check_registry ∷ ActionCode.verify_owner_identity ∷ ActionCode.check_tax_arrears
    ∷ ActionCode.report_move_in ∷ ActionCode.get_confirmed_date ∷ ActionCode.keep_opposing_power
    ∷ ActionCode.apply_lease_registration_order ∷ ActionCode.join_deposit_guarantee
    ∷ ActionCode.check_victim_support ∷ []

-- The items of `COMPLETED_CHECK_ACTIONS`
unfoldable pub completed_check_actions : List (DepositCheck × ActionCode)
completed_check_actions =
    (DepositCheck.registry_checked, ActionCode.check_registry)
    ∷ (DepositCheck.owner_identity_verified, ActionCode.verify_owner_identity)
    ∷ (DepositCheck.tax_arrears_checked, ActionCode.check_tax_arrears)
    ∷ (DepositCheck.move_in_reported, ActionCode.report_move_in)
    ∷ (DepositCheck.confirmed_date_obtained, ActionCode.get_confirmed_date)
    ∷ (DepositCheck.deposit_guarantee_joined, ActionCode.join_deposit_guarantee)
    ∷ []

-- `SIGNAL_LABELS`
unfoldable pub signal_labels : SignalCode → String
signal_labels SignalCode.high_debt_ratio = "주택가격 대비 보증금·선순위 채권 비중이 큽니다"
signal_labels SignalCode.elevated_debt_ratio = "주택가격 대비 보증금·선순위 채권 비중이 낮지 않습니다"
signal_labels SignalCode.property_price_unknown = "주택가격을 입력하지 않아 비율을 계산하지 못했습니다"
signal_labels SignalCode.senior_lien_unknown = "선순위 채권최고액을 확인하지 않았습니다"
signal_labels SignalCode.registry_not_checked = "등기부등본을 확인하지 않았습니다"
signal_labels SignalCode.owner_identity_unverified = "계약 상대가 등기부상 소유자인지 확인하지 않았습니다"
signal_labels SignalCode.tax_arrears_unchecked = "임대인의 미납 국세·지방세를 열람하지 않았습니다"
signal_labels SignalCode.opposing_power_missing = "입주했는데 전입신고가 확인되지 않습니다"
signal_labels SignalCode.priority_repayment_missing = "확정일자가 확인되지 않습니다"
signal_labels SignalCode.deposit_guarantee_absent = "전세보증금반환보증에 가입하지 않았습니다"
signal_labels SignalCode.deposit_unreturned = "계약이 끝났는데 보증금을 돌려받지 못했습니다"

pub record ActionPolicy : Type 0 where
  pub priority : ℕ
  pub title : String
  pub reason : String
  pub source_ids : List String

-- `ACTION_POLICIES`
unfoldable pub action_policies : ActionCode → ActionPolicy
action_policies ActionCode.check_registry = record {
  priority = 1;
  title = "등기부등본을 직접 떼어 확인하세요";
  reason = "소유자, 근저당권 등 선순위 권리는 등기부에서만 확인할 수 있습니다. 상대방이 보여 주는 사본이 아니라 직접 발급받은 것을 보세요.";
  source_ids = "easylaw_property_registry" ∷ [];
}
action_policies ActionCode.verify_owner_identity = record {
  priority = 1;
  title = "계약 상대가 등기부상 소유자인지 확인하세요";
  reason = "등기부의 소유자와 계약서에 서명하는 사람이 다르면 대리권이 있는지 함께 확인해야 합니다.";
  source_ids = "easylaw_property_registry" ∷ [];
}
action_policies ActionCode.check_tax_arrears = record {
  priority = 1;
  title = "임대인의 미납 국세·지방세를 열람하세요";
  reason =
      "국세징수법 제109조와 지방세징수법 제6조는 임차인이 임대인의 동의를 받아 미납 세금 열람을 신청할 수 있다고 정하고 있습니다. 보증금이 대통령령으로 정하는 금액을 초과하면 임대차 기간이 시작하는 날까지 임대인의 동의 없이도 신청할 수 있습니다. 국세는 임차할 건물 소재지의 관할 세무서장에게, 지방세는 지방자치단체의 장에게 신청합니다.";
  source_ids = "national_tax_collection_act_article109" ∷ "local_tax_collection_act_article6" ∷ [];
}
action_policies ActionCode.report_move_in = record {
  priority = 1;
  title = "입주 후 곧바로 전입신고를 하세요";
  reason = "주택임대차보호법 제3조 제1항은 주택의 인도와 주민등록을 마친 때 그 다음 날부터 대항력이 생긴다고 정하고 있습니다.";
  source_ids = "housing_lease_act_article3" ∷ "easylaw_opposing_power" ∷ [];
}
action_policies ActionCode.get_confirmed_date = record {
  priority = 1;
  title = "임대차계약서에 확정일자를 받으세요";
  reason =
      "주택임대차보호법 제3조의2 제2항은 대항요건과 확정일자를 갖춘 임차인이 경매·공매의 환가대금에서 후순위권리자보다 우선하여 보증금을 변제받을 권리가 있다고 정하고 있습니다.";
  source_ids = "housing_lease_act_article3_2" ∷ "easylaw_opposing_power" ∷ [];
}
action_policies ActionCode.join_deposit_guarantee = record {
  priority = 2;
  title = "전세보증금반환보증 가입 조건을 확인하세요";
  reason = "주택도시보증공사(HUG)가 전세보증금반환보증을 운영합니다. 가입 대상과 조건은 기관 안내에서 직접 확인하세요.";
  source_ids = "khug_deposit_return_guarantee" ∷ [];
}
action_policies ActionCode.keep_opposing_power = record {
  priority = 1;
  title = "보증금을 돌려받기 전에는 전출하지 마세요";
  reason = "대항요건은 주민등록을 유지하는 동안 유지됩니다. 먼저 이사해야 한다면 임차권등기명령 절차를 확인한 뒤에 움직이세요.";
  source_ids = "housing_lease_act_article3" ∷ "easylaw_lease_registration_order" ∷ [];
}
action_policies ActionCode.apply_lease_registration_order = record {
  priority = 1;
  title = "임차권등기명령 신청을 검토하세요";
  reason = "임대차가 끝난 뒤 보증금을 돌려받지 못한 경우 신청할 수 있으며, 등기 후에는 이사하더라도 이미 취득한 대항력과 우선변제권이 유지됩니다.";
  source_ids = "easylaw_lease_registration_order" ∷ [];
}
action_policies ActionCode.check_victim_support = record {
  priority = 2;
  title = "전세사기피해자 지원 요건에 해당하는지 확인하세요";
  reason = "전세사기피해자 지원 및 주거안정에 관한 특별법 제3조가 요건을 정하고 있습니다. 해당 여부는 이 서비스가 판단하지 않습니다.";
  source_ids = "jeonse_fraud_victim_act_article3" ∷ [];
}
