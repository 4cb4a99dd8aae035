-- ===== src/Fraud/Tables.antt =====
-- app/domain/fraud/policy.py: the tables that give actions to signals and states, and the
-- vocabulary of events that have an official channel.
use finshield_ai.Base.{String, List, [], ◌∷◌}
use finshield_ai.Fraud.Codes.{ActionCode, SignalCode, UserState}

-- `OFFICIAL_CHANNEL_SIGNALS`
abbrev pub official_channel_signals : List SignalCode
official_channel_signals =
    SignalCode.authority_impersonation ∷ SignalCode.loan_policy_offer
    ∷ SignalCode.card_delivery_claim ∷ SignalCode.guaranteed_return_offer
    ∷ SignalCode.private_channel_invite ∷ []

-- `KNOWN_CONTACT_SIGNALS`
abbrev pub known_contact_signals : List SignalCode
known_contact_signals = SignalCode.familiar_person_claim ∷ []

-- `OFFICIAL_CHANNEL_CONTEXT_TERMS`
abbrev pub official_channel_context_terms : List String
official_channel_context_terms =
    "수사" ∷ "조사" ∷ "압수" ∷ "영장" ∷ "고소" ∷ "입건" ∷ "승인되었" ∷ "승인 되었" ∷ "결제 취소" ∷ "출금되었" ∷ "이상 거래"
    ∷ "부정 사용" ∷ "환급" ∷ "지급 대상" ∷ "지원금" ∷ "보조금" ∷ "과태료" ∷ "체납" ∷ "정부24" ∷ "홈택스" ∷ "복지로" ∷ "손택스" ∷ []

-- `SIGNAL_ACTIONS.get(code, ())`
unfoldable pub signal_actions : SignalCode → List ActionCode
signal_actions SignalCode.urgency_pressure =
    ActionCode.stop_contact ∷ ActionCode.verify_claimed_identity ∷ []
signal_actions SignalCode.authority_impersonation =
    ActionCode.stop_contact ∷ ActionCode.verify_claimed_identity ∷ []
signal_actions SignalCode.secrecy_isolation =
    ActionCode.stop_contact ∷ ActionCode.verify_claimed_identity ∷ []
signal_actions SignalCode.loan_policy_offer =
    ActionCode.stop_contact ∷ ActionCode.verify_claimed_identity ∷ []
signal_actions SignalCode.credential_request =
    ActionCode.do_not_share_access ∷ ActionCode.stop_contact ∷ ActionCode.verify_claimed_identity
    ∷ []
signal_actions SignalCode.account_access_request =
    ActionCode.do_not_share_access ∷ ActionCode.stop_contact ∷ ActionCode.verify_claimed_identity
    ∷ []
signal_actions SignalCode.app_install_request =
    ActionCode.do_not_install ∷ ActionCode.contact_kisa_118 ∷ []
signal_actions SignalCode.remote_control_request =
    ActionCode.do_not_install ∷ ActionCode.contact_kisa_118 ∷ []
signal_actions SignalCode.money_transfer_request =
    ActionCode.stop_contact ∷ ActionCode.contact_1394 ∷ []
signal_actions SignalCode.receive_and_forward_money =
    ActionCode.do_not_forward_money ∷ ActionCode.contact_financial_institution
    ∷ ActionCode.contact_1394 ∷ []
signal_actions SignalCode.suspicious_link =
    ActionCode.do_not_click ∷ ActionCode.contact_kisa_118 ∷ []
signal_actions SignalCode.card_delivery_claim =
    ActionCode.do_not_share_access ∷ ActionCode.verify_claimed_identity ∷ []
signal_actions SignalCode.familiar_person_claim =
    ActionCode.stop_contact ∷ ActionCode.verify_claimed_identity ∷ []
signal_actions SignalCode.guaranteed_return_offer =
    ActionCode.stop_contact ∷ ActionCode.verify_claimed_identity ∷ []
signal_actions SignalCode.private_channel_invite =
    ActionCode.stop_contact ∷ ActionCode.verify_claimed_identity ∷ []
signal_actions _ = []

-- `STATE_ACTIONS[state]`
unfoldable pub state_actions : UserState → List ActionCode
state_actions UserState.received_only = []
state_actions UserState.clicked_link =
    ActionCode.stop_contact ∷ ActionCode.do_not_click ∷ ActionCode.contact_kisa_118
    ∷ ActionCode.preserve_evidence ∷ []
state_actions UserState.shared_personal_info =
    ActionCode.stop_contact ∷ ActionCode.contact_kisa_118 ∷ ActionCode.contact_1394
    ∷ ActionCode.preserve_evidence ∷ []
state_actions UserState.shared_account_access =
    ActionCode.stop_contact ∷ ActionCode.contact_financial_institution ∷ ActionCode.contact_1394
    ∷ ActionCode.contact_112 ∷ ActionCode.preserve_evidence ∷ []
state_actions UserState.installed_app =
    ActionCode.stop_contact ∷ ActionCode.contact_kisa_118 ∷ ActionCode.contact_financial_institution
    ∷ ActionCode.contact_1394 ∷ ActionCode.preserve_evidence ∷ []
state_actions UserState.received_unknown_money =
    ActionCode.stop_contact ∷ ActionCode.do_not_forward_money
    ∷ ActionCode.contact_financial_institution ∷ ActionCode.contact_1394 ∷ ActionCode.contact_112
    ∷ ActionCode.preserve_evidence ∷ []
state_actions UserState.transferred_money =
    ActionCode.stop_contact ∷ ActionCode.contact_financial_institution ∷ ActionCode.contact_1394
    ∷ ActionCode.contact_112 ∷ ActionCode.preserve_evidence ∷ []

-- `STATE_PREVENTION_ACTIONS.get(state, ())`
unfoldable pub state_prevention_actions : UserState → List ActionCode
state_prevention_actions UserState.shared_personal_info = ActionCode.do_not_share_access ∷ []
state_prevention_actions UserState.shared_account_access = ActionCode.do_not_share_access ∷ []
state_prevention_actions UserState.installed_app = ActionCode.do_not_install ∷ []
state_prevention_actions UserState.transferred_money = ActionCode.do_not_forward_money ∷ []
state_prevention_actions _ = []

-- `SIGNAL_GATED_STATE_ACTIONS`
abbrev pub signal_gated_state_actions : List ActionCode
signal_gated_state_actions = ActionCode.stop_contact ∷ []
