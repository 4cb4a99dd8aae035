-- ===== src/Fraud/Minimums.antt =====
-- app/domain/fraud/policy.py: the least risk of each state and signal, and the combinations of
-- signals that are high.
use finshield_ai.Base.{List, [], ◌∷◌}
use finshield_ai.Risk.{RiskLevel, low, medium, high}
use finshield_ai.Fraud.Codes.{SignalCode, UserState}

-- `STATE_MINIMUM_RISK[state]`
unfoldable pub state_minimum_risk : UserState → RiskLevel
state_minimum_risk UserState.received_only = low
state_minimum_risk UserState.clicked_link = medium
state_minimum_risk UserState.shared_personal_info = medium
state_minimum_risk UserState.shared_account_access = high
state_minimum_risk UserState.installed_app = high
state_minimum_risk UserState.received_unknown_money = high
state_minimum_risk UserState.transferred_money = high

-- `SIGNAL_MINIMUM_RISK.get(code, "low")`
unfoldable pub signal_minimum_risk : SignalCode → RiskLevel
signal_minimum_risk SignalCode.authority_impersonation = medium
signal_minimum_risk SignalCode.secrecy_isolation = medium
signal_minimum_risk SignalCode.loan_policy_offer = medium
signal_minimum_risk SignalCode.credential_request = medium
signal_minimum_risk SignalCode.account_access_request = medium
signal_minimum_risk SignalCode.app_install_request = medium
signal_minimum_risk SignalCode.remote_control_request = high
signal_minimum_risk SignalCode.money_transfer_request = medium
signal_minimum_risk SignalCode.receive_and_forward_money = high
signal_minimum_risk SignalCode.suspicious_link = medium
signal_minimum_risk SignalCode.card_delivery_claim = medium
signal_minimum_risk SignalCode.familiar_person_claim = medium
signal_minimum_risk SignalCode.guaranteed_return_offer = medium
signal_minimum_risk SignalCode.private_channel_invite = medium
signal_minimum_risk _ = low

-- `HIGH_RISK_SIGNAL_COMBINATIONS`
unfoldable pub high_risk_signal_combinations : List (List SignalCode)
high_risk_signal_combinations =
    (SignalCode.authority_impersonation ∷ SignalCode.money_transfer_request ∷ [])
    ∷ (SignalCode.loan_policy_offer ∷ SignalCode.account_access_request ∷ [])
    ∷ (SignalCode.app_install_request ∷ SignalCode.remote_control_request ∷ [])
    ∷ (SignalCode.familiar_person_claim ∷ SignalCode.money_transfer_request ∷ [])
    ∷ (SignalCode.familiar_person_claim ∷ SignalCode.credential_request ∷ [])
    ∷ (SignalCode.familiar_person_claim ∷ SignalCode.account_access_request ∷ [])
    ∷ (SignalCode.guaranteed_return_offer ∷ SignalCode.money_transfer_request ∷ [])
    ∷ (SignalCode.private_channel_invite ∷ SignalCode.money_transfer_request ∷ [])
    ∷ (SignalCode.authority_impersonation ∷ SignalCode.credential_request ∷ [])
    ∷ (SignalCode.authority_impersonation ∷ SignalCode.account_access_request ∷ [])
    ∷ (SignalCode.authority_impersonation ∷ SignalCode.app_install_request ∷ [])
    ∷ (SignalCode.authority_impersonation ∷ SignalCode.remote_control_request ∷ [])
    ∷ (SignalCode.authority_impersonation ∷ SignalCode.receive_and_forward_money ∷ [])
    ∷ (SignalCode.authority_impersonation ∷ SignalCode.card_delivery_claim ∷ [])
    ∷ (SignalCode.authority_impersonation ∷ SignalCode.suspicious_link ∷ [])
    ∷ (SignalCode.authority_impersonation ∷ SignalCode.secrecy_isolation ∷ [])
    ∷ (SignalCode.loan_policy_offer ∷ SignalCode.money_transfer_request ∷ [])
    ∷ (SignalCode.urgency_pressure ∷ SignalCode.credential_request ∷ [])
    ∷ (SignalCode.urgency_pressure ∷ SignalCode.account_access_request ∷ [])
    ∷ (SignalCode.loan_policy_offer ∷ SignalCode.credential_request ∷ [])
    ∷ []
