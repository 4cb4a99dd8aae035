-- ===== src/Fraud/Detection/Rules.antt =====
-- app/domain/fraud/signals.py: the tables of rules, in their order.
pub mod Claims
pub mod Offers
pub mod Access
pub mod Money
pub mod Legacy
use finshield_ai.Base.{List, [], ◌∷◌}
use finshield_ai.Fraud.Detection.{SignalRule}
use finshield_ai.Fraud.Detection.Rules.Claims.{
  urgency_pressure_rule, authority_impersonation_rule, secrecy_isolation_rule,
  familiar_person_claim_rule,
}
use finshield_ai.Fraud.Detection.Rules.Offers.{
  guaranteed_return_offer_rule, private_channel_invite_rule, loan_policy_offer_rule,
}
use finshield_ai.Fraud.Detection.Rules.Access.{
  credential_request_rule, account_access_request_rule, app_install_request_rule,
  remote_control_request_rule,
}
use finshield_ai.Fraud.Detection.Rules.Money.{
  money_transfer_request_rule, receive_and_forward_money_rule, card_delivery_claim_rule,
}
use finshield_ai.Fraud.Detection.Rules.Legacy.{
  urgency_rule, credential_rule, account_access_rule, remote_app_rule, money_mule_rule,
}

-- `SIGNAL_RULES`
abbrev pub signal_rules : List SignalRule
signal_rules =
    urgency_pressure_rule ∷ authority_impersonation_rule ∷ secrecy_isolation_rule
    ∷ familiar_person_claim_rule ∷ guaranteed_return_offer_rule ∷ private_channel_invite_rule
    ∷ loan_policy_offer_rule ∷ credential_request_rule ∷ account_access_request_rule
    ∷ app_install_request_rule ∷ remote_control_request_rule ∷ money_transfer_request_rule
    ∷ receive_and_forward_money_rule ∷ card_delivery_claim_rule ∷ []

-- `LEGACY_RULES`
abbrev pub legacy_rules : List SignalRule
legacy_rules =
    urgency_rule ∷ credential_rule ∷ account_access_rule ∷ remote_app_rule ∷ money_mule_rule ∷ []
