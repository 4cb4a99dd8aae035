-- ===== src/Fraud/Codes.antt =====
-- app/schemas/analysis.py: the codes and records of the fraud analysis. The source's codes are
-- strings; those that its tables name are constructors here, and `other` is any further one.
use finshield_ai.Base.{ℕ, String, List, Eq, eq_of_discrete, ℕ_discrete}

pub data UserState : Type 0 where
  received_only clicked_link shared_personal_info shared_account_access installed_app : UserState
  received_unknown_money transferred_money : UserState

-- The canonical signals, then the five codes of `LEGACY_RULES`.
pub data SignalCode : Type 0 where
  urgency_pressure authority_impersonation secrecy_isolation loan_policy_offer credential_request
        account_access_request :
      SignalCode
  app_install_request remote_control_request money_transfer_request receive_and_forward_money
        suspicious_link card_delivery_claim familiar_person_claim guaranteed_return_offer
        private_channel_invite :
      SignalCode
  urgency credential account_access remote_app money_mule : SignalCode
  other : ℕ → SignalCode

pub record RiskSignal : Type 0 where
  pub code : SignalCode
  pub label : String
  pub weight : ℕ

-- The codes of `ACTION_POLICIES`, and the placeholder `VERIFY_CLAIMED_IDENTITY` of the tables.
pub data ActionCode : Type 0 where
  stop_contact do_not_click do_not_install do_not_share_access do_not_forward_money
        verify_official_channel :
      ActionCode
  verify_by_known_contact contact_financial_institution contact_1394 contact_112 contact_kisa_118
        preserve_evidence verify_claimed_identity :
      ActionCode

pub record Action : Type 0 where
  pub code : ActionCode
  pub priority : ℕ
  pub title : String
  pub reason : String
  pub source_ids : List String

unfoldable pub SignalCode-discrete : Discrete SignalCode
SignalCode-discrete = hlevel ℕ_discrete

unfoldable pub ActionCode-discrete : Discrete ActionCode
ActionCode-discrete = hlevel

instance abbrev pub signal_code_eq : Eq SignalCode
signal_code_eq = eq_of_discrete SignalCode-discrete

instance abbrev pub action_code_eq : Eq ActionCode
action_code_eq = eq_of_discrete ActionCode-discrete

-- The string that the source writes for the code.
unfoldable pub spelling : ActionCode → String
spelling stop_contact = "STOP_CONTACT"
spelling do_not_click = "DO_NOT_CLICK"
spelling do_not_install = "DO_NOT_INSTALL"
spelling do_not_share_access = "DO_NOT_SHARE_ACCESS"
spelling do_not_forward_money = "DO_NOT_FORWARD_MONEY"
spelling verify_official_channel = "VERIFY_OFFICIAL_CHANNEL"
spelling verify_by_known_contact = "VERIFY_BY_KNOWN_CONTACT"
spelling contact_financial_institution = "CONTACT_FINANCIAL_INSTITUTION"
spelling contact_1394 = "CONTACT_1394"
spelling contact_112 = "CONTACT_112"
spelling contact_kisa_118 = "CONTACT_KISA_118"
spelling preserve_evidence = "PRESERVE_EVIDENCE"
spelling verify_claimed_identity = "VERIFY_CLAIMED_IDENTITY"

-- The place of the code's string in alphabetical order.
unfoldable pub alphabetical : ActionCode → ℕ
alphabetical contact_112 = 0
alphabetical contact_1394 = 1
alphabetical contact_financial_institution = 2
alphabetical contact_kisa_118 = 3
alphabetical do_not_click = 4
alphabetical do_not_forward_money = 5
alphabetical do_not_install = 6
alphabetical do_not_share_access = 7
alphabetical preserve_evidence = 8
alphabetical stop_contact = 9
alphabetical verify_by_known_contact = 10
alphabetical verify_claimed_identity = 11
alphabetical verify_official_channel = 12
