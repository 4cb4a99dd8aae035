-- ===== src/Housing/Codes.antt =====
-- app/schemas/housing.py: the codes of the deposit check. The codes of signals and actions are
-- strings in the source; here they are the constructors that its tables name.
use finshield_ai.Base.{ℕ, String, List, Eq, eq_of_discrete}

pub data LeaseStage : Type 0 where
  before_contract contract_signed balance_paid moved_in lease_ending deposit_unreturned : LeaseStage

pub data DepositCheck : Type 0 where
  registry_checked owner_identity_verified tax_arrears_checked move_in_reported
        confirmed_date_obtained deposit_guarantee_joined :
      DepositCheck

-- The codes of `SIGNAL_LABELS`.
pub data SignalCode : Type 0 where
  high_debt_ratio elevated_debt_ratio property_price_unknown senior_lien_unknown
        registry_not_checked owner_identity_unverified tax_arrears_unchecked opposing_power_missing
        priority_repayment_missing deposit_guarantee_absent deposit_unreturned :
      SignalCode

-- The codes of `ACTION_POLICIES`.
pub data ActionCode : Type 0 where
  check_registry verify_owner_identity check_tax_arrears report_move_in get_confirmed_date
        join_deposit_guarantee keep_opposing_power apply_lease_registration_order
        check_victim_support :
      ActionCode

pub record DepositRiskSignal : Type 0 where
  pub code : SignalCode
  pub label : String
  pub detail : String

pub record DepositRiskAction : Type 0 where
  pub code : ActionCode
  pub priority : ℕ
  pub title : String
  pub reason : String
  pub source_ids : List String

unfoldable pub LeaseStage-discrete : Discrete LeaseStage
LeaseStage-discrete = hlevel

instance abbrev pub stage_eq : Eq LeaseStage
stage_eq = eq_of_discrete LeaseStage-discrete

unfoldable pub DepositCheck-discrete : Discrete DepositCheck
DepositCheck-discrete = hlevel

instance abbrev pub check_eq : Eq DepositCheck
check_eq = eq_of_discrete DepositCheck-discrete

unfoldable pub SignalCode-discrete : Discrete SignalCode
SignalCode-discrete = hlevel

instance abbrev pub signal_code_eq : Eq SignalCode
signal_code_eq = eq_of_discrete SignalCode-discrete

unfoldable pub ActionCode-discrete : Discrete ActionCode
ActionCode-discrete = hlevel

instance abbrev pub action_code_eq : Eq ActionCode
action_code_eq = eq_of_discrete ActionCode-discrete

-- The string that the source writes for the code.
unfoldable pub spelling : ActionCode → String
spelling check_registry = "CHECK_REGISTRY"
spelling verify_owner_identity = "VERIFY_OWNER_IDENTITY"
spelling check_tax_arrears = "CHECK_TAX_ARREARS"
spelling report_move_in = "REPORT_MOVE_IN"
spelling get_confirmed_date = "GET_CONFIRMED_DATE"
spelling join_deposit_guarantee = "JOIN_DEPOSIT_GUARANTEE"
spelling keep_opposing_power = "KEEP_OPPOSING_POWER"
spelling apply_lease_registration_order = "APPLY_LEASE_REGISTRATION_ORDER"
spelling check_victim_support = "CHECK_VICTIM_SUPPORT"
