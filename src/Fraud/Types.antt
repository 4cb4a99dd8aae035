-- ===== src/Fraud/Types.antt =====
-- app/domain/fraud/classification.py: from signals to the types of fraud that a user is shown.
-- `casefold` stands for Python's `str.casefold`.
pub mod Naming
use finshield_ai.Base.{
  String, Bool, ◌&&◌, ◌||◌, List, [], ◌∷◌, ◌++◌, any, mem, update, Eq, eq_of_discrete,
  text_contains, if◌then◌else◌,
}
use finshield_ai.Fraud.Codes.{SignalCode, RiskSignal, signal_code_eq}
use finshield_ai.Fraud.Levels.{signal_codes}

pub data FraudType : Type 0 where
  authority_impersonation acquaintance_impersonation loan_policy_impersonation : FraudType
  investment_scheme advance_fee_demand account_access_request money_mule_transfer : FraudType
  smishing_malware card_delivery_impersonation isolation_coercion : FraudType

unfoldable pub FraudType-discrete : Discrete FraudType
FraudType-discrete = hlevel

instance abbrev pub fraud_type_eq : Eq FraudType
fraud_type_eq = eq_of_discrete FraudType-discrete

-- `FRAUD_TYPE_ORDER`
abbrev pub fraud_type_order : List FraudType
fraud_type_order =
    FraudType.authority_impersonation ∷ FraudType.acquaintance_impersonation
    ∷ FraudType.loan_policy_impersonation ∷ FraudType.investment_scheme
    ∷ FraudType.advance_fee_demand ∷ FraudType.account_access_request
    ∷ FraudType.money_mule_transfer ∷ FraudType.smishing_malware
    ∷ FraudType.card_delivery_impersonation ∷ FraudType.isolation_coercion ∷ []

-- `ADVANCE_FEE_MARKERS`
abbrev pub advance_fee_markers : List String
advance_fee_markers =
    "먼저" ∷ "선입금" ∷ "선결제" ∷ "선납" ∷ "선금" ∷ "수수료" ∷ "보증료" ∷ "보증보험료" ∷ "예치금" ∷ "제세공과금" ∷ "통관비" ∷ "복구비"
    ∷ "작업비" ∷ "대납" ∷ []

-- `if test: matched.add(fraud_type)`
abbrev pub when : Bool → FraudType → List FraudType
when b t = if b then t ∷ [] else []

-- `codes & wanted`, as a test; of one code, `code in codes`
abbrev pub has_any : List SignalCode → List SignalCode → Bool
has_any codes wanted = any (λ c. mem c codes) wanted

-- The set `matched`, in the order of the tests; `advance_fee` is the test of the text.
unfoldable pub matched_types : List SignalCode → Bool → List FraudType
matched_types codes advance_fee =
    when (has_any codes (SignalCode.authority_impersonation ∷ [])) FraudType.authority_impersonation
    ++ (when (has_any codes (SignalCode.familiar_person_claim ∷ []))
          FraudType.acquaintance_impersonation
        ++ (when (has_any codes (SignalCode.loan_policy_offer ∷ []))
              FraudType.loan_policy_impersonation
            ++ (when
                  (has_any codes
                    (SignalCode.guaranteed_return_offer ∷ SignalCode.private_channel_invite ∷ []))
                  FraudType.investment_scheme
                ++ (when
                      (has_any codes
                        (SignalCode.credential_request ∷ SignalCode.account_access_request ∷ []))
                      FraudType.account_access_request
                    ++ (when (has_any codes (SignalCode.receive_and_forward_money ∷ []))
                          FraudType.money_mule_transfer
                        ++ (when
                              (has_any codes (
                                SignalCode.suspicious_link ∷ SignalCode.app_install_request
                                ∷ SignalCode.remote_control_request ∷ []))
                              FraudType.smishing_malware
                            ++ (when (has_any codes (SignalCode.card_delivery_claim ∷ []))
                                  FraudType.card_delivery_impersonation
                                ++ (when (has_any codes (SignalCode.secrecy_isolation ∷ []))
                                      FraudType.isolation_coercion
                                    ++ when
                                        (has_any codes (SignalCode.money_transfer_request ∷ [])
                                          && advance_fee)
                                        FraudType.advance_fee_demand))))))))

-- `[t for t in FRAUD_TYPE_ORDER if t in matched]`
unfoldable pub in_order : List FraudType → List FraudType → List FraudType
in_order [] matched = []
in_order (t ∷ order) matched =
    let rest = in_order order matched in if mem t matched then t ∷ rest else rest

module _ (casefold : String → String) where
  -- `any(marker in normalized for marker in ADVANCE_FEE_MARKERS)`
  unfoldable pub has_advance_fee_marker : String → Bool
  has_advance_fee_marker text =
      any (λ marker. text_contains (casefold text) marker) advance_fee_markers

  unfoldable pub classify_fraud_types : List RiskSignal → String → List FraudType
  classify_fraud_types signals text =
      in_order fraud_type_order
        (update (matched_types (signal_codes signals) (has_advance_fee_marker text)) [])
