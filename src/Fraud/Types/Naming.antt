-- ===== src/Fraud/Types/Naming.antt =====
-- Which signals give which type of fraud: app/domain/fraud/classification.py.
use finshield_ai.Base.{
  String, ◌≡◌, refl, ap, fun_ext, Bool, true, false, ◌&&◌, List, [], ◌∷◌, map, any, mem, update,
  Distinct, mem-update, or-false, arith, ◌==◌, any-append, bool_laws,
}
use finshield_ai.Fraud.Codes.{SignalCode, RiskSignal, signal_code_eq}
use finshield_ai.Fraud.Levels.{signal_codes}
use finshield_ai.Fraud.Levels.Evidence.{mem-signal_codes}
use finshield_ai.Fraud.Types.{
  FraudType, FraudType-discrete, fraud_type_eq, fraud_type_order, has_any, matched_types, in_order,
  when, has_advance_fee_marker, classify_fraud_types,
}

-- The signals of which one alone names the type.
unfoldable pub naming_signals : FraudType → List SignalCode
naming_signals FraudType.authority_impersonation = SignalCode.authority_impersonation ∷ []
naming_signals FraudType.acquaintance_impersonation = SignalCode.familiar_person_claim ∷ []
naming_signals FraudType.loan_policy_impersonation = SignalCode.loan_policy_offer ∷ []
naming_signals FraudType.investment_scheme =
    SignalCode.guaranteed_return_offer ∷ SignalCode.private_channel_invite ∷ []
naming_signals FraudType.advance_fee_demand = SignalCode.money_transfer_request ∷ []
naming_signals FraudType.account_access_request =
    SignalCode.credential_request ∷ SignalCode.account_access_request ∷ []
naming_signals FraudType.money_mule_transfer = SignalCode.receive_and_forward_money ∷ []
naming_signals FraudType.smishing_malware =
    SignalCode.suspicious_link ∷ SignalCode.app_install_request ∷ SignalCode.remote_control_request
    ∷ []
naming_signals FraudType.card_delivery_impersonation = SignalCode.card_delivery_claim ∷ []
naming_signals FraudType.isolation_coercion = SignalCode.secrecy_isolation ∷ []

-- The advance fee also wants its marker in the text.
abbrev pub marker_needed : FraudType → Bool → Bool
marker_needed FraudType.advance_fee_demand marker = marker
marker_needed _ marker = true

mem-when : (t u : FraudType) (b : Bool) → mem t (when b u) ≡ (b && t == u)
mem-when t u true = or-false (t == u)
mem-when t u false = refl

mem-matched_types :
    (t : FraudType) (codes : List SignalCode) (marker : Bool)
    → mem t (matched_types codes marker)
      ≡ (has_any codes (naming_signals t) && marker_needed t marker)
unfolding matched_types naming_signals FraudType-discrete
mem-matched_types FraudType.authority_impersonation codes marker =
    simp (any-append, mem-when, bool_laws)
mem-matched_types _ codes marker = simp (any-append, mem-when, bool_laws)

mem-in_order :
    (t : FraudType) (order matched : List FraudType)
    → mem t (in_order order matched) ≡ (mem t order && mem t matched)
unfolding in_order
mem-in_order t [] matched = refl
mem-in_order t (u ∷ order) matched =
    ground (arith, mem-in_order t order matched, fraud_type_eq.beq_iff t u)

mem-fraud_type_order : (t : FraudType) → mem t fraud_type_order ≡ true
unfolding FraudType-discrete
mem-fraud_type_order FraudType.authority_impersonation = refl
mem-fraud_type_order _ = refl

in_order-Distinct :
    (order matched : List FraudType) → Distinct order → Distinct (in_order order matched)
unfolding in_order
in_order-Distinct [] matched h = tt
in_order-Distinct (t ∷ order) matched h =
    ground (arith, in_order-Distinct order matched h.1, mem-in_order t order matched)

fraud_type_order-Distinct : Distinct fraud_type_order
unfolding FraudType-discrete
fraud_type_order-Distinct = ground arith

module _ (casefold : String → String) (signals : List RiskSignal) (text : String) where
  -- A type of fraud is named exactly if one of the signals that name it is there, and for the advance
  -- fee if the text also has a marker of it; no type is named twice.
  pub classify_fraud_types-named :
      ((t : FraudType)
        → mem t (classify_fraud_types casefold signals text) ≡ (
            any (λ c. mem c (map (λ s. s.code) signals)) (naming_signals t)
            && marker_needed t (has_advance_fee_marker casefold text)))
      × Distinct (classify_fraud_types casefold signals text)
  unfolding classify_fraud_types
  classify_fraud_types-named = (
    λ t.
        rw
          (
            mem-in_order,
            mem-fraud_type_order,
            mem-update,
            or-false,
            mem-matched_types,
            same_codes t,
          )
          refl,
    in_order-Distinct fraud_type_order
        (update (matched_types (signal_codes signals) (has_advance_fee_marker casefold text)) [])
        fraud_type_order-Distinct,
  )
    where
      same_codes :
          (t : FraudType)
          → has_any (signal_codes signals) (naming_signals t)
            ≡ any (λ c. mem c (map (λ s. s.code) signals)) (naming_signals t)
      same_codes t =
          ap (λ (f : SignalCode → Bool). any f (naming_signals t))
            (fun_ext (λ c. mem-signal_codes c signals))
