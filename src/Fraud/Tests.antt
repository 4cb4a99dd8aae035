-- ===== src/Fraud/Tests.antt =====
-- The fraud analysis at concrete inputs.
use Prim.Native.String.{compare as compare_text}
use text.Mathlib.Text.{is_lt}
use finshield_ai.Base.{
  ◌≤◌, String, ◌≡◌, refl, Bool, true, false, not, ◌&&◌, ◌||◌, none, some, List, [], ◌∷◌, map, any,
  all, mem, is_empty, Distinct, Subset, ok, if◌then◌else◌, arith, ltb, max,
}
use finshield_ai.Risk.{risk_rank, low}
use finshield_ai.Fraud.Codes.{
  SignalCode, UserState, RiskSignal, ActionCode, Action, signal_code_eq, action_code_eq, spelling,
  alphabetical,
}
use finshield_ai.Fraud.Tables.{official_channel_signals, known_contact_signals}
use finshield_ai.Fraud.Levels.{
  determine_risk_level, signal_codes, has_nothing_to_show, score_floor_for_level,
}
use finshield_ai.Fraud.Levels.Evidence.{expected_level, determine_risk_level-eq-expected_level}
use finshield_ai.Fraud.Levels.Monotone.{determine_risk_level_mono}
use finshield_ai.Fraud.Actions.{action_codes, select_actions}
use finshield_ai.Fraud.Actions.Contents.{placeholder, by_signal, official_event}
use finshield_ai.Fraud.Actions.Channels.{points_to, verification_channels}
use finshield_ai.Fraud.Actions.Total.{IsChoiceOf, select_actions-IsChoiceOf}
use finshield_ai.Fraud.Types.{
  FraudType, fraud_type_eq, classify_fraud_types, has_advance_fee_marker,
}
use finshield_ai.Fraud.Types.Naming.{naming_signals, marker_needed, classify_fraud_types-named}
use finshield_ai.Fraud.Public.{project_public_signals}
use finshield_ai.Fraud.Public.Loop.{codes, is_shown}
use finshield_ai.Fraud.Public.Projection.{project_public_signals-shown}
use finshield_ai.Fraud.Analysis.{
  AnalyzeRequest, AnalyzeResponse, Detectors, analyze_fraud, displayed_score,
}
use finshield_ai.Fraud.Analysis.Silence.{analyze_fraud-nothing}
use finshield_ai.Fraud.Analysis.Outcome.{IsAnswer, analyze_fraud-IsAnswer}
use finshield_ai.Fraud.Analysis.Score.{displayed_score-floor}

abbrev same : String → String
same s = s

abbrev urgency : RiskSignal
urgency = record { code = SignalCode.urgency_pressure; label = "urgent"; weight = 10 }

abbrev transfer : RiskSignal
transfer = record { code = SignalCode.money_transfer_request; label = "transfer"; weight = 20 }

abbrev detectors_of_transfer : Detectors
detectors_of_transfer = record {
  casefold = same;
  detect_canonical_signals = λ text url. urgency ∷ transfer ∷ [];
  detect_legacy_signals = λ text. [];
  contains_url = λ text url. false;
}

abbrev request : AnalyzeRequest
request = record { text = "send it now"; state = UserState.received_only; url = none }

-- The order of the codes is the order of their strings.
abbrev all_action_codes : List ActionCode
all_action_codes =
    ActionCode.contact_112 ∷ ActionCode.contact_1394 ∷ ActionCode.contact_financial_institution
    ∷ ActionCode.contact_kisa_118 ∷ ActionCode.do_not_click ∷ ActionCode.do_not_forward_money
    ∷ ActionCode.do_not_install ∷ ActionCode.do_not_share_access ∷ ActionCode.preserve_evidence
    ∷ ActionCode.stop_contact ∷ ActionCode.verify_by_known_contact
    ∷ ActionCode.verify_claimed_identity ∷ ActionCode.verify_official_channel ∷ []

-- The strings of two codes are in the order of the codes' places.
abbrev same_order : ActionCode → ActionCode → Bool
same_order a b =
    let before = is_lt (compare_text (spelling a) (spelling b)) in
    if ltb (alphabetical a) (alphabetical b) then before else not before

places_are_alphabetical : all (λ a. all (same_order a) all_action_codes) all_action_codes ≡ true
unfolding spelling alphabetical
places_are_alphabetical = refl

analyze_fraud-IsAnswer_example :
    (response : AnalyzeResponse) × (analyze_fraud detectors_of_transfer request ≡ ok response)
    × IsAnswer detectors_of_transfer request response
analyze_fraud-IsAnswer_example = analyze_fraud-IsAnswer detectors_of_transfer request

determine_risk_level-eq-expected_level_example :
    determine_risk_level 40 (urgency ∷ transfer ∷ []) UserState.received_only
    ≡ expected_level 40 (urgency ∷ transfer ∷ []) UserState.received_only
determine_risk_level-eq-expected_level_example =
    determine_risk_level-eq-expected_level 40 (urgency ∷ transfer ∷ []) UserState.received_only

urgency_is_there : Subset (codes (urgency ∷ [])) (codes (urgency ∷ transfer ∷ []))
urgency_is_there = ground arith

determine_risk_level_mono_example :
    risk_rank (determine_risk_level 10 (urgency ∷ []) UserState.clicked_link)
    ≤ risk_rank (determine_risk_level 40 (urgency ∷ transfer ∷ []) UserState.clicked_link)
determine_risk_level_mono_example =
    determine_risk_level_mono (urgency ∷ []) (urgency ∷ transfer ∷ []) urgency_is_there 10 40
      UserState.clicked_link (omega arith)

select_actions-IsChoiceOf_example :
    (as' : List Action) × (select_actions same
        (urgency ∷ transfer ∷ [])
        UserState.clicked_link
        "send"
      ≡ some as')
    × IsChoiceOf (action_codes same (urgency ∷ transfer ∷ []) UserState.clicked_link "send") as'
select_actions-IsChoiceOf_example =
    select_actions-IsChoiceOf same (urgency ∷ transfer ∷ []) UserState.clicked_link "send"

verification_channels_example :
    (mem ActionCode.verify_official_channel
        (action_codes same (transfer ∷ []) UserState.received_only "send")
      ≡ (points_to official_channel_signals (transfer ∷ [])
          || official_event same (transfer ∷ []) UserState.received_only "send"))
    × (mem ActionCode.verify_by_known_contact
          (action_codes same (transfer ∷ []) UserState.received_only "send")
        ≡ (by_signal placeholder (transfer ∷ [])
            && (points_to known_contact_signals (transfer ∷ [])
                || not (
                    points_to official_channel_signals (transfer ∷ [])
                    || official_event same (transfer ∷ []) UserState.received_only "send"))))
    × (mem placeholder (action_codes same (transfer ∷ []) UserState.received_only "send") ≡ false)
verification_channels_example =
    verification_channels same (transfer ∷ []) UserState.received_only "send"

classify_fraud_types-named_example :
    ((t : FraudType)
      → mem t (classify_fraud_types same (transfer ∷ []) "fee first") ≡ (
          any (λ c. mem c (map (λ s. s.code) (transfer ∷ []))) (naming_signals t)
          && marker_needed t (has_advance_fee_marker same "fee first")))
    × Distinct (classify_fraud_types same (transfer ∷ []) "fee first")
classify_fraud_types-named_example = classify_fraud_types-named same (transfer ∷ []) "fee first"

project_public_signals-shown_example :
    (result : List RiskSignal) × (project_public_signals (urgency ∷ transfer ∷ []) ≡ some result)
    × ((c : SignalCode)
        → mem c (codes result)
          ≡ is_shown (signal_codes (urgency ∷ transfer ∷ [])) c (urgency ∷ transfer ∷ []))
    × Distinct (codes result)
    × (is_empty result ≡ is_empty (urgency ∷ transfer ∷ []))
project_public_signals-shown_example = project_public_signals-shown (urgency ∷ transfer ∷ [])

displayed_score-floor_example :
    displayed_score 20
      (transfer ∷ [])
      UserState.transferred_money
      (determine_risk_level 20 (transfer ∷ []) UserState.transferred_money)
    ≡ max (if has_nothing_to_show (transfer ∷ []) UserState.transferred_money then 0 else 20) (
        score_floor_for_level (determine_risk_level 20 (transfer ∷ []) UserState.transferred_money))
displayed_score-floor_example =
    displayed_score-floor 20 (transfer ∷ []) UserState.transferred_money (omega arith)

-- Nothing is detected, but for a legacy signal of some weight.
abbrev detectors_of_nothing : Detectors
detectors_of_nothing = record {
  casefold = same;
  detect_canonical_signals = λ text url. [];
  detect_legacy_signals =
      λ text. record { code = SignalCode.account_access; label = ""; weight = 35 } ∷ [];
  contains_url = λ text url. false;
}

analyze_fraud-nothing_example :
    (response : AnalyzeResponse) × (analyze_fraud detectors_of_nothing request ≡ ok response)
    × (response.risk_score ≡ 0)
    × (response.risk_level ≡ low)
    × (response.signals ≡ [])
    × (response.fraud_types ≡ [])
    × (response.actions ≡ [])
    × (response.official_sources ≡ [])
analyze_fraud-nothing_example = analyze_fraud-nothing detectors_of_nothing request refl refl
