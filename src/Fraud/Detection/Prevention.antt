-- ===== src/Fraud/Detection/Prevention.antt =====
-- A notice of prevention, in the sense of app/domain/fraud/signals.py, and the analysis of it.
use finshield_ai.Base.{String, ◌≡◌, refl, Bool, true, false, Option, List, [], ◌∷◌, ok, and-false}
use finshield_ai.Explanation.Untrusted.Spans.{Text, chars}
use finshield_ai.Risk.{low}
use finshield_ai.Fraud.Codes.{SignalCode, UserState}
use finshield_ai.Fraud.Analysis.{AnalyzeRequest, AnalyzeResponse, analyze_fraud}
use finshield_ai.Fraud.Analysis.Silence.{analyze_fraud-nothing}
use finshield_ai.Fraud.Detection.{SignalRule, Readers}
use finshield_ai.Fraud.Detection.Rules.{signal_rules}
use finshield_ai.Fraud.Detection.Clauses.{is_prevention_notice}
use finshield_ai.Fraud.Detection.Context.{safe_context_suppresses}
use finshield_ai.Fraud.Detection.Links.{UrlReaders, has_suspicious_link}
use finshield_ai.Fraud.Detection.Detect.{
  object_gated, is_matched, detected, detect_by_rules, detect_canonical_signals, detectors,
}

module _ (readers : Readers) where
  suppresses_all :
      (code : SignalCode) (normalized : Text)
      → is_prevention_notice readers normalized ≡ true
      → safe_context_suppresses readers code normalized ≡ true
  unfolding safe_context_suppresses
  suppresses_all code normalized h = rw h refl

  object_gated-prevention :
      (normalized : Text) (rules : List SignalRule)
      → is_prevention_notice readers normalized ≡ true
      → object_gated readers normalized rules ≡ []
  unfolding object_gated
  object_gated-prevention normalized [] h = refl
  object_gated-prevention normalized (rule ∷ rules) h =
      rw
        (
          suppresses_all rule.code normalized h,
          and-false,
          object_gated-prevention normalized rules h,
        )
        refl

  detected-prevention :
      (normalized : Text) (is_requested : Bool) (rules : List SignalRule)
      → is_prevention_notice readers normalized ≡ true
      → detected readers normalized [] is_requested rules ≡ []
  unfolding detected is_matched
  detected-prevention normalized is_requested [] h = refl
  detected-prevention normalized is_requested (rule ∷ rules) h =
      rw
        (
          suppresses_all rule.code normalized h,
          and-false,
          detected-prevention normalized is_requested rules h,
        )
        refl

  detect_by_rules-prevention :
      (text : Text) (rules : List SignalRule) (has_link : Bool)
      → is_prevention_notice readers (readers.casefold text) ≡ true
      → detect_by_rules readers text rules has_link ≡ []
  unfolding detect_by_rules
  detect_by_rules-prevention text rules has_link h =
      rw (object_gated-prevention (readers.casefold text) rules h)
        (detected-prevention (readers.casefold text) _ rules h)

  detect_canonical_signals-prevention :
      (urls : UrlReaders) (text : String) (url : Option String)
      → is_prevention_notice readers (readers.casefold (chars text)) ≡ true
      → has_suspicious_link urls text url ≡ false
      → detect_canonical_signals readers urls text url ≡ []
  unfolding detect_canonical_signals
  detect_canonical_signals-prevention urls text url h k =
      rw (k, detect_by_rules-prevention (chars text) signal_rules false h) refl

  -- A notice of prevention without a suspicious link, that the user only received, is analysed as
  -- nothing: score 0, level low, and no signals, types, actions or sources, whatever words of fraud it
  -- has.
  pub analyze_fraud-prevention :
      (urls : UrlReaders) (request : AnalyzeRequest)
      → is_prevention_notice readers (readers.casefold (chars request.text)) ≡ true
      → has_suspicious_link urls request.text request.url ≡ false
      → request.state ≡ UserState.received_only
      → (response : AnalyzeResponse) × (analyze_fraud (detectors readers urls) request
          ≡ ok response)
        × (response.risk_score ≡ 0)
        × (response.risk_level ≡ low)
        × (response.signals ≡ [])
        × (response.fraud_types ≡ [])
        × (response.actions ≡ [])
        × (response.official_sources ≡ [])
  analyze_fraud-prevention urls request h k s =
      analyze_fraud-nothing (detectors readers urls) request
        (detect_canonical_signals-prevention urls request.text request.url h k) s
