-- ===== src/Fraud/Detection/Monotone.antt =====
-- A link beside a text, in app/domain/fraud/signals.py: it takes no signal away.
use finshield_ai.Base.{
  String, ◌≡◌, Bool, true, false, not, ◌&&◌, ◌||◌, Option, none, List, [], ◌∷◌, ◌++◌, any,
  any-append, ◌==◌, if◌then◌else◌, arith,
}
use finshield_ai.Explanation.Untrusted.Spans.{Text, chars}
use finshield_ai.Fraud.Codes.{SignalCode, signal_code_eq, RiskSignal}
use finshield_ai.Fraud.Detection.{SignalRule, Readers}
use finshield_ai.Fraud.Detection.Rules.{signal_rules}
use finshield_ai.Fraud.Detection.Clauses.{awaits_unsolicited_contact}
use finshield_ai.Fraud.Detection.Links.{
  UrlReaders, is_lexically_suspicious_url, supplied, all_url_candidates, has_suspicious_link,
}
use finshield_ai.Fraud.Detection.Detect.{
  object_gated, has_sensitive_request, is_matched, detected, detect_by_rules,
  detect_canonical_signals, suspicious_link_signal,
}

-- Whether a signal of that code is given.
abbrev pub gives : SignalCode → List RiskSignal → Bool
gives code signals = any (λ s. s.code == code) signals

module _ (readers : Readers) where
  is_matched-requested :
      (normalized : Text) (gated : List SignalCode) (a b : Bool) (rule : SignalRule)
      → (a && not b) ≡ false
      → is_matched readers normalized gated a rule ≡ true
      → is_matched readers normalized gated b rule ≡ true
  unfolding is_matched
  is_matched-requested normalized gated a b rule h m = ground arith

  detected-requested :
      (code : SignalCode) (normalized : Text) (gated : List SignalCode) (a b : Bool)
      (rules : List SignalRule)
      → (a && not b) ≡ false
      → gives code (detected readers normalized gated a rules) ≡ true
      → gives code (detected readers normalized gated b rules) ≡ true
  unfolding detected
  detected-requested code normalized gated a b [] h g = g
  detected-requested code normalized gated a b (rule ∷ rules) h g = ground (
    arith,
    is_matched-requested normalized gated a b rule h,
    detected-requested code normalized gated a b rules h,
  )

  has_sensitive_request-link :
      (normalized : Text) (gated : List SignalCode) (a b other : Bool)
      → (a && not b) ≡ false
      → ((has_sensitive_request readers normalized gated a || other)
          && not (has_sensitive_request readers normalized gated b || other))
        ≡ false
  unfolding has_sensitive_request
  has_sensitive_request-link normalized gated a b other h = ground arith

  detect_by_rules-link :
      (code : SignalCode) (text : Text) (rules : List SignalRule) (a b : Bool)
      → (a && not b) ≡ false
      → gives code (detect_by_rules readers text rules a) ≡ true
      → gives code (detect_by_rules readers text rules b) ≡ true
  unfolding detect_by_rules
  detect_by_rules-link code text rules a b h = detected-requested code _ _ _ _ rules (
      has_sensitive_request-link (readers.casefold text)
        (object_gated readers (readers.casefold text) rules) a b
        (awaits_unsolicited_contact readers (readers.casefold text)) h)

  gives-link :
      (code : SignalCode) (a b : Bool) (xs ys : List RiskSignal)
      → (a && not b) ≡ false
      → (gives code xs ≡ true → gives code ys ≡ true)
      → gives code (if a then xs ++ (suspicious_link_signal ∷ []) else xs) ≡ true
      → gives code (if b then ys ++ (suspicious_link_signal ∷ []) else ys) ≡ true
  gives-link code true true xs ys h k g = ground (
    arith,
    k,
    any-append (λ s. s.code == code) xs (suspicious_link_signal ∷ []),
    any-append (λ s. s.code == code) ys (suspicious_link_signal ∷ []),
  )
  gives-link code true false xs ys h k g = cc
  gives-link code false true xs ys h k g =
      ground (arith, k, any-append (λ s. s.code == code) ys (suspicious_link_signal ∷ []))
  gives-link code false false xs ys h k g = k g

  has_suspicious_link-supplied :
      (urls : UrlReaders) (text : String) (url : Option String)
      → (has_suspicious_link urls text none && not (has_suspicious_link urls text url)) ≡ false
  unfolding has_suspicious_link all_url_candidates supplied
  has_suspicious_link-supplied urls text url = ground (
    arith,
    any-append (is_lexically_suspicious_url urls) (urls.url_candidates text)
        (urls.bare_url_candidates text ++ []),
    any-append (is_lexically_suspicious_url urls) (urls.bare_url_candidates text) [],
    any-append (is_lexically_suspicious_url urls) (urls.url_candidates text)
        (urls.bare_url_candidates text ++ supplied urls url),
    any-append (is_lexically_suspicious_url urls) (urls.bare_url_candidates text)
        (supplied urls url),
  )

  gives-kept :
      (urls : UrlReaders) (code : SignalCode) (text : String) (url : Option String)
      → gives code (detect_canonical_signals readers urls text none) ≡ true
      → gives code (detect_canonical_signals readers urls text url) ≡ true
  unfolding detect_canonical_signals
  gives-kept urls code text url =
      let more = has_suspicious_link-supplied urls text url in
      gives-link code (has_suspicious_link urls text none) (has_suspicious_link urls text url)
        (detect_by_rules readers (chars text) signal_rules (has_suspicious_link urls text none))
        (detect_by_rules readers (chars text) signal_rules (has_suspicious_link urls text url)) more
        (detect_by_rules-link code (chars text) signal_rules (has_suspicious_link urls text none)
          (has_suspicious_link urls text url) more)

  -- There is no signal that a text gives without a link beside it and does not give with one, whatever
  -- the link is.
  pub detect_canonical_signals-link :
      (urls : UrlReaders) (code : SignalCode) (text : String) (url : Option String)
      → (gives code (detect_canonical_signals readers urls text none)
          && not (gives code (detect_canonical_signals readers urls text url)))
        ≡ false
  detect_canonical_signals-link urls code text url = ground (arith, gives-kept urls code text url)
