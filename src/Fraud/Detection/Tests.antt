-- ===== src/Fraud/Detection/Tests.antt =====
-- Runs of the detection, with a pattern that finds nothing, and its theorems at them.
use finshield_ai.Base.{◌≡◌, refl, true, false, not, ◌&&◌, none, some, [], ◌∷◌, ok}
use finshield_ai.Risk.{low}
use finshield_ai.Explanation.Untrusted.Spans.{chars, starts, drop}
use finshield_ai.Fraud.Codes.{SignalCode, UserState}
use finshield_ai.Fraud.Analysis.{AnalyzeRequest, AnalyzeResponse, analyze_fraud}
use finshield_ai.Fraud.Detection.{Readers}
use finshield_ai.Fraud.Detection.Search.{
  contains, any_term, is_prohibited, prohibited_from, appears_in_order, after_found,
}
use finshield_ai.Fraud.Detection.Clauses.{
  select_clauses, clauses_of, states_prevention, demanding_clauses, open_clauses, demands,
  has_reader_demand, is_prevention_notice,
}
use finshield_ai.Fraud.Detection.Links.{
  UrlReaders, all_url_candidates, supplied, has_suspicious_link,
}
use finshield_ai.Fraud.Detection.Detect.{detect_canonical_signals, detectors}
use finshield_ai.Fraud.Detection.Prevention.{analyze_fraud-prevention}
use finshield_ai.Fraud.Detection.Monotone.{gives, detect_canonical_signals-link}

-- One clause, and no pattern that finds anything.
abbrev readers : Readers
readers = record {
  casefold = λ text. text;
  search = λ pattern_ text. false;
  split_clauses = λ text. text ∷ [];
  last_prohibition_end = λ clause. none;
  is_blank = λ text. false;
}

abbrev urls : UrlReaders
urls = record {
  url_candidates = λ text. [];
  bare_url_candidates = λ text. [];
  is_blank = λ url. false;
  trimmed = λ url. url;
  has_scheme = λ url. true;
  has_opaque_scheme = λ url. false;
  urlsplit = λ url. none;
  ends_with = λ text ending. false;
  is_ip_address = λ text. false;
}

-- "We do not ask for a one-time password", which has the word of a demand for it.
abbrev notice : AnalyzeRequest
notice = record { text = "은행은 인증번호를 요구하지 않습니다"; state = UserState.received_only; url = none }

appears : appears_in_order (λ text. text) (chars "abcd") ("b" ∷ "d" ∷ []) ≡ true
unfolding appears_in_order after_found chars starts drop
appears = refl

prohibited : is_prohibited (λ text. text) (chars "보내지 마") "보내" ≡ true
unfolding is_prohibited prohibited_from chars starts drop
prohibited = refl

analyze_fraud-prevention_example :
    (response : AnalyzeResponse) × (analyze_fraud (detectors readers urls) notice ≡ ok response)
    × (response.risk_score ≡ 0)
    × (response.risk_level ≡ low)
    × (response.signals ≡ [])
    × (response.fraud_types ≡ [])
    × (response.actions ≡ [])
    × (response.official_sources ≡ [])
unfolding is_prevention_notice has_reader_demand demands open_clauses demanding_clauses clauses_of
    select_clauses states_prevention any_term contains chars starts has_suspicious_link
    all_url_candidates supplied
analyze_fraud-prevention_example = analyze_fraud-prevention readers urls notice refl refl refl

detect_canonical_signals-link_example :
    (gives SignalCode.urgency_pressure (detect_canonical_signals readers urls "즉시" none)
      && not (
          gives SignalCode.urgency_pressure
            (detect_canonical_signals readers urls "즉시" (some "a.kr"))))
    ≡ false
detect_canonical_signals-link_example =
    detect_canonical_signals-link readers urls SignalCode.urgency_pressure "즉시" (some "a.kr")
