-- ===== src/Fraud/Detection/Detect.antt =====
-- app/domain/fraud/signals.py: the signals of a text.
use finshield_ai.Base.{
  String, Bool, false, not, ◌&&◌, ◌||◌, Option, List, [], ◌∷◌, ◌++◌, any, mem, if◌then◌else◌,
}
use finshield_ai.Explanation.Untrusted.Spans.{Text, chars, of_chars}
use finshield_ai.Fraud.Codes.{SignalCode, signal_code_eq, RiskSignal}
use finshield_ai.Fraud.Analysis.{Detectors}
use finshield_ai.Fraud.Detection.Terms.{receipt_markers, sensitive_request_signals}
use finshield_ai.Fraud.Detection.Rules.{signal_rules, legacy_rules}
use finshield_ai.Fraud.Detection.Search.{
  any_term, blank_out_all, join_clauses, has_keyword, is_direct_imperative, is_prohibited,
  appears_in_order,
}
use finshield_ai.Fraud.Detection.Clauses.{
  open_clauses, has_reader_demand, awaits_unsolicited_contact, mentions_money, mentions_investment,
  demands_something_sensitive,
}
use finshield_ai.Fraud.Detection.Context.{safe_context_suppresses}
use finshield_ai.Fraud.Detection.Links.{UrlReaders, contains_url, has_suspicious_link}
use finshield_ai.Fraud.Detection.{SignalRule, PatternName, Readers}

abbrev pub signal_of : SignalRule → RiskSignal
signal_of rule = record { code = rule.code; label = rule.label; weight = rule.weight }

abbrev pub suspicious_link_signal : RiskSignal
suspicious_link_signal = record {
  code = SignalCode.suspicious_link;
  label = "주의가 필요한 링크 형식";
  weight = 35;
}

module _ (readers : Readers) where
  open readers use {casefold, search}

  -- What `_detect_by_rules` computes of a text before its rules.
  pub record Gates : Type 0 where
    pub clauses : List Text
    pub open_text : Text
    pub has_demand : Bool
    pub has_money : Bool
    pub has_investment : Bool
    pub has_receipt : Bool

  unfoldable pub gates_of : Text → Gates
  gates_of normalized =
      let clauses = open_clauses readers normalized in
      record {
        clauses = clauses;
        open_text = join_clauses clauses;
        has_demand = has_reader_demand readers clauses;
        has_money = mentions_money readers clauses normalized;
        has_investment = mentions_investment readers clauses;
        has_receipt = any_term receipt_markers normalized;
      }

  -- A pattern that finds a clause without an exemption.
  unfoldable pub matches_pattern : List String → List Text → PatternName → Bool
  matches_pattern exemptions clauses pattern_ =
      any (λ clause. search pattern_ clause && not (any_term exemptions clause)) clauses

  -- A keyword that is not prohibited, with a demand or as an imperative.
  unfoldable pub asks_for : Gates → String → Bool
  asks_for gates keyword =
      has_keyword casefold gates.open_text keyword
      && not (is_prohibited casefold gates.open_text keyword)
      && (gates.has_demand || is_direct_imperative casefold gates.open_text keyword)

  -- The conditions that are gated by a demand.
  unfoldable pub demand_gated_match : Gates → SignalRule → Bool
  demand_gated_match gates rule =
      let object_text = blank_out_all rule.accusation_contexts gates.open_text in
      any (has_keyword casefold object_text) rule.demand_gated_keywords
      || any (appears_in_order casefold object_text) rule.demand_gated_sequences
      || any (matches_pattern [] gates.clauses) rule.demand_gated_patterns

  -- `object_gated_match`
  unfoldable pub object_gated_match : Gates → Text → SignalRule → Bool
  object_gated_match gates normalized rule =
      any (has_keyword casefold normalized) rule.keywords
      || any (matches_pattern rule.pattern_exemptions gates.clauses) rule.patterns
      || (gates.has_demand && demand_gated_match gates rule)
      || (gates.has_money
          && (any (asks_for gates) rule.money_gated_keywords
              || (gates.has_demand
                  && any (appears_in_order casefold gates.open_text) rule.money_gated_sequences)))
      || (gates.has_money && gates.has_receipt && any (asks_for gates) rule.receipt_gated_keywords)
      || (gates.has_investment
          && any (has_keyword casefold gates.open_text) rule.investment_gated_keywords)

  -- `object_gated`
  unfoldable pub object_gated : Text → List SignalRule → List SignalCode
  object_gated normalized [] = []
  object_gated normalized (rule ∷ rules) =
      let rest = object_gated normalized rules in
      if object_gated_match (gates_of normalized) normalized rule
        && not (safe_context_suppresses readers rule.code normalized)
      then rule.code ∷ rest
      else rest

  -- `has_sensitive_request`
  unfoldable pub has_sensitive_request : Text → List SignalCode → Bool → Bool
  has_sensitive_request normalized gated has_link =
      any (λ code. mem code sensitive_request_signals) gated
      || has_link
      || demands_something_sensitive readers (open_clauses readers normalized)

  -- `matched` of a rule
  unfoldable pub is_matched : Text → List SignalCode → Bool → SignalRule → Bool
  is_matched normalized gated is_requested rule =
      mem rule.code gated
      || (is_requested
          && any (has_keyword casefold normalized) rule.request_gated_keywords
          && not (safe_context_suppresses readers rule.code normalized))

  -- The loop over the rules.
  unfoldable pub detected : Text → List SignalCode → Bool → List SignalRule → List RiskSignal
  detected normalized gated is_requested [] = []
  detected normalized gated is_requested (rule ∷ rules) =
      let rest = detected normalized gated is_requested rules in
      if is_matched normalized gated is_requested rule then signal_of rule ∷ rest else rest

  -- `_detect_by_rules`
  unfoldable pub detect_by_rules : Text → List SignalRule → Bool → List RiskSignal
  detect_by_rules text rules has_link =
      let normalized = casefold text in
      let gated = object_gated normalized rules in
      detected normalized gated
        (has_sensitive_request normalized gated has_link
          || awaits_unsolicited_contact readers normalized)
        rules

  unfoldable pub detect_legacy_signals : Text → List RiskSignal
  detect_legacy_signals text = detect_by_rules text legacy_rules false

  unfoldable pub detect_canonical_signals : UrlReaders → String → Option String → List RiskSignal
  detect_canonical_signals urls text supplied_url =
      let has_link = has_suspicious_link urls text supplied_url in
      let found = detect_by_rules (chars text) signal_rules has_link in
      if has_link then found ++ (suspicious_link_signal ∷ []) else found

  -- The detectors that the analysis is given.
  abbrev pub detectors : UrlReaders → Detectors
  detectors urls = record {
    casefold = λ text. of_chars (casefold (chars text));
    detect_canonical_signals = detect_canonical_signals urls;
    detect_legacy_signals = λ text. detect_legacy_signals (chars text);
    contains_url = contains_url urls;
  }
