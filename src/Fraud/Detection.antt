-- ===== src/Fraud/Detection.antt =====
-- app/domain/fraud/signals.py: how signals are detected in a text. A text is the list of its characters.
-- The regular expressions, `str.casefold` and the parsing of a link are parameters.
pub mod Terms
pub mod Rules
pub mod Search
pub mod Clauses
pub mod Context
pub mod Links
pub mod Detect
pub mod Prevention
pub mod Monotone
mod Tests
use finshield_ai.Base.{ℕ, String, Bool, Option, List}
use finshield_ai.Fraud.Codes.{SignalCode}
use finshield_ai.Explanation.Untrusted.Spans.{Text}

-- The regular expressions that are searched for, by their names in the source; the two of
-- `PREVENTION_STATEMENT_PATTERNS` have a name each.
pub data PatternName : Type 0 where
  isolation_prohibition channel_monopoly counter_exclusion pending_contact : PatternName
  reader_initiated group_exemption external_isolation familiar_self_reference : PatternName
  payment_to_account prevention_statement other_prevention_statement : PatternName
  completed_report casual_demand action_demand money_amount channel_referral : PatternName

pub record SignalRule : Type 0 where
  pub code : SignalCode
  pub keywords : List String
  pub weight : ℕ
  pub label : String
  pub demand_gated_keywords : List String
  pub demand_gated_sequences : List (List String)
  pub receipt_gated_keywords : List String
  pub demand_gated_patterns : List PatternName
  pub money_gated_keywords : List String
  pub money_gated_sequences : List (List String)
  pub investment_gated_keywords : List String
  pub accusation_contexts : List String
  pub patterns : List PatternName
  pub pattern_exemptions : List String
  pub request_gated_keywords : List String

-- What reads a text: `search` by the name of a pattern, `CLAUSE_BOUNDARY_PATTERN.split`, the end of
-- the last match of `PERIPHRASTIC_PROHIBITION_PATTERN`, and whether `strip` leaves nothing.
pub record Readers : Type 0 where
  pub casefold : Text → Text
  pub search : PatternName → Text → Bool
  pub split_clauses : Text → List Text
  pub last_prohibition_end : Text → Option ℕ
  pub is_blank : Text → Bool
