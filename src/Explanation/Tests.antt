-- ===== src/Explanation/Tests.antt =====
-- Runs of the explanation layer, and its theorems at concrete inputs.
use Prim.Native.Char.{Char, code}
use finshield_ai.Base.{
  ℕ, ◌+◌, ◌≡◌, refl, sym, ap, ◌⊎◌, String, text_contains, Bool, true, false, List, [], ◌∷◌, any,
  is_empty, nat_beq, mem, Result, ok, err, if◌then◌else◌, ◌==◌, arith,
}
use finshield_ai.OfficialSources.{string_eq}
use finshield_ai.Risk.{RiskLevel}
use finshield_ai.Fraud.Codes.{UserState, SignalCode}
use finshield_ai.Fraud.Analysis.{AnalyzeResponse}
use finshield_ai.Explanation.Outcomes.{Outcome, outcome_eq, is_explained, rejection_outcomes}
use finshield_ai.Explanation.Untrusted.Spans.{Text, chars, drop}
use finshield_ai.Explanation.Untrusted.{
  Rules, split_from, join_pieces, neutralize_instructions, contains_instruction, neutralized_by,
  rebuild_sentences,
}
use finshield_ai.Explanation.Untrusted.Reassembly.{join_pieces-split_from}
use finshield_ai.Explanation.Untrusted.Removal.{neutralize_instructions-nothing}
use finshield_ai.Explanation.Validation.{
  Readings, checks, contradicts_verdict, validate_explanation,
}
use finshield_ai.Explanation.Validation.Accepted.{is_acceptable, validate_explanation-cases}
use finshield_ai.Explanation.Contract.{LlmContract}
use finshield_ai.Explanation.Analysis.{Texts, has_grounded_evidence}
use finshield_ai.Explanation.Runtime.{Metrics, explain_with_fallback}
use finshield_ai.Explanation.Runtime.Trials.{Settles, IsNotAsked}
use finshield_ai.Explanation.Runtime.Fallback.{explain_with_fallback-cases}

abbrev is_blank : Char → Bool
is_blank c = nat_beq (code c) 32

-- A pattern that finds the first character of a text that has an exclamation mark.
abbrev has_mark : Text → Bool
has_mark text = any (λ c. nat_beq (code c) 33) text

abbrev marks : Text → List (ℕ × ℕ)
marks text = if has_mark text then (0, 1) ∷ [] else []

abbrev mark_rules : Rules
mark_rules = record {
  is_space = is_blank;
  sentence_boundary = λ text. [];
  clause_boundary = λ text. [];
  instruction_patterns = record { search = has_mark; finditer = marks } ∷ [];
}

marks-nonempty : (text : Text) → has_mark text ≡ true → is_empty (marks text) ≡ false
marks-nonempty text h = rw h refl

join_pieces-split_from_example :
    join_pieces (split_from (chars "ab cd") 0 ((2, 3) ∷ [])) ≡ drop 0 (chars "ab cd")
join_pieces-split_from_example =
    join_pieces-split_from (chars "ab cd") 0 ((2, 3) ∷ []) (omega arith, omega arith, tt)

neutralize_instructions-nothing_example :
    ((neutralize_instructions mark_rules (chars "ab")).text ≡ chars "ab")
    × (contains_instruction mark_rules (chars "ab") ≡ false)
unfolding neutralize_instructions neutralized_by split_from rebuild_sentences join_pieces
    contains_instruction chars drop
neutralize_instructions-nothing_example =
    neutralize_instructions-nothing mark_rules (chars "ab") (marks-nonempty, tt) refl refl

-- Nothing but a promise is found.
abbrev readings : Readings
readings = record {
  strip = λ t. t;
  split = λ t. t ∷ [];
  url_pattern = λ t. false;
  rrn_pattern = λ t. false;
  reassurance_patterns = (λ t. text_contains t "safe") ∷ [];
  promise_patterns = [];
  contact_pattern = λ t. [];
  org_pattern = λ t. [];
  law_pattern = λ t. [];
  numeric_claim_patterns = [];
  digits_only = λ t. t;
  normalize = λ t. t;
  ends_with = λ t u. false;
}

validate_explanation-cases_example :
    ((validate_explanation readings "it is safe" "a" "b" 600 RiskLevel.high ≡ ok "it is safe")
      × (is_acceptable readings "a" "b" 600 RiskLevel.high "it is safe" ≡ true))
    ⊎ ((o : Outcome) × (validate_explanation readings "it is safe" "a" "b" 600 RiskLevel.high
          ≡ err o)
        × (mem o rejection_outcomes ≡ true)
        × (is_acceptable readings "a" "b" 600 RiskLevel.high "it is safe" ≡ false))
validate_explanation-cases_example =
    validate_explanation-cases readings "a" "b" 600 RiskLevel.high "it is safe"

reassurance_is_rejected :
    validate_explanation readings "it is safe" "a" "b" 600 RiskLevel.high
    ≡ err Outcome.rejected_contradicts_verdict
unfolding validate_explanation checks contradicts_verdict chars
reassurance_is_rejected = refl

abbrev texts : Texts
texts = record {
  sha256 = λ t. t;
  prompt_template = "prompt";
  format = λ template level state blocks message. message;
  minimization_rules = [];
  instruction_rules = mark_rules;
  readings = readings;
}

abbrev contract_of : String → LlmContract
contract_of model = record {
  provider = "stub";
  model = model;
  prompt_id = "p";
  prompt_sha256 = "prompt";
  max_input_chars = 10;
  timeout_tenths = 80;
  temperature_tenths = 0;
}

abbrev answer_of : Bool → Result Outcome String
answer_of true = err Outcome.timeout
answer_of false = ok "it is urgent"

-- The first model takes too long; the state counts the calls.
abbrev answer : LlmContract → String → ℕ → Result Outcome String × ℕ
answer contract prompt calls = (answer_of (contract.model == "first"), calls + 1)

abbrev reason_of : Result Outcome String → Bool
reason_of (ok text) = false
reason_of (err o) = is_explained o

answer_of-reason : (b : Bool) (o : Outcome) → answer_of b ≡ err o → is_explained o ≡ false
answer_of-reason true o e = sym (ap reason_of e)
answer_of-reason false o e = absurd (cc)

abbrev response : AnalyzeResponse
response = record {
  risk_score = 40;
  risk_level = RiskLevel.medium;
  signals = record { code = SignalCode.urgency_pressure; label = "urgency"; weight = 10 } ∷ [];
  scenario = UserState.received_only;
  disclaimer = "";
  fraud_types = [];
  summary = "";
  actions = [];
  official_sources = [];
}

abbrev no_metrics : Metrics
no_metrics = record { attempts = []; results = [] }

abbrev two_models : List LlmContract
two_models = contract_of "first" ∷ contract_of "second" ∷ []

explain_with_fallback-cases_example :
    ((has_grounded_evidence response ≡ false)
      × IsNotAsked texts
          (λ m. m)
          answer
          response
          "hello"
          0
          no_metrics
          (explain_with_fallback texts (λ m. m) answer response "hello" two_models 0 no_metrics))
    ⊎ ((has_grounded_evidence response ≡ true)
        × Settles texts
            (λ m. m)
            answer
            response
            "hello"
            two_models
            Outcome.unspecified
            0
            no_metrics
            (explain_with_fallback texts (λ m. m) answer response "hello" two_models 0 no_metrics))
explain_with_fallback-cases_example =
    explain_with_fallback-cases texts (λ m. m) answer response "hello" two_models 0 no_metrics
      (λ contract prompt calls o e. answer_of-reason (contract.model == "first") o e) refl
