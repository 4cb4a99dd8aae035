-- ===== src/Explanation/Analysis.antt =====
-- app/services/llm/explanation.py: one attempt to explain an analysis. The regular expressions, the
-- sha256, the prompt's text and its `format`, and what a provider answers are parameters.
pub mod Shown
use finshield_ai.Base.{
  ℕ, String, concat, join, show_nat, Bool, true, false, not, Option, none, some, List, [], ◌∷◌, map,
  any, ◌==◌, Result, ok, err, ◌>>=◌, ◌>>◌, raise_if, if◌then◌else◌,
}
use finshield_ai.OfficialSources.{OfficialSource, string_eq}
use finshield_ai.Risk.{RiskLevel}
use finshield_ai.Fraud.Codes.{UserState, RiskSignal, Action}
use finshield_ai.Fraud.Analysis.{AnalyzeResponse}
use finshield_ai.Explanation.Outcomes.{Outcome, is_explained, is_given, ExplanationAttempt}
use finshield_ai.Explanation.Untrusted.Spans.{chars, of_chars, take}
use finshield_ai.Explanation.Untrusted.{Rules, neutralize_instructions}
use finshield_ai.Explanation.Minimization.{Rule, minimize_for_provider}
use finshield_ai.Explanation.Validation.{Readings, validate_explanation}
use finshield_ai.Explanation.Contract.{LlmContract, ContractError, verify_prompt}

-- `MAX_EXPLANATION_CHARS`
abbrev pub max_explanation_chars : ℕ
max_explanation_chars = 600

-- `_EMPTY_BLOCK`
abbrev pub empty_block : String
empty_block = "- 없음"

-- `lines or _EMPTY_BLOCK`
unfoldable pub or_empty_block : String → String
or_empty_block block = if block == "" then empty_block else block

unfoldable pub signal_line : RiskSignal → String
signal_line signal = concat ("- " ∷ signal.label ∷ [])

unfoldable pub action_line : Action → String
action_line action =
    concat ("- (" ∷ show_nat action.priority ∷ "순위) " ∷ action.title ∷ " — " ∷ action.reason ∷ [])

unfoldable pub source_line : OfficialSource → String
source_line source = concat ("- " ∷ source.organization ∷ ": " ∷ source.title ∷ [])

-- `_grounded_blocks`
unfoldable pub grounded_blocks : AnalyzeResponse → List String
grounded_blocks response =
    or_empty_block (join "\n" (map signal_line response.signals))
    ∷ or_empty_block (join "\n" (map action_line response.actions))
    ∷ or_empty_block (join "\n" (map source_line response.official_sources))
    ∷ []

unfoldable pub has_grounded_evidence : AnalyzeResponse → Bool
has_grounded_evidence response =
    any (λ block. not (block == empty_block)) (grounded_blocks response)

unfoldable pub build_grounded_text : AnalyzeResponse → String
build_grounded_text response = join "\n" (grounded_blocks response)

-- What the layer reads of texts, and the prompt.
pub record Texts : Type 0 where
  pub sha256 : String → String
  pub prompt_template : String
  pub format : String → RiskLevel → UserState → List String → String → String
  pub minimization_rules : List Rule
  pub instruction_rules : Rules
  pub readings : Readings

-- What an attempt may raise: an error of the contract, or the ValueError of `ExplanationAttempt`.
pub data AttemptError : Type 0 where
  contract_error : ContractError → AttemptError
  inconsistent_attempt : AttemptError

-- `a is b` on truth values
abbrev pub is_same : Bool → Bool → Bool
is_same true b = b
is_same false b = not b

-- `ExplanationAttempt(text=..., outcome=...)` with its `__post_init__`
unfoldable pub attempt_of : Option String → Outcome → Result AttemptError ExplanationAttempt
attempt_of text outcome =
    if is_same (not (is_given text)) (is_explained outcome)
    then err inconsistent_attempt
    else ok (record { text = text; outcome = outcome })

-- The attempt by what the validation gave.
unfoldable pub attempt_validated : Result Outcome String → Result AttemptError ExplanationAttempt
unfolding attempt_of
attempt_validated (ok text) = attempt_of (some text) Outcome.explained
attempt_validated (err outcome) = attempt_of none outcome

module _ (texts : Texts) where
  open texts use {sha256, prompt_template, format, minimization_rules, instruction_rules, readings}

  -- `shown_message`
  unfoldable pub shown_message : LlmContract → String → String
  shown_message contract message = of_chars (
      take contract.max_input_chars
        (neutralize_instructions instruction_rules
          (chars (minimize_for_provider minimization_rules message).text)).text)

  unfoldable pub prompt_of : LlmContract → AnalyzeResponse → String → String
  prompt_of contract response message =
      format prompt_template response.risk_level response.scenario (grounded_blocks response)
        (shown_message contract message)

  -- The attempt by what the provider answered; an error carries the outcome of `LlmUnavailable`.
  unfoldable pub attempt_answered :
      LlmContract
      → AnalyzeResponse
      → String
      → Result Outcome String
      → Result AttemptError ExplanationAttempt
  unfolding attempt_validated attempt_of
  attempt_answered contract response message (err outcome) = attempt_of none outcome
  attempt_answered contract response message (ok raw) = attempt_validated (
      validate_explanation readings raw (build_grounded_text response)
        (shown_message contract message) max_explanation_chars response.risk_level)

  module _ {S : Type 0} (generate : LlmContract → String → S → Result Outcome String × S) where
    -- The call of `provider.generate`, after the check of the prompt.
    unfoldable pub ask_provider :
        AnalyzeResponse
        → String
        → LlmContract
        → S
        → Result ContractError Unit
        → Result AttemptError ExplanationAttempt × S
    ask_provider response message contract s (err e) = (err (contract_error e), s)
    ask_provider response message contract s (ok u) =
        let (answer, after) = generate contract (prompt_of contract response message) s in
        (attempt_answered contract response message answer, after)

    -- `explain_analysis`; a provider has a state of its own.
    unfoldable pub explain_analysis :
        AnalyzeResponse → String → LlmContract → S → Result AttemptError ExplanationAttempt × S
    unfolding ask_provider
    explain_analysis response message contract s =
        ask_provider response message contract s (verify_prompt sha256 contract prompt_template)
