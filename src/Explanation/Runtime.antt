-- ===== src/Explanation/Runtime.antt =====
-- app/services/llm/runtime.py, the counters of `ExplanationMetrics` in app/core/observability.py and the
-- route `explain` of app/api/routes/analysis.py: which models are asked, and in which order. The
-- durations that the metrics also add up are not modelled.
pub mod Fallback
pub mod Trials
pub mod Building
use finshield_ai.Base.{
  ℕ, zero, suc, ◌+◌, String, Bool, true, false, not, ◌&&◌, Option, none, some, List, [], ◌∷◌, ◌==◌,
  mem, Result, ok, err, ◌>>=◌, Eq, if◌then◌else◌, map,
}
use finshield_ai.OfficialSources.{string_eq}
use finshield_ai.Fraud.Analysis.{
  AnalyzeRequest, AnalyzeResponse, Detectors, AnalysisError, analyze_fraud,
}
use finshield_ai.Explanation.Outcomes.{Outcome, outcome_eq, ExplanationAttempt}
use finshield_ai.Explanation.Contract.{LlmContract, ContractError, post_init}
use finshield_ai.Explanation.Analysis.{Texts, AttemptError, has_grounded_evidence, explain_analysis}

-- `Counter[key] += 1`, by a test of keys
unfoldable pub count_key : {K : Type 0} → (K → K → Bool) → K → List (K × ℕ) → List (K × ℕ)
count_key same key [] = (key, 1) ∷ []
count_key same key ((k, n) ∷ counter) =
    let rest = count_key same key counter in
    if same key k then (k, suc n) ∷ counter else (k, n) ∷ rest

-- `sum(counter.values())`
unfoldable pub total : {K : Type 0} → List (K × ℕ) → ℕ
total [] = 0
total ((k, n) ∷ counter) = n + total counter

-- `ExplanationMetrics`: attempts by model and outcome, and results by outcome.
pub record Metrics : Type 0 where
  pub attempts : List ((String × Outcome) × ℕ)
  pub results : List (Outcome × ℕ)

abbrev pub same_attempt : String × Outcome → String × Outcome → Bool
same_attempt (model, outcome) (m, o) = model == m && outcome == o

-- `label` is `_label`, which the model's name goes through.
unfoldable pub observe_attempt : (String → String) → String → Outcome → Metrics → Metrics
observe_attempt label model outcome metrics = record {
  attempts = count_key same_attempt (label model, outcome) metrics.attempts;
  results = metrics.results;
}

unfoldable pub observe_result : Outcome → Metrics → Metrics
observe_result outcome metrics = record {
  attempts = metrics.attempts;
  results = count_key (λ a b. a == b) outcome metrics.results;
}

pub record ExplanationResult : Type 0 where
  pub text : Option String
  pub model : Option String
  pub outcome : Outcome

-- A result without a text.
abbrev pub no_result : Outcome → ExplanationResult
no_result outcome = record { text = none; model = none; outcome = outcome }

-- A result or what was raised, with the state of the provider and the metrics after it.
abbrev pub Answer : Type 0 → Type 0
Answer S = Result AttemptError ExplanationResult × S × Metrics

module _ (texts : Texts) (label : String → String) {S : Type 0}
    (generate : LlmContract → String → S → Result Outcome String × S) where
  -- The end of one round of the loop, by the text of the attempt; `others` goes on with the rest.
  unfoldable pub settle_text :
      LlmContract
      → (Outcome → S → Metrics → Answer S)
      → S
      → Metrics
      → Outcome
      → Option String
      → Answer S
  settle_text contract others s metrics outcome (some text) = (
    ok (record { text = some text; model = some contract.model; outcome = outcome }),
    s,
    observe_result outcome metrics,
  )
  settle_text contract others s metrics outcome none = others outcome s metrics

  -- One round, by the attempt.
  unfoldable pub settle :
      LlmContract
      → (Outcome → S → Metrics → Answer S)
      → S
      → Metrics
      → Result AttemptError ExplanationAttempt
      → Answer S
  unfolding settle_text
  settle contract others s metrics (err e) = (err e, s, metrics)
  settle contract others s metrics (ok attempt) =
      settle_text contract others s (observe_attempt label contract.model attempt.outcome metrics)
        attempt.outcome attempt.text

  -- The loop of `explain_with_fallback`, with the outcome so far.
  unfoldable pub try_contracts :
      AnalyzeResponse → String → List LlmContract → Outcome → S → Metrics → Answer S
  try_contracts response message [] outcome s metrics =
      (ok (no_result outcome), s, observe_result outcome metrics)
  try_contracts response message (contract ∷ contracts) outcome s metrics =
      let (attempt, after) = explain_analysis texts generate response message contract s in
      settle contract (try_contracts response message contracts) after metrics attempt

  unfoldable pub explain_with_fallback :
      AnalyzeResponse → String → List LlmContract → S → Metrics → Answer S
  explain_with_fallback response message contracts s metrics =
      if not (has_grounded_evidence response)
      then (
        ok (no_result Outcome.not_asked_no_evidence),
        s,
        observe_result Outcome.not_asked_no_evidence metrics,
      )
      else try_contracts response message contracts Outcome.unspecified s metrics
