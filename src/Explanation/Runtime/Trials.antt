-- ===== src/Explanation/Runtime/Trials.antt =====
-- What a run of `explain_with_fallback` of app/services/llm/runtime.py is, by the attempts that it makes, and
-- the counters of app/core/observability.py.
use finshield_ai.Base.{
  ℕ, suc, ◌+◌, ◌≡◌, refl, ◌⊎◌, String, Bool, true, none, some, List, [], ◌∷◌, ◌++◌, length, all,
  ◌==◌, Result, ok, Eq, arith, if◌then◌else◌,
}
use finshield_ai.OfficialSources.{string_eq}
use finshield_ai.Fraud.Analysis.{AnalyzeResponse}
use finshield_ai.Explanation.Outcomes.{Outcome, outcome_eq, is_explained, ExplanationAttempt}
use finshield_ai.Explanation.Contract.{LlmContract}
use finshield_ai.Explanation.Analysis.{Texts, explain_analysis}
use finshield_ai.Explanation.Runtime.{
  count_key, total, Metrics, observe_result, ExplanationResult, Answer,
}

pub total-count_key :
    {K : Type 0} (same : K → K → Bool) (key : K) (counter : List (K × ℕ))
    → total (count_key same key counter) ≡ suc (total counter)
unfolding total count_key
total-count_key same key [] = refl
total-count_key same key ((k, n) ∷ counter) = ground (arith, total-count_key same key counter)

module _ {K : Type 0} ⦃e : Eq K⦄ where
  -- `counter[key]`, which is 0 where the key is missing.
  unfoldable pub count_of : K → List (K × ℕ) → ℕ
  count_of key [] = 0
  count_of key ((k, n) ∷ counter) = if key == k then n else count_of key counter

  pub count_of-count_key :
      (o key : K) (counter : List (K × ℕ))
      → count_of o (count_key (λ a b. a == b) key counter)
        ≡ (if o == key then suc (count_of o counter) else count_of o counter)
  unfolding count_of count_key
  count_of-count_key o key [] = refl
  count_of-count_key o key ((k, n) ∷ counter) =
      ground
        (arith, count_of-count_key o key counter, e.beq_iff o key, e.beq_iff key k, e.beq_iff o k)

pub add_attempt : (t n m k : ℕ) → m ≡ suc k → t ≡ n + m → t ≡ suc n + k
add_attempt t n m k h e = omega arith

pub explained_lem : (o : Outcome) → is_explained o ≡ true → o ≡ Outcome.explained
explained_lem Outcome.explained h = refl
explained_lem _ h = cc

-- One result more, with its outcome.
abbrev pub IsResultCounted : Metrics → Outcome → Metrics → Type 0
IsResultCounted before outcome after =
    (o : Outcome)
    → count_of o after.results
      ≡ (if o == outcome then suc (count_of o before.results) else count_of o before.results)

pub observe_result-IsResultCounted :
    (outcome : Outcome) (before : Metrics)
    → IsResultCounted before outcome (observe_result outcome before)
unfolding observe_result
observe_result-IsResultCounted outcome before o = count_of-count_key o outcome before.results

module _ (texts : Texts) (label : String → String) {S : Type 0}
    (generate : LlmContract → String → S → Result Outcome String × S) (response : AnalyzeResponse)
    (message : String) where
  open texts use {sha256, prompt_template}

  -- Every contract pins the prompt that is sent.
  abbrev pub all_pinned : List LlmContract → Bool
  all_pinned contracts = all (λ c. sha256 prompt_template == c.prompt_sha256) contracts

  -- The contracts were tried in their order, each in the state that the one before left, and none gave a
  -- text; with the states and the outcomes before them and after the last one.
  abbrev pub Fail : List LlmContract → S → Outcome → S → Outcome → Type 0
  Fail [] s o last last_outcome = (last ≡ s) × (last_outcome ≡ o)
  Fail (c ∷ contracts) s o last last_outcome =
      (a : ExplanationAttempt) × (after : S) × (explain_analysis texts generate response message c s
        ≡ (ok a, after))
      × (a.text ≡ none)
      × Fail contracts after a.outcome last last_outcome

  -- The attempt with a contract gave a text.
  abbrev pub Explains : LlmContract → S → S → String → Type 0
  Explains c s after text =
      explain_analysis texts generate response message c s
      ≡ (ok (record { text = some text; outcome = Outcome.explained }), after)

  -- The text is that of the first contract that gave one.
  abbrev pub IsExplained :
      List LlmContract → Outcome → S → Metrics → ExplanationResult → S → Metrics → Type 0
  IsExplained contracts o s before result last after =
      (tried : List LlmContract) × (c : LlmContract) × (rest : List LlmContract) × (text : String)
      × (t : S) × (p : Outcome) × (contracts ≡ tried ++ c ∷ rest)
      × (Fail tried s o t p)
      × (Explains c t last text)
      × (result ≡ record { text = some text; model = some c.model; outcome = Outcome.explained })
      × (total after.attempts ≡ suc (length tried) + total before.attempts)

  -- No contract gave a text, and the outcome is that of the last one.
  abbrev pub IsUnexplained :
      List LlmContract → Outcome → S → Metrics → ExplanationResult → S → Metrics → Type 0
  IsUnexplained contracts o s before result last after =
      (p : Outcome) × (Fail contracts s o last p)
      × (result ≡ record { text = none; model = none; outcome = p })
      × (total after.attempts ≡ length contracts + total before.attempts)

  abbrev pub Settles : List LlmContract → Outcome → S → Metrics → Answer S → Type 0
  Settles contracts o s before answer =
      (result : ExplanationResult) × (answer.0 ≡ ok result)
      × (IsResultCounted before result.outcome answer.2)
      × (IsExplained contracts o s before result answer.1 answer.2
          ⊎ IsUnexplained contracts o s before result answer.1 answer.2)

  -- Without evidence nothing is asked.
  abbrev pub IsNotAsked : S → Metrics → Answer S → Type 0
  IsNotAsked s before answer =
      (answer.0
        ≡ ok (record { text = none; model = none; outcome = Outcome.not_asked_no_evidence }))
      × (answer.1 ≡ s)
      × (answer.2.attempts ≡ before.attempts)
      × IsResultCounted before Outcome.not_asked_no_evidence answer.2
