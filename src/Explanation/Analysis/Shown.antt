-- ===== src/Explanation/Analysis/Shown.antt =====
-- `explain_analysis` of app/services/llm/explanation.py: a text, and a reason.
use finshield_ai.Base.{
  ◌≡◌, refl, sym, String, true, false, none, some, ◌==◌, Result, ok, err, inl, inr, mem,
}
use finshield_ai.OfficialSources.{string_eq}
use finshield_ai.Fraud.Analysis.{AnalyzeResponse}
use finshield_ai.Explanation.Outcomes.{
  Outcome, is_explained, is_given, ExplanationAttempt, Outcome-discrete, outcome_eq,
  rejection_outcomes,
}
use finshield_ai.Explanation.Contract.{LlmContract, verify_prompt}
use finshield_ai.Explanation.Validation.Accepted.{validate_explanation-cases}
use finshield_ai.Explanation.Analysis.{
  Texts, AttemptError, attempt_of, attempt_validated, attempt_answered, ask_provider,
  explain_analysis, prompt_of, shown_message, build_grounded_text, max_explanation_chars,
}

-- An attempt that was made, with a text exactly when it is explained.
abbrev pub IsMade : Result AttemptError ExplanationAttempt → Type 0
IsMade r = (a : ExplanationAttempt) × (r ≡ ok a) × (is_given a.text ≡ is_explained a.outcome)

attempt_of-refused : (o : Outcome) → is_explained o ≡ false → IsMade (attempt_of none o)
unfolding attempt_of
attempt_of-refused o h = (record { text = none; outcome = o }, rw h refl, rw h refl)

attempt_of-given : (text : String) → IsMade (attempt_of (some text) Outcome.explained)
unfolding attempt_of
attempt_of-given text = (record { text = some text; outcome = Outcome.explained }, refl, refl)

rejection-not_explained : (o : Outcome) → mem o rejection_outcomes ≡ true → is_explained o ≡ false
unfolding Outcome-discrete
rejection-not_explained Outcome.explained h = sym h
rejection-not_explained _ h = refl

module _ (texts : Texts) {S : Type 0}
    (generate : LlmContract → String → S → Result Outcome String × S) where
  open texts use {sha256, prompt_template, readings}

  -- The provider's failures have a reason other than `OK`.
  abbrev pub FailsWithReason : Type 0
  FailsWithReason =
      (contract : LlmContract) (prompt : String) (s : S) (o : Outcome)
      → (generate contract prompt s).0 ≡ err o
      → is_explained o ≡ false

  attempt_answered-IsMade :
      (contract : LlmContract) (response : AnalyzeResponse) (message : String)
      (answer : Result Outcome String)
      → ((o : Outcome) → answer ≡ err o → is_explained o ≡ false)
      → IsMade (attempt_answered texts contract response message answer)
  unfolding attempt_answered attempt_validated
  attempt_answered-IsMade contract response message (err o) h = attempt_of-refused o (h o refl)
  attempt_answered-IsMade contract response message (ok raw) h =
      elim (validate_explanation-cases readings (build_grounded_text response)
        (shown_message texts contract message) max_explanation_chars response.risk_level raw) [
          | inl (e, good) ↦ rw e (attempt_of-given (readings.strip raw))
          | inr (o, e, m, bad) ↦ rw e (attempt_of-refused o (rejection-not_explained o m))
        ]

  pub explain_analysis-IsMade :
      (response : AnalyzeResponse) (message : String) (contract : LlmContract) (s : S)
      → FailsWithReason
      → (sha256 prompt_template == contract.prompt_sha256) ≡ true
      → IsMade (explain_analysis texts generate response message contract s).0
  unfolding explain_analysis ask_provider verify_prompt
  explain_analysis-IsMade response message contract s h e = rw e (
      attempt_answered-IsMade contract response message
        (generate contract (prompt_of texts contract response message) s).0
        (h contract (prompt_of texts contract response message) s))
