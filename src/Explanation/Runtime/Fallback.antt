-- ===== src/Explanation/Runtime/Fallback.antt =====
-- The order of the models in `explain_with_fallback` of app/services/llm/runtime.py: the first that
-- gives a text is the last that is asked.
use finshield_ai.Base.{
  ℕ, suc, ◌+◌, ◌≡◌, refl, sym, ap, ap₂, ◌∙◌, ◌⊎◌, inl, inr, String, true, false, Option, none, some,
  List, [], ◌∷◌, length, Result, ok, err, arith, Bool-cases,
}
use finshield_ai.OfficialSources.{string_eq}
use finshield_ai.Fraud.Analysis.{AnalyzeResponse}
use finshield_ai.Explanation.Outcomes.{
  Outcome, outcome_eq, is_explained, is_given, ExplanationAttempt,
}
use finshield_ai.Explanation.Contract.{LlmContract}
use finshield_ai.Explanation.Analysis.{AttemptError, Texts, has_grounded_evidence, explain_analysis}
use finshield_ai.Explanation.Analysis.Shown.{FailsWithReason, explain_analysis-IsMade}
use finshield_ai.Explanation.Runtime.{
  same_attempt, total, Metrics, observe_attempt, observe_result, no_result, Answer, settle_text,
  settle, try_contracts, explain_with_fallback,
}
use finshield_ai.Explanation.Runtime.Trials.{
  total-count_key, add_attempt, explained_lem, observe_result-IsResultCounted, all_pinned, Settles,
  IsNotAsked,
}

one_attempt :
    (r a : ExplanationAttempt) (e : Result AttemptError ExplanationAttempt)
    → e ≡ ok r
    → e ≡ ok a
    → r ≡ a
one_attempt r a e h k = cc

module _ (texts : Texts) (label : String → String) {S : Type 0}
    (generate : LlmContract → String → S → Result Outcome String × S) (response : AnalyzeResponse)
    (message : String) where
  counted :
      (c : LlmContract) (before : Metrics) (o : Outcome) (n : ℕ) (after : Metrics)
      → total after.attempts ≡ n + total (observe_attempt label c.model o before).attempts
      → total after.attempts ≡ suc n + total before.attempts
  unfolding observe_attempt
  counted c before o n after h =
      add_attempt _ n _ _ (total-count_key same_attempt (label c.model, o) before.attempts) h

  -- What the rest of the order gives after an attempt without a text.
  one_more :
      (c : LlmContract) (contracts : List LlmContract) (o : Outcome) (s : S) (before : Metrics)
      (a : ExplanationAttempt) (after : S) (answer : Answer S)
      → explain_analysis texts generate response message c s ≡ (ok a, after)
      → a.text ≡ none
      → Settles texts label generate response message contracts a.outcome after
          (observe_attempt label c.model a.outcome before)
          answer
      → Settles texts label generate response message (c ∷ contracts) o s before answer
  unfolding observe_attempt
  one_more c contracts o s before a after answer e h
        (result, r, n, inl (tried, d, rest, text, t, p, split, fail, explains, is, count)) =
      (
        result,
        r,
        n,
        inl (
          c ∷ tried,
          d,
          rest,
          text,
          t,
          p,
          ap (λ cs. c ∷ cs) split,
          (a, after, e, h, fail),
          explains,
          is,
          counted c before a.outcome (suc (length tried)) answer.2 count,
        ),
      )
  one_more c contracts o s before a after answer e h (result, r, n, inr (p, fail, is, count)) = (
    result,
    r,
    n,
    inr (
      p,
      (a, after, e, h, fail),
      is,
      counted c before a.outcome (length contracts) answer.2 count,
    ),
  )

  settle_text-Settles :
      (c : LlmContract) (contracts : List LlmContract) (others : Outcome → S → Metrics → Answer S)
      (o : Outcome) (s : S) (before : Metrics) (a : ExplanationAttempt) (after : S)
      (text : Option String)
      → explain_analysis texts generate response message c s ≡ (ok a, after)
      → a.text ≡ text
      → is_given text ≡ is_explained a.outcome
      → ((o : Outcome) (s : S) (m : Metrics)
          → Settles texts label generate response message contracts o s m (others o s m))
      → Settles texts label generate response message (c ∷ contracts) o s before (
          settle_text texts label generate c others after
            (observe_attempt label c.model a.outcome before)
            a.outcome
            text)
  unfolding settle_text observe_attempt observe_result
  settle_text-Settles c contracts others o s before a after (some text) e h same rest = (
    record { text = some text; model = some c.model; outcome = a.outcome },
    refl,
    observe_result-IsResultCounted a.outcome before,
    inl (
      [],
      c,
      contracts,
      text,
      s,
      o,
      refl,
      (refl, refl),
      e
          ∙ ap₂ (λ t p. (ok (record { text = t; outcome = p }), after)) h
              (explained_lem a.outcome (sym same)),
      rw (explained_lem a.outcome (sym same)) refl,
      add_attempt _ 0 _ _ (total-count_key same_attempt (label c.model, a.outcome) before.attempts)
          (omega arith),
    ),
  )
  settle_text-Settles c contracts others o s before a after none e h same rest =
      one_more c contracts o s before a after _ e h
        (rest a.outcome after (observe_attempt label c.model a.outcome before))

  settle-Settles :
      (c : LlmContract) (contracts : List LlmContract) (others : Outcome → S → Metrics → Answer S)
      (o : Outcome) (s : S) (before : Metrics) (r : Result AttemptError ExplanationAttempt)
      (a : ExplanationAttempt) (after : S)
      → r ≡ ok a
      → Settles texts label generate response message (c ∷ contracts) o s before (
          settle_text texts label generate c others after
            (observe_attempt label c.model a.outcome before)
            a.outcome
            a.text)
      → Settles texts label generate response message
          (c ∷ contracts)
          o
          s
          before
          (settle texts label generate c others after before r)
  unfolding settle
  settle-Settles c contracts others o s before (ok r) a after e h =
      rw (one_attempt r a (ok r) refl e) h
  settle-Settles c contracts others o s before (err r) a after e h = absurd (cc)

  try_contracts-Settles :
      (contracts : List LlmContract) (o : Outcome) (s : S) (before : Metrics)
      → FailsWithReason texts generate
      → all_pinned texts label generate response message contracts ≡ true
      → Settles texts label generate response message contracts o s before
          (try_contracts texts label generate response message contracts o s before)
  unfolding try_contracts observe_result
  try_contracts-Settles [] o s before h pinned = (
    no_result o,
    refl,
    observe_result-IsResultCounted o before,
    inr (o, (refl, refl), refl, omega arith),
  )
  try_contracts-Settles (c ∷ contracts) o s before h pinned =
      let (a, e, same) =
        explain_analysis-IsMade texts generate response message c s h (ground arith) in
      let after = (explain_analysis texts generate response message c s).1 in
      settle-Settles c contracts (try_contracts texts label generate response message contracts) o s
        before (explain_analysis texts generate response message c s).0 a after e
        (settle_text-Settles c contracts
          (try_contracts texts label generate response message contracts) o s before a after a.text
          (ap (λ r. (r, after)) e) refl same
          λ o s m. try_contracts-Settles contracts o s m h (ground arith))

  -- Where the prompt is the pinned one and the provider's failures have a reason, `explain_with_fallback`
  -- returns. Without evidence it asks nothing and leaves the provider's state. With evidence it asks the
  -- models in their order, each in the state that the attempt before left, until one gives a text: the
  -- result has the text of that attempt and the name of its model; where none does, it has no text and
  -- the outcome of the last attempt. The metrics count one attempt for each that was made and one result,
  -- with its outcome.
  pub explain_with_fallback-cases :
      (contracts : List LlmContract) (s : S) (before : Metrics)
      → FailsWithReason texts generate
      → all_pinned texts label generate response message contracts ≡ true
      → ((has_grounded_evidence response ≡ false)
          × IsNotAsked texts label generate response message s before
              (explain_with_fallback texts label generate response message contracts s before))
        ⊎ ((has_grounded_evidence response ≡ true)
            × Settles texts label generate response message contracts Outcome.unspecified s before
                (explain_with_fallback texts label generate response message contracts s before))
  unfolding explain_with_fallback observe_result
  explain_with_fallback-cases contracts s before h pinned =
      elim (Bool-cases (has_grounded_evidence response)) [
        | inl e ↦
            inr (e, rw e (try_contracts-Settles contracts Outcome.unspecified s before h pinned))
        | inr e ↦ inl (
          e,
          rw e (
            refl,
            refl,
            refl,
            observe_result-IsResultCounted Outcome.not_asked_no_evidence before,
          ),
        )
      ]
