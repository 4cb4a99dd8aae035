-- ===== src/Explanation/Outcomes.antt =====
-- app/services/llm/outcomes.py: the closed vocabulary of outcomes, and the result of one attempt.
use finshield_ai.Base.{
  String, Bool, true, false, List, [], ◌∷◌, Option, none, some, Eq, eq_of_discrete,
}

-- `ExplanationOutcome`; its `OK` is `explained` here.
pub data Outcome : Type 0 where
  explained provider_miscontracted unsupported_model timeout transport_error http_error : Outcome
  malformed_body prompt_blocked safety_blocked truncated recitation_blocked stopped_early : Outcome
  empty_text rejected_empty rejected_too_long rejected_url rejected_rrn : Outcome
  rejected_contradicts_verdict rejected_invented_contact rejected_ungrounded_org : Outcome
  rejected_law_citation rejected_ungrounded_number rejected_ungrounded_promise : Outcome
  not_asked_no_evidence unspecified : Outcome

unfoldable pub Outcome-discrete : Discrete Outcome
Outcome-discrete = hlevel

instance abbrev pub outcome_eq : Eq Outcome
outcome_eq = eq_of_discrete Outcome-discrete

-- `REJECTION_OUTCOMES`
abbrev pub rejection_outcomes : List Outcome
rejection_outcomes =
    rejected_empty ∷ rejected_too_long ∷ rejected_url ∷ rejected_rrn ∷ rejected_contradicts_verdict
    ∷ rejected_invented_contact ∷ rejected_ungrounded_org ∷ rejected_law_citation
    ∷ rejected_ungrounded_number ∷ rejected_ungrounded_promise ∷ []

-- `outcome is ExplanationOutcome.OK`
abbrev pub is_explained : Outcome → Bool
is_explained explained = true
is_explained _ = false

abbrev pub is_given : Option String → Bool
is_given none = false
is_given (some _) = true

pub record ExplanationAttempt : Type 0 where
  pub text : Option String
  pub outcome : Outcome
