-- ===== src/Explanation/Validation.antt =====
-- app/services/llm/validation.py: what a model wrote is shown only if it says nothing that the
-- evidence does not. The regular expressions and `str.strip`, `str.split` are parameters; Python's
-- sets are the lists of their elements, of which only emptiness and membership are read.
pub mod Accepted
use finshield_ai.Base.{
  ℕ, String, text_contains, join, Bool, true, false, not, ◌&&◌, ◌||◌, List, [], ◌∷◌, ◌++◌, map, any,
  all, is_empty, length, ltb, ◌==◌, mem, concat, Result, ok, err, raise_if, ◌>>◌, if◌then◌else◌,
}
use finshield_ai.OfficialSources.{string_eq}
use finshield_ai.Risk.{RiskLevel, low}
use finshield_ai.Explanation.Outcomes.{Outcome}
use finshield_ai.Explanation.Untrusted.Spans.{chars}

-- The compiled patterns: `search` as a test, `findall` as the list of what is found, `sub("", _)` as
-- a function of texts.
pub record Readings : Type 0 where
  pub strip : String → String
  pub split : String → List String
  pub url_pattern : String → Bool
  pub rrn_pattern : String → Bool
  pub reassurance_patterns : List (String → Bool)
  pub promise_patterns : List (String → Bool)
  pub contact_pattern : String → List String
  pub org_pattern : String → List String
  pub law_pattern : String → List String
  pub numeric_claim_patterns : List (String → List String)
  pub digits_only : String → String
  pub normalize : String → String
  pub ends_with : String → String → Bool

-- `_ORG_GENERIC_TAILS`
abbrev pub org_generic_tails : List String
org_generic_tails = "고객센터" ∷ "상담센터" ∷ "콜센터" ∷ "지원센터" ∷ "안내센터" ∷ "서비스센터" ∷ []

-- `level in _REASSURANCE_CHECKED_LEVELS`
abbrev pub is_reassurance_checked : RiskLevel → Bool
is_reassurance_checked low = false
is_reassurance_checked _ = true

-- The elements that the test holds for, as in a comprehension.
unfoldable pub where_ok : (String → Bool) → List String → List String
where_ok p [] = []
where_ok p (x ∷ xs) = let rest = where_ok p xs in if p x then x ∷ rest else rest

-- The set difference.
unfoldable pub absent_from : List String → List String → List String
unfolding where_ok
absent_from known xs = where_ok (λ x. not (mem x known)) xs

-- `" ".join(parts[i:])` for each i
unfoldable pub joined_tails : List String → List String
joined_tails [] = []
joined_tails (part ∷ parts) = join " " (part ∷ parts) ∷ joined_tails parts

-- `rest or [text]`
unfoldable pub or_whole : String → List String → List String
or_whole text [] = text ∷ []
or_whole text (part ∷ parts) = part ∷ parts

module _ (readings : Readings) where
  open readings use {
    strip, split, url_pattern, rrn_pattern, reassurance_patterns, promise_patterns, contact_pattern,
    org_pattern, law_pattern, numeric_claim_patterns, digits_only, normalize, ends_with,
  }

  -- `_contacts`
  unfoldable pub contacts : String → List String
  contacts text = map digits_only (contact_pattern text)

  -- `_boundary_suffixes`
  unfoldable pub boundary_suffixes : String → List String
  unfolding or_whole joined_tails
  boundary_suffixes text = or_whole text (joined_tails (split text))

  -- `_grounded_organizations`
  unfoldable pub grounded_organizations : String → List String
  unfolding where_ok
  grounded_organizations grounded_text =
      where_ok (λ name. not (name == "")) (map normalize (org_pattern grounded_text))

  -- The conditions of the comprehension of `_ungrounded_organizations`.
  unfoldable pub is_ungrounded_organization : String → String → Bool
  is_ungrounded_organization grounded_text match =
      not (normalize match == "")
      && not (any (ends_with (normalize match)) org_generic_tails)
      && not (text_contains (normalize grounded_text) (normalize match))
      && not (
          any (λ part. mem (normalize part) (grounded_organizations grounded_text))
            (boundary_suffixes match))

  -- `_ungrounded_organizations`
  unfoldable pub ungrounded_organizations : String → String → List String
  ungrounded_organizations explanation grounded_text =
      map normalize (where_ok (is_ungrounded_organization grounded_text) (org_pattern explanation))

  -- `_ungrounded_laws`
  unfoldable pub ungrounded_laws : String → String → List String
  ungrounded_laws explanation grounded_text =
      where_ok (λ name. not (name == "") && not (text_contains (normalize grounded_text) name))
        (map normalize (law_pattern explanation))

  -- What all the patterns of numeric claims find.
  unfoldable pub found_claims : List (String → List String) → String → List String
  found_claims [] explanation = []
  found_claims (pattern_ ∷ patterns) explanation =
      pattern_ explanation ++ found_claims patterns explanation

  -- `allowed` of `_ungrounded_numbers`
  unfoldable pub allowed_numbers : String → String → String
  allowed_numbers grounded_text message_text =
      concat (normalize grounded_text ∷ "\n" ∷ normalize message_text ∷ [])

  -- `_ungrounded_numbers`
  unfoldable pub ungrounded_numbers : String → String → String → List String
  ungrounded_numbers explanation grounded_text message_text =
      where_ok
        (λ claim.
          not (claim == "")
          && not (text_contains (allowed_numbers grounded_text message_text) claim))
        (map normalize (found_claims numeric_claim_patterns explanation))

  unfoldable pub contradicts_verdict : String → RiskLevel → Bool
  contradicts_verdict text risk_level =
      if not (is_reassurance_checked risk_level)
      then false
      else any (λ search. search text) reassurance_patterns

  -- The checks of `validate_explanation`, in their order; the error is the outcome that
  -- `LlmOutputRejected` carries.
  unfoldable pub checks : String → String → String → ℕ → RiskLevel → Result Outcome Unit
  checks explanation grounded_text message_text max_chars risk_level =
      raise_if (explanation == "") Outcome.rejected_empty
      >> raise_if (ltb max_chars (length (chars explanation))) Outcome.rejected_too_long
      >> raise_if (url_pattern explanation) Outcome.rejected_url
      >> raise_if (rrn_pattern explanation) Outcome.rejected_rrn
      >> raise_if (contradicts_verdict explanation risk_level) Outcome.rejected_contradicts_verdict
      >> raise_if (not (is_empty (absent_from (contacts grounded_text) (contacts explanation))))
          Outcome.rejected_invented_contact
      >> raise_if (not (is_empty (ungrounded_organizations explanation grounded_text)))
          Outcome.rejected_ungrounded_org
      >> raise_if (not (is_empty (ungrounded_laws explanation grounded_text)))
          Outcome.rejected_law_citation
      >> raise_if (not (is_empty (ungrounded_numbers explanation grounded_text message_text)))
          Outcome.rejected_ungrounded_number
      >> raise_if (any (λ search. search explanation) promise_patterns)
          Outcome.rejected_ungrounded_promise

  unfoldable pub validate_explanation :
      String → String → String → ℕ → RiskLevel → Result Outcome String
  validate_explanation output grounded_text message_text max_chars risk_level =
      let explanation = strip output in
      checks explanation grounded_text message_text max_chars risk_level >> ok explanation
