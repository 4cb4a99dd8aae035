-- ===== src/Explanation/Validation/Accepted.antt =====
-- What `validate_explanation` of app/services/llm/validation.py lets through, without the order of its
-- checks.
use finshield_ai.Base.{
  ℕ, ◌≡◌, refl, sym, ◌⊎◌, inl, inr, String, text_contains, Bool, true, false, not, ◌&&◌, ◌||◌, List,
  [], ◌∷◌, map, any, all, is_empty, length, leb, ltb, ◌==◌, mem, Result, ok, err, raise_if, ◌>>◌,
  arith,
}
use finshield_ai.OfficialSources.{string_eq}
use finshield_ai.Risk.{RiskLevel}
use finshield_ai.Explanation.Outcomes.{Outcome, outcome_eq, Outcome-discrete, rejection_outcomes}
use finshield_ai.Explanation.Untrusted.Spans.{chars}
use finshield_ai.Explanation.Validation.{
  Readings, is_reassurance_checked, where_ok, absent_from, contacts, is_ungrounded_organization,
  ungrounded_organizations, ungrounded_laws, found_claims, allowed_numbers, ungrounded_numbers,
  contradicts_verdict, checks, validate_explanation,
}

is_empty-where_ok :
    (p : String → Bool) (xs : List String) → is_empty (where_ok p xs) ≡ all (λ x. not (p x)) xs
unfolding where_ok
is_empty-where_ok p [] = refl
is_empty-where_ok p (x ∷ xs) = ground (arith, is_empty-where_ok p xs)

all_congr :
    (p q : String → Bool) (xs : List String) → ((x : String) → p x ≡ q x) → all p xs ≡ all q xs
all_congr p q [] h = refl
all_congr p q (x ∷ xs) h = rw (h x, all_congr p q xs h) refl

is_empty-map : (f : String → String) (xs : List String) → is_empty (map f xs) ≡ is_empty xs
is_empty-map f [] = refl
is_empty-map f (x ∷ xs) = refl

not-not : (b : Bool) → not (not b) ≡ b
not-not true = refl
not-not false = refl

not_and_not : (a b : Bool) → not (not a && not b) ≡ (a || b)
not_and_not true b = refl
not_and_not false b = not-not b

not-ltb : (m n : ℕ) → not (ltb m n) ≡ leb n m
not-ltb m n = ground arith

-- How the checks so far came out: all is well, or something was found.
abbrev IsSettled : Result Outcome Unit → Bool → Type 0
IsSettled r good =
    ((r ≡ ok tt) × (good ≡ true))
    ⊎ ((o : Outcome) × (r ≡ err o) × (mem o rejection_outcomes ≡ true) × (good ≡ false))

raise_if-IsSettled :
    (b : Bool) (o : Outcome) → mem o rejection_outcomes ≡ true → IsSettled (raise_if b o) (not b)
raise_if-IsSettled true o h = inr (o, refl, h, refl)
raise_if-IsSettled false o h = inl (refl, refl)

then_check :
    (r : Result Outcome Unit) (good b : Bool) (o : Outcome)
    → mem o rejection_outcomes ≡ true
    → IsSettled r good
    → IsSettled (r >> raise_if b o) (good && not b)
then_check r good true o h (inl (e, g)) = rw (e, g) (inr (o, refl, h, refl))
then_check r good false o h (inl (e, g)) = rw (e, g) (inl (refl, refl))
then_check r good b o h (inr (p, e, m, g)) = rw (e, g) (inr (p, refl, m, refl))

module _ (readings : Readings) (grounded message : String) (max_chars : ℕ) (level : RiskLevel) where
  open readings use {
    url_pattern, rrn_pattern, reassurance_patterns, promise_patterns, org_pattern, law_pattern,
    numeric_claim_patterns, normalize, strip,
  }

  -- A text that may be shown.
  unfoldable pub is_acceptable : String → Bool
  is_acceptable explanation =
      ((((((((not (explanation == "") && leb (length (chars explanation)) max_chars)
                    && not (url_pattern explanation))
                  && not (rrn_pattern explanation))
                && not (
                    is_reassurance_checked level
                    && any (λ search. search explanation) reassurance_patterns))
              && all (λ c. mem c (contacts readings grounded)) (contacts readings explanation))
            && all (λ name. not (is_ungrounded_organization readings grounded name))
                (org_pattern explanation))
          && all (λ name. name == "" || text_contains (normalize grounded) name)
              (map normalize (law_pattern explanation)))
        && all
            (λ claim.
              claim == "" || text_contains (allowed_numbers readings grounded message) claim)
            (map normalize (found_claims readings numeric_claim_patterns explanation)))
      && not (any (λ search. search explanation) promise_patterns)

  rejects_contacts :
      (explanation : String)
      → not (
          not (is_empty (absent_from (contacts readings grounded) (contacts readings explanation))))
        ≡ all (λ c. mem c (contacts readings grounded)) (contacts readings explanation)
  unfolding absent_from
  rejects_contacts explanation =
      rw (not-not, is_empty-where_ok)
        (all_congr _ _ (contacts readings explanation)
          λ c. not-not (mem c (contacts readings grounded)))

  rejects_organizations :
      (explanation : String)
      → not (not (is_empty (ungrounded_organizations readings explanation grounded)))
        ≡ all
            (λ name. not (is_ungrounded_organization readings grounded name))
            (org_pattern explanation)
  unfolding ungrounded_organizations
  rejects_organizations explanation = rw (not-not, is_empty-map, is_empty-where_ok) refl

  rejects_laws :
      (explanation : String)
      → not (not (is_empty (ungrounded_laws readings explanation grounded)))
        ≡ all
            (λ name. name == "" || text_contains (normalize grounded) name)
            (map normalize (law_pattern explanation))
  unfolding ungrounded_laws
  rejects_laws explanation =
      rw (not-not, is_empty-where_ok)
        (all_congr _ _ (map normalize (law_pattern explanation))
          λ name. not_and_not (name == "") (text_contains (normalize grounded) name))

  rejects_numbers :
      (explanation : String)
      → not (not (is_empty (ungrounded_numbers readings explanation grounded message)))
        ≡ all
            (λ claim.
              claim == "" || text_contains (allowed_numbers readings grounded message) claim)
            (map normalize (found_claims readings numeric_claim_patterns explanation))
  unfolding ungrounded_numbers
  rejects_numbers explanation =
      rw (not-not, is_empty-where_ok)
        (all_congr _ _ (map normalize (found_claims readings numeric_claim_patterns explanation))
          λ claim.
            not_and_not (claim == "")
              (text_contains (allowed_numbers readings grounded message) claim))

  rejects_reassurance :
      (explanation : String)
      → not (contradicts_verdict readings explanation level)
        ≡ not (
            is_reassurance_checked level && any (λ search. search explanation) reassurance_patterns)
  unfolding contradicts_verdict
  rejects_reassurance explanation = ground arith

  checks-IsSettled :
      (explanation : String)
      → IsSettled
          (checks readings explanation grounded message max_chars level)
          (is_acceptable explanation)
  unfolding checks is_acceptable Outcome-discrete
  checks-IsSettled explanation =
      rw
        (
          sym (rejects_contacts explanation),
          sym (rejects_organizations explanation),
          sym (rejects_laws explanation),
          sym (rejects_numbers explanation),
          sym (rejects_reassurance explanation),
          sym (not-ltb max_chars (length (chars explanation))),
        )
        (then_check _ _ _ Outcome.rejected_ungrounded_promise refl (
          then_check _ _ _ Outcome.rejected_ungrounded_number refl (
            then_check _ _ _ Outcome.rejected_law_citation refl (
              then_check _ _ _ Outcome.rejected_ungrounded_org refl (
                then_check _ _ _ Outcome.rejected_invented_contact refl (
                  then_check _ _ _ Outcome.rejected_contradicts_verdict refl (
                    then_check _ _ _ Outcome.rejected_rrn refl (
                      then_check _ _ _ Outcome.rejected_url refl (
                        then_check _ _ _ Outcome.rejected_too_long refl
                          (raise_if-IsSettled _ Outcome.rejected_empty refl))))))))))

  -- The outcome of `validate_explanation`: an acceptable text is given back stripped, and any other
  -- is rejected with one of the rejection outcomes.
  pub validate_explanation-cases :
      (output : String)
      → ((validate_explanation readings output grounded message max_chars level ≡ ok (strip output))
          × (is_acceptable (strip output) ≡ true))
        ⊎ ((o : Outcome) × (validate_explanation readings output grounded message max_chars level
              ≡ err o)
            × (mem o rejection_outcomes ≡ true)
            × (is_acceptable (strip output) ≡ false))
  unfolding validate_explanation
  validate_explanation-cases output = elim (checks-IsSettled (strip output)) [
    | inl (e, g) ↦ inl (rw e refl, g)
    | inr (o, e, m, g) ↦ inr (o, rw e refl, m, g)
  ]
