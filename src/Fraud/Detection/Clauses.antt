-- ===== src/Fraud/Detection/Clauses.antt =====
-- app/domain/fraud/signals.py: the clauses of a text that can demand something.
use finshield_ai.Base.{
  ℕ, Bool, true, false, not, ◌&&◌, ◌||◌, Option, none, some, List, [], ◌∷◌, any, if◌then◌else◌,
}
use finshield_ai.Explanation.Untrusted.Spans.{Text, drop}
use finshield_ai.Fraud.Detection.Terms.{
  prevention_statement_markers, demand_markers, channel_referral_verbs,
  official_verification_phrases, money_object_terms, money_destination_terms,
  investment_context_terms, sensitive_demand_terms,
}
use finshield_ai.Fraud.Detection.Search.{any_term}
use finshield_ai.Fraud.Detection.{
  channel_monopoly, counter_exclusion, pending_contact, reader_initiated, prevention_statement,
  other_prevention_statement, completed_report, casual_demand, action_demand, money_amount,
  channel_referral, Readers,
}

-- `clause[end:]`, or the clause where there is no match
unfoldable pub after_end : Text → Option ℕ → Text
after_end clause none = clause
after_end clause (some stop) = drop stop clause

-- The clauses that pass the test.
unfoldable pub select_clauses : (Text → Bool) → List Text → List Text
select_clauses p [] = []
select_clauses p (clause ∷ clauses) =
    let rest = select_clauses p clauses in if p clause then clause ∷ rest else rest

module _ (readers : Readers) where
  open readers use {search, split_clauses, last_prohibition_end, is_blank}

  -- `_clauses`
  unfoldable pub clauses_of : Text → List Text
  clauses_of normalized = select_clauses (λ part. not (is_blank part)) (split_clauses normalized)

  -- A marker or a pattern of a statement of prevention.
  unfoldable pub states_prevention : Text → Bool
  states_prevention text =
      any_term prevention_statement_markers text
      || search prevention_statement text
      || search other_prevention_statement text

  -- `_demanding_clauses`
  unfoldable pub demanding_clauses : Text → List Text
  demanding_clauses normalized =
      select_clauses (λ clause. not (states_prevention clause)) (clauses_of normalized)

  -- `_strip_prohibited_segment`
  unfoldable pub strip_prohibited_segment : Text → Text
  unfolding after_end
  strip_prohibited_segment clause = after_end clause (last_prohibition_end clause)

  -- `_is_channel_referral`
  unfoldable pub is_channel_referral : Text → Bool
  is_channel_referral clause =
      let remainder = strip_prohibited_segment clause in
      if not (search channel_referral remainder)
      then false
      else if search channel_monopoly remainder
      then false
      else any_term channel_referral_verbs remainder

  -- `_open_clauses`
  unfoldable pub open_clauses : Text → List Text
  open_clauses normalized =
      select_clauses
        (λ clause. not (search completed_report clause) && not (is_channel_referral clause))
        (demanding_clauses normalized)

  -- The tests of a clause of `_has_reader_demand`.
  unfoldable pub demands : Text → Bool
  demands clause =
      let remainder = strip_prohibited_segment clause in
      any_term demand_markers remainder
      || search action_demand remainder
      || search casual_demand remainder

  -- `_has_reader_demand`
  unfoldable pub has_reader_demand : List Text → Bool
  has_reader_demand clauses = any demands clauses

  -- `_names_reachable_counter`
  unfoldable pub names_reachable_counter : Text → Bool
  names_reachable_counter normalized =
      if not (any is_channel_referral (demanding_clauses normalized))
      then false
      else if search counter_exclusion normalized
      then false
      else if search channel_monopoly normalized
      then false
      else not (has_reader_demand (open_clauses normalized))

  -- `_awaits_unsolicited_contact`
  unfoldable pub awaits_unsolicited_contact : Text → Bool
  awaits_unsolicited_contact normalized =
      if names_reachable_counter normalized
      then false
      else if not (search pending_contact normalized)
      then false
      else not (search reader_initiated normalized)

  -- `_mentions_money`
  unfoldable pub mentions_money : List Text → Text → Bool
  mentions_money clauses normalized =
      if any (any_term money_object_terms) clauses
      then true
      else if any (search money_amount) clauses
      then true
      else any (any_term money_destination_terms) clauses && any_term money_object_terms normalized

  -- `_mentions_investment`
  unfoldable pub mentions_investment : List Text → Bool
  mentions_investment clauses = any (any_term investment_context_terms) clauses

  -- `_demands_something_sensitive`
  unfoldable pub demands_something_sensitive : List Text → Bool
  demands_something_sensitive clauses =
      any (λ clause. any_term sensitive_demand_terms clause && has_reader_demand (clause ∷ []))
        clauses

  -- `_is_prevention_notice`
  unfoldable pub is_prevention_notice : Text → Bool
  is_prevention_notice normalized =
      let has_marker =
        any_term official_verification_phrases normalized || states_prevention normalized in
      if not has_marker
      then false
      else if search counter_exclusion normalized || search channel_monopoly normalized
      then false
      else not (has_reader_demand (open_clauses normalized))
