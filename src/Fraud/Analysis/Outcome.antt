-- ===== src/Fraud/Analysis/Outcome.antt =====
-- What `analyze_fraud` of app/services/fraud_analysis.py answers.
use finshield_ai.Base.{◌≡◌, refl, ap, true, List, map, all, is_empty, Result, ok, err}
use finshield_ai.RiskEngine.{risk_level}
use finshield_ai.OfficialSources.{OfficialSource, SourceError, sources_for_actions, string_eq}
use finshield_ai.OfficialSources.Selection.{
  is_supported, is_cited, keep, Answers, sources_for_actions-Answers,
}
use finshield_ai.Fraud.Codes.{Action}
use finshield_ai.Fraud.Catalog.{official_sources}
use finshield_ai.Fraud.Levels.{determine_risk_level}
use finshield_ai.Fraud.Levels.Evidence.{expected_level, determine_risk_level-eq-expected_level}
use finshield_ai.Fraud.Actions.{action_codes}
use finshield_ai.Fraud.Actions.Total.{IsChoiceOf, select_actions-IsChoiceOf}
use finshield_ai.Fraud.Public.{baseline_score}
use finshield_ai.Fraud.Public.Projection.{project_public_signals-shown}
use finshield_ai.Fraud.Analysis.{
  AnalyzeRequest, AnalyzeResponse, Detectors, supported_action, or_key_error, or_source_error,
  fraud_sources_for_actions, analyze_fraud, response_of, text_score, request_level,
}
use finshield_ai.Fraud.Analysis.Score.{risk_level-displayed_score}
use finshield_ai.Fraud.Analysis.Sources.{select_actions-backed}

-- The sources of the catalogue that the actions cite.
abbrev pub cited_sources : List Action → List OfficialSource
cited_sources actions =
    keep (λ s. is_cited (map supported_action actions) s.source_id) official_sources

-- What a response is, by the detectors and the request.
pub record IsAnswer (detectors : Detectors) (request : AnalyzeRequest) (response : AnalyzeResponse)
    : Type 0 where
  pub level_is_expected :
      response.risk_level
      ≡ expected_level
          (baseline_score (detectors.detect_legacy_signals request.text))
          (detectors.detect_canonical_signals request.text request.url)
          request.state
  pub score_has_level : risk_level response.risk_score ≡ response.risk_level
  pub actions_are_chosen :
      IsChoiceOf
        (action_codes detectors.casefold
          (detectors.detect_canonical_signals request.text request.url)
          request.state
          request.text)
        response.actions
  pub sources_are_cited : response.official_sources ≡ cited_sources response.actions
  pub signals_are_shown :
      is_empty response.signals
      ≡ is_empty (detectors.detect_canonical_signals request.text request.url)
  pub state_is_kept : response.scenario ≡ request.state

fraud_sources-cited :
    (actions : List Action)
    → all (is_supported official_sources) (map supported_action actions) ≡ true
    → fraud_sources_for_actions actions ≡ ok (cited_sources actions)
unfolding fraud_sources_for_actions
fraud_sources-cited actions h =
    found (sources_for_actions official_sources (map supported_action actions))
      (sources_for_actions-Answers official_sources (map supported_action actions))
  where
    found :
        (m : Result SourceError (List OfficialSource))
        → Answers official_sources (map supported_action actions) m
        → m ≡ ok (cited_sources actions)
    found (ok sources) a = ap ok a.1
    found (err e) a = cc

module _ (detectors : Detectors) (request : AnalyzeRequest) where
  open detectors use {casefold, detect_canonical_signals, detect_legacy_signals}

  -- Whatever the detection finds, the analysis raises nothing: it answers with the level that the
  -- evidence calls for, a score of that level, the chosen actions, exactly the sources that those
  -- actions cite, and no signal only if none was detected.
  pub analyze_fraud-IsAnswer :
      (response : AnalyzeResponse) × (analyze_fraud detectors request ≡ ok response)
      × IsAnswer detectors request response
  unfolding analyze_fraud response_of text_score request_level or_key_error or_source_error
  analyze_fraud-IsAnswer =
      let signals = detect_canonical_signals request.text request.url in
      let score = baseline_score (detect_legacy_signals request.text) in
      let level = determine_risk_level score signals request.state in
      let (actions, chosen, choice) =
        select_actions-IsChoiceOf casefold signals request.state request.text in
      let backed =
        select_actions-backed casefold signals request.state request.text actions chosen in
      let (shown, projected, exact, once, none_only) = project_public_signals-shown signals in
      (
        response_of detectors request actions (cited_sources actions) shown,
        rw (chosen, fraud_sources-cited actions backed, projected) refl,
        record {
          level_is_expected = determine_risk_level-eq-expected_level score signals request.state;
          score_has_level = risk_level-displayed_score score signals request.state level;
          actions_are_chosen = choice;
          sources_are_cited = refl;
          signals_are_shown = none_only;
          state_is_kept = refl;
        },
      )
