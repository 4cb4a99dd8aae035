-- ===== src/Fraud/Analysis/Silence.antt =====
-- What `analyze_fraud` of app/services/fraud_analysis.py answers to a message in which nothing was
-- detected.
use finshield_ai.Base.{String, ◌≡◌, refl, some, [], ok, update, sorted, discard}
use finshield_ai.Risk.{low}
use finshield_ai.OfficialSources.{sources_for_actions, relate_actions, pick_sources}
use finshield_ai.Fraud.Catalog.{official_sources}
use finshield_ai.Fraud.Codes.{UserState}
use finshield_ai.Fraud.Tables.{state_actions}
use finshield_ai.Fraud.Levels.{
  determine_risk_level, has_nothing_to_show, score_floor_for_level, score_ceiling_for_level,
  signal_codes,
}
use finshield_ai.Fraud.Actions.{select_actions, actions_of}
use finshield_ai.Fraud.Types.{classify_fraud_types, matched_types, in_order}
use finshield_ai.Fraud.Public.{project_public_signals, project_from}
use finshield_ai.Fraud.Analysis.{
  AnalyzeRequest, AnalyzeResponse, Detectors, displayed_score, or_key_error, or_source_error,
  fraud_sources_for_actions, response_of, request_level, analyze_fraud,
}

no_actions :
    (casefold : String → String) (text : String)
    → select_actions casefold [] UserState.received_only text ≡ some []
unfolding select_actions state_actions update discard sorted actions_of
no_actions casefold text = refl

no_types : (casefold : String → String) (text : String) → classify_fraud_types casefold [] text ≡ []
unfolding classify_fraud_types signal_codes matched_types in_order update
no_types casefold text = refl

no_sources : fraud_sources_for_actions [] ≡ ok []
unfolding fraud_sources_for_actions sources_for_actions relate_actions pick_sources official_sources
no_sources = refl

-- If nothing is detected in a message that was only received, the analysis answers with score 0,
-- level low, and no signals, types, actions or sources, whatever its legacy score is.
pub analyze_fraud-nothing :
    (detectors : Detectors) (request : AnalyzeRequest)
    → detectors.detect_canonical_signals request.text request.url ≡ []
    → request.state ≡ UserState.received_only
    → (response : AnalyzeResponse) × (analyze_fraud detectors request ≡ ok response)
      × (response.risk_score ≡ 0)
      × (response.risk_level ≡ low)
      × (response.signals ≡ [])
      × (response.fraud_types ≡ [])
      × (response.actions ≡ [])
      × (response.official_sources ≡ [])
unfolding analyze_fraud response_of request_level or_key_error or_source_error
    project_public_signals project_from displayed_score determine_risk_level has_nothing_to_show
    score_floor_for_level score_ceiling_for_level
analyze_fraud-nothing detectors request h k = (
  response_of detectors request [] [] [],
  rw (h, k, no_actions detectors.casefold request.text, no_sources) refl,
  rw (h, k) refl,
  rw (h, k) refl,
  refl,
  rw (h, no_types detectors.casefold request.text) refl,
  refl,
  refl,
)
