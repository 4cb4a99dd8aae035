-- ===== src/OfficialSources/Tests.antt =====
-- The catalogue of sources at concrete inputs.
use finshield_ai.Base.{
  ℕ, String, ◌≡◌, ◌↔◌, refl, true, Option, none, some, List, [], ◌∷◌, map, all, Distinct, ok, err,
  add, if◌then◌else◌, ◌==◌,
}
use finshield_ai.OfficialSources.{
  OfficialSource, SupportedAction, unknown_source, sources_for_actions, relate_actions,
  relate_sources, relate_source, pick_sources, get_source, build_catalog, select_stale,
  parse_retrieved_at, string_eq,
}
use finshield_ai.OfficialSources.Selection.{Answers, sources_for_actions-Answers}
use finshield_ai.OfficialSources.Loading.{is_dated, build_catalog-ok_iff}

abbrev police : OfficialSource
police = record {
  source_id = "police";
  organization = "police";
  title = "help";
  source_url = "https://police";
  retrieved_at = "day 5";
  supports = "CALL" ∷ [];
}

abbrev bank : OfficialSource
bank = record {
  source_id = "bank";
  organization = "bank";
  title = "stop";
  source_url = "https://bank";
  retrieved_at = "day 9";
  supports = "STOP" ∷ "CALL" ∷ [];
}

abbrev two_sources : List OfficialSource
two_sources = police ∷ bank ∷ []

abbrev call : SupportedAction
call = record { code = "CALL"; source_ids = "bank" ∷ "police" ∷ [] }

abbrev day_of : String → Option ℕ
day_of s = if s == "day 5" then some 5 else if s == "day 9" then some 9 else none

sources_in_catalog_order : sources_for_actions two_sources (call ∷ []) ≡ ok two_sources
unfolding sources_for_actions relate_actions relate_sources relate_source pick_sources get_source
    add
sources_in_catalog_order = refl

unknown_id :
    sources_for_actions two_sources (record { code = "CALL"; source_ids = "x" ∷ [] } ∷ [])
    ≡ err (unknown_source "x")
unfolding sources_for_actions relate_actions relate_sources relate_source get_source
unknown_id = refl

stale_only : select_stale day_of two_sources 3 10 ≡ ok (police ∷ [])
unfolding select_stale parse_retrieved_at
stale_only = refl

sources_for_actions-Answers_example :
    Answers two_sources (call ∷ []) (sources_for_actions two_sources (call ∷ []))
sources_for_actions-Answers_example = sources_for_actions-Answers two_sources (call ∷ [])

build_catalog-ok_iff_example : (build_catalog day_of 9 two_sources ≡ ok two_sources) ↔ (
    Distinct (map (λ s. s.source_id) two_sources)
    × Distinct (map (λ s. s.source_url) two_sources)
    × (all (is_dated day_of 9) two_sources ≡ true))
build_catalog-ok_iff_example = build_catalog-ok_iff day_of 9 two_sources
