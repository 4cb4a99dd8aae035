-- ===== src/Housing/Deposit/Outcome.antt =====
-- What `check_deposit_risk` of app/services/housing_deposit.py answers.
use finshield_ai.Base.{List, map}
use finshield_ai.OfficialSources.{OfficialSource, string_eq}
use finshield_ai.OfficialSources.Selection.{is_cited, keep}
use finshield_ai.Housing.Codes.{DepositRiskAction, check_eq}
use finshield_ai.Housing.Catalog.{housing_sources}
use finshield_ai.Housing.Deposit.{supported_action}

-- The sources of the catalogue that the actions cite.
abbrev pub cited_sources : List DepositRiskAction → List OfficialSource
cited_sources actions =
    keep (λ s. is_cited (map supported_action actions) s.source_id) housing_sources
