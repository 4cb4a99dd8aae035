-- ===== src/Products/Tests.antt =====
-- A recommendation of two products, and the theorem at it.
use finshield_ai.Base.{suc, ◌+◌, ◌*◌, ◌≡◌, String, true, some, [], ◌∷◌, ◌++◌, length}
use finshield_ai.Products.{FinancialProduct}
use finshield_ai.Products.Filtering.{vehicle}
use finshield_ai.Products.Recommendation.{take_results, Snapshot, ranked, recommend}
use finshield_ai.Products.Pages.{recommend-pages}

abbrev product : String → String → FinancialProduct
product id purpose = record {
  provider = "kinfa";
  source_product_id = id;
  source_base_month = some "202608";
  name = id;
  purpose_text = some purpose;
  fetched_at = "now";
  source_reference = "u";
  active = some true;
}

abbrev snapshot : Snapshot
snapshot = record {
  provider = "kinfa";
  base_month = "202608";
  items = product "202608:1" "주거" ∷ product "202608:2" "자동차" ∷ [];
}

recommend-pages_example :
    (take_results (suc 1 * 1) (ranked snapshot.items vehicle)
      ≡ take_results (1 * 1) (ranked snapshot.items vehicle)
        ++ (recommend snapshot vehicle (suc 1) 1).results)
    × ((recommend snapshot vehicle (suc 1) 1).total_count ≡ length snapshot.items)
    × (((recommend snapshot vehicle (suc 1) 1).potential_matches
            + (recommend snapshot vehicle (suc 1) 1).mismatches)
          + (recommend snapshot vehicle (suc 1) 1).needs_reviews
        ≡ length snapshot.items)
recommend-pages_example = recommend-pages snapshot vehicle 1 1
