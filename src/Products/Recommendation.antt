-- ===== src/Products/Recommendation.antt =====
-- app/services/product_recommendation.py: the products of a snapshot for a goal, the fitting ones first.
use Prim.Native.String.{compare}
use Prim.Native.Nat.{Ordering}
use finshield_ai.Base.{
  ℕ, zero, suc, ◌-◌, ◌*◌, String, Bool, true, false, ◌&&◌, ◌||◌, List, [], ◌∷◌, map, length, ltb,
  nat_beq, sorted, if◌then◌else◌,
}
use finshield_ai.Products.{FinancialProduct}
use finshield_ai.Products.Filtering.{
  FinancialGoal, MatchStatus, potential_match, needs_review, mismatch, ProductMatchResult,
  filter_product_for_profile,
}

-- `order[status]`
abbrev pub order_of : MatchStatus → ℕ
order_of potential_match = 0
order_of needs_review = 1
order_of mismatch = 2

-- The order of two texts, by their characters.
unfoldable pub is_at_most : String → String → Bool
is_at_most s t = elim (compare s t) [ Ordering.gt ↦ false | _ ↦ true ]

-- The order of the sort keys.
unfoldable pub result_before : ProductMatchResult → ProductMatchResult → Bool
unfolding is_at_most
result_before a b =
    ltb (order_of a.status) (order_of b.status)
    || (nat_beq (order_of a.status) (order_of b.status)
        && is_at_most a.product.source_product_id b.product.source_product_id)

-- `counts[status]`, by the order of the status.
unfoldable pub count_status : ℕ → List ProductMatchResult → ℕ
count_status n [] = 0
count_status n (result ∷ results) =
    let rest = count_status n results in
    if nat_beq (order_of result.status) n then suc rest else rest

unfoldable pub take_results : ℕ → List ProductMatchResult → List ProductMatchResult
take_results zero results = []
take_results (suc n) [] = []
take_results (suc n) (result ∷ results) = result ∷ take_results n results

unfoldable pub drop_results : ℕ → List ProductMatchResult → List ProductMatchResult
drop_results zero results = results
drop_results (suc n) [] = []
drop_results (suc n) (result ∷ results) = drop_results n results

pub record ProductRecommendationResponse : Type 0 where
  pub provider : String
  pub source_base_month : String
  pub total_count : ℕ
  pub page_no : ℕ
  pub page_size : ℕ
  pub potential_matches : ℕ
  pub mismatches : ℕ
  pub needs_reviews : ℕ
  pub disclaimer : String
  pub results : List ProductMatchResult

-- The results in their order, before the page is cut out.
unfoldable pub ranked : List FinancialProduct → FinancialGoal → List ProductMatchResult
ranked items goal =
    sorted result_before (map (λ product. filter_product_for_profile product goal) items)

-- `DISCLAIMER`
abbrev pub recommendation_disclaimer : String
recommendation_disclaimer =
    "이 결과는 공식 상품 용도와 입력 목표를 비교한 후보 분류이며 적격성·승인·금리를 보장하지 않습니다. 상세 조건은 공식 원문과 취급기관에서 확인하세요."

-- `ProductCatalogSnapshot`, as far as it is read.
pub record Snapshot : Type 0 where
  pub provider : String
  pub base_month : String
  pub items : List FinancialProduct

-- `recommend`, of the snapshot and a page number from 1.
unfoldable pub recommend : Snapshot → FinancialGoal → ℕ → ℕ → ProductRecommendationResponse
unfolding take_results drop_results count_status
recommend snapshot goal page_no page_size =
    let results = ranked snapshot.items goal in
    record {
      provider = snapshot.provider;
      source_base_month = snapshot.base_month;
      total_count = length results;
      page_no = page_no;
      page_size = page_size;
      potential_matches = count_status 0 results;
      mismatches = count_status 2 results;
      needs_reviews = count_status 1 results;
      disclaimer = recommendation_disclaimer;
      results = take_results page_size (drop_results ((page_no - 1) * page_size) results);
    }
