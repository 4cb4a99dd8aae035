-- ===== src/Products/Filtering.antt =====
-- app/domain/finance/product_filtering.py: whether the official purpose of a product fits a goal.
use finshield_ai.Base.{
  String, text_contains, ◌||◌, Option, none, some, List, [], ◌∷◌, any, is_empty, ◌==◌,
  if◌then◌else◌,
}
use finshield_ai.OfficialSources.{string_eq}
use finshield_ai.Products.{FinancialProduct}

-- app/schemas/financial_profile.py: `FinancialGoal`
pub data FinancialGoal : Type 0 where
  housing emergency_cash debt_refinance living_expense : FinancialGoal
  startup_business vehicle asset_building other_goal : FinancialGoal

-- `GOAL_PURPOSE_TOKENS[goal]`
unfoldable pub goal_purpose_tokens : FinancialGoal → List String
goal_purpose_tokens housing = "주거" ∷ "전세" ∷ "임대" ∷ []
goal_purpose_tokens emergency_cash = "생계" ∷ "생활" ∷ "긴급" ∷ []
goal_purpose_tokens debt_refinance = "대환" ∷ "채무" ∷ "상환" ∷ []
goal_purpose_tokens living_expense = "생계" ∷ "생활" ∷ []
goal_purpose_tokens startup_business = "창업" ∷ "운영" ∷ "운전" ∷ "시설" ∷ "사업" ∷ []
goal_purpose_tokens vehicle = "자동차" ∷ "차량" ∷ []
goal_purpose_tokens asset_building = "자산" ∷ "저축" ∷ "형성" ∷ []
goal_purpose_tokens other_goal = []

pub data MatchStatus : Type 0 where
  potential_match needs_review mismatch : MatchStatus

pub record ProductMatchReason : Type 0 where
  pub rule : String
  pub status : MatchStatus
  pub message : String
  pub source_field : String

pub record ProductMatchResult : Type 0 where
  pub status : MatchStatus
  pub product : FinancialProduct
  pub reasons : List ProductMatchReason

unfoldable pub purpose_status : List String → Option String → MatchStatus
purpose_status tokens none = needs_review
purpose_status tokens (some purpose) =
    if is_empty tokens || purpose == ""
    then needs_review
    else if any (text_contains purpose) tokens
    then potential_match
    else mismatch

unfoldable pub purpose_message : MatchStatus → String
purpose_message needs_review = "공식 용도 정보만으로 사용 목적 일치 여부를 확인할 수 없습니다."
purpose_message potential_match = "사용자 목표와 공식 상품 용도에 공통 범주가 있습니다."
purpose_message mismatch = "사용자 목표와 공식 상품 용도의 범주가 다릅니다."

unfoldable pub eligibility_reason : ProductMatchReason
eligibility_reason = record {
  rule = "eligibility_manual_review";
  status = needs_review;
  message = "나이·소득·신용·지역 등 상세 자격은 공식 원문과 취급기관 확인이 필요합니다.";
  source_field = "eligibility";
}

unfoldable pub filter_product_for_profile : FinancialProduct → FinancialGoal → ProductMatchResult
unfolding purpose_status
filter_product_for_profile product goal =
    let status = purpose_status (goal_purpose_tokens goal) product.purpose_text in
    record {
      status = status;
      product = product;
      reasons =
          record {
            rule = "goal_purpose";
            status = status;
            message = purpose_message status;
            source_field = "purpose_text";
          }
          ∷ eligibility_reason
          ∷ [];
    }
