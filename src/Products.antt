-- ===== src/Products.antt =====
-- The official products: app/domain/finance/product_filtering.py, app/domain/finance/product_identity.py
-- and app/services/product_recommendation.py.
pub mod Filtering
pub mod Identity
pub mod Recommendation
pub mod Pages
mod Tests
use finshield_ai.Base.{String, Bool, Option}

-- The fields of `FinancialProduct` that are read; a time is its text.
pub record FinancialProduct : Type 0 where
  pub provider : String
  pub source_product_id : String
  pub source_base_month : Option String
  pub name : String
  pub purpose_text : Option String
  pub fetched_at : String
  pub source_reference : String
  pub active : Option Bool
