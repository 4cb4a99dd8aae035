-- ===== src/Products/Identity.antt =====
-- app/domain/finance/product_identity.py: the identity of the products of a snapshot. The pattern of an
-- id and `normalized_product_name` are parameters.
use text.Mathlib.Text.{starts_with}
use finshield_ai.Base.{
  ℕ, suc, String, concat, Bool, true, false, not, ◌||◌, Option, none, some, List, [], ◌∷◌, length,
  ltb, ◌==◌, mem, get_key, put_key, Result, ok, ◌>>◌, raise_if, if◌then◌else◌,
}
use finshield_ai.OfficialSources.{string_eq}
use finshield_ai.Products.{FinancialProduct}

-- The messages of `ProductProviderResponseError`.
pub data IdentityError : Type 0 where
  wrong_provider wrong_base_month wrong_id_format duplicate_id : IdentityError
  wrong_fetched_at wrong_reference inactive_product : IdentityError

pub record ProductCatalogIdentityAudit : Type 0 where
  pub unique_source_id_count : ℕ
  pub normalized_name_duplicate_groups : ℕ

-- The provenance of a snapshot.
pub record Provenance : Type 0 where
  pub provider : String
  pub base_month : String
  pub fetched_at : String
  pub source_reference : String

abbrev pub is_active : Option Bool → Bool
is_active (some true) = true
is_active _ = false

abbrev pub is_month : String → Option String → Bool
is_month base_month none = false
is_month base_month (some month) = month == base_month

unfoldable pub count_of : Option ℕ → ℕ
count_of none = 0
count_of (some n) = n

-- `sum(count > 1 for count in names.values())`
unfoldable pub duplicate_groups : List (String × ℕ) → ℕ
duplicate_groups [] = 0
duplicate_groups ((name, count) ∷ names) =
    let rest = duplicate_groups names in if ltb 1 count then suc rest else rest

module _ (is_source_id : String → Bool) (normalized_product_name : String → String)
    (p : Provenance) where
  -- The checks of one item, with the ids so far.
  unfoldable pub check_item : List String → FinancialProduct → Result IdentityError Unit
  check_item source_ids item =
      raise_if (not (item.provider == p.provider)) wrong_provider
      >> raise_if (not (is_month p.base_month item.source_base_month)) wrong_base_month
      >> raise_if
          (not (is_source_id item.source_product_id)
            || not (starts_with item.source_product_id (concat (p.base_month ∷ ":" ∷ []))))
          wrong_id_format
      >> raise_if (mem item.source_product_id source_ids) duplicate_id
      >> raise_if (not (item.fetched_at == p.fetched_at)) wrong_fetched_at
      >> raise_if (not (item.source_reference == p.source_reference)) wrong_reference
      >> raise_if (not (is_active item.active)) inactive_product

  -- The loop over the items, with the ids and the counts of names so far.
  unfoldable pub audit_from :
      List FinancialProduct
      → List String
      → List (String × ℕ)
      → Result IdentityError ProductCatalogIdentityAudit
  unfolding duplicate_groups
  audit_from [] source_ids names = ok (record {
    unique_source_id_count = length source_ids;
    normalized_name_duplicate_groups = duplicate_groups names;
  })
  audit_from (item ∷ items) source_ids names =
      let name = normalized_product_name item.name in
      let counted = put_key name (suc (count_of (get_key name names))) names in
      check_item source_ids item >> audit_from items (item.source_product_id ∷ source_ids) counted

  unfoldable pub audit_product_catalog_identity :
      List FinancialProduct → Result IdentityError ProductCatalogIdentityAudit
  unfolding audit_from
  audit_product_catalog_identity items = audit_from items [] []
