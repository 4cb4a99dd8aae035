-- ===== src/Products/Pages.antt =====
-- The pages and the summary of `recommend` in app/services/product_recommendation.py.
use native.Mathlib.Nat.{suc-mul}
use finshield_ai.Base.{
  ℕ, zero, suc, ◌+◌, ◌-◌, ◌*◌, ◌≡◌, refl, ap, sym, ◌∙◌, List, [], ◌∷◌, ◌++◌, map, length, nat_beq,
  length-sorted, arith, if◌then◌else◌,
}
use finshield_ai.Products.{FinancialProduct}
use finshield_ai.Products.Filtering.{
  FinancialGoal, MatchStatus, potential_match, needs_review, mismatch, ProductMatchResult,
  filter_product_for_profile,
}
use finshield_ai.Products.Recommendation.{
  order_of, result_before, count_status, take_results, drop_results, Snapshot, ranked, recommend,
}

take_results-drop_results :
    (a b : ℕ) (results : List ProductMatchResult)
    → take_results (a + b) results
      ≡ take_results a results ++ take_results b (drop_results a results)
unfolding take_results drop_results
take_results-drop_results zero b results = ap (λ n. take_results n results) (omega arith)
take_results-drop_results (suc a) b [] =
    ap (λ n. take_results n []) (suc_add a b) ∙ sym (take_results-empty b)
  where
    suc_add : (m n : ℕ) → suc m + n ≡ suc (m + n)
    suc_add m n = omega arith

    take_results-empty : (n : ℕ) → take_results n [] ≡ []
    take_results-empty zero = refl
    take_results-empty (suc n) = refl
take_results-drop_results (suc a) b (result ∷ results) =
    ap (λ n. take_results n (result ∷ results)) (suc_add a b)
    ∙ ap (λ rest. result ∷ rest) (take_results-drop_results a b results)
  where
    suc_add : (m n : ℕ) → suc m + n ≡ suc (m + n)
    suc_add m n = omega arith

one_status :
    (status : MatchStatus) (p m n l : ℕ)
    → (p + m) + n ≡ l
    → ((if nat_beq (order_of status) 0 then suc p else p)
          + (if nat_beq (order_of status) 2 then suc m else m))
        + (if nat_beq (order_of status) 1 then suc n else n)
      ≡ suc l
one_status potential_match p m n l h = omega arith
one_status needs_review p m n l h = omega arith
one_status mismatch p m n l h = omega arith

count_status-total :
    (results : List ProductMatchResult)
    → (count_status 0 results + count_status 2 results) + count_status 1 results ≡ length results
unfolding count_status
count_status-total [] = refl
count_status-total (result ∷ results) =
    one_status result.status (count_status 0 results) (count_status 2 results)
      (count_status 1 results) (length results) (count_status-total results)

length-map :
    (goal : FinancialGoal) (items : List FinancialProduct)
    → length (map (λ product. filter_product_for_profile product goal) items) ≡ length items
length-map goal [] = refl
length-map goal (item ∷ items) = ap suc (length-map goal items)

length-ranked :
    (items : List FinancialProduct) (goal : FinancialGoal)
    → length (ranked items goal) ≡ length items
unfolding ranked
length-ranked items goal = length-sorted result_before _ ∙ length-map goal items

suc_sub : (page : ℕ) → suc page - 1 ≡ page
suc_sub page = omega arith

-- A page follows on the pages before it, without a gap and without an overlap, so that the first pages
-- are the first results; the results are as many as the products of the snapshot, and the three counts
-- of the summary add up to that number.
pub recommend-pages :
    (snapshot : Snapshot) (goal : FinancialGoal) (page size : ℕ)
    → (take_results (suc page * size) (ranked snapshot.items goal)
        ≡ take_results (page * size) (ranked snapshot.items goal)
          ++ (recommend snapshot goal (suc page) size).results)
      × ((recommend snapshot goal (suc page) size).total_count ≡ length snapshot.items)
      × (((recommend snapshot goal (suc page) size).potential_matches
              + (recommend snapshot goal (suc page) size).mismatches)
            + (recommend snapshot goal (suc page) size).needs_reviews
          ≡ length snapshot.items)
unfolding recommend
recommend-pages snapshot goal page size = (
  rw (suc_sub page, suc-mul page size)
      (take_results-drop_results (page * size) size (ranked snapshot.items goal)),
  length-ranked snapshot.items goal,
  count_status-total (ranked snapshot.items goal) ∙ length-ranked snapshot.items goal,
)
