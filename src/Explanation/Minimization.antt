-- ===== src/Explanation/Minimization.antt =====
-- app/services/llm/minimization.py: personal data is taken out of a message. A rule is a placeholder
-- with the pattern's `subn`.
use finshield_ai.Base.{ℕ, ◌+◌, String, List, [], ◌∷◌, ◌==◌, nat_beq, if◌then◌else◌}
use finshield_ai.OfficialSources.{string_eq}

pub record Rule : Type 0 where
  pub placeholder : String
  pub subn : String → String → String × ℕ

pub record MinimizedText : Type 0 where
  pub text : String
  pub removed : List (String × ℕ)

-- `counts[placeholder] = counts.get(placeholder, 0) + replaced`
unfoldable pub count_removed : String → ℕ → List (String × ℕ) → List (String × ℕ)
count_removed placeholder replaced [] = (placeholder, replaced) ∷ []
count_removed placeholder replaced ((p, n) ∷ counts) =
    let rest = count_removed placeholder replaced counts in
    if p == placeholder then (p, n + replaced) ∷ counts else (p, n) ∷ rest

-- The loop of `minimize_for_provider`.
unfoldable pub minimize_by : List Rule → String → List (String × ℕ) → MinimizedText
minimize_by [] minimized counts = record { text = minimized; removed = counts }
minimize_by (rule ∷ rules) minimized counts =
    let (replaced_text, replaced) = rule.subn rule.placeholder minimized in
    minimize_by rules replaced_text
      (if nat_beq replaced 0 then counts else count_removed rule.placeholder replaced counts)

unfoldable pub minimize_for_provider : List Rule → String → MinimizedText
unfolding minimize_by
minimize_for_provider rules text = minimize_by rules text []

-- `sum(self.removed.values())`
unfoldable pub sum_counts : List (String × ℕ) → ℕ
sum_counts [] = 0
sum_counts ((p, n) ∷ counts) = n + sum_counts counts

unfoldable pub removed_total : MinimizedText → ℕ
removed_total minimized = sum_counts minimized.removed
