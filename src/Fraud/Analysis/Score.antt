-- ===== src/Fraud/Analysis/Score.antt =====
-- The score that is shown with a level: `analyze_fraud` of app/services/fraud_analysis.py.
use finshield_ai.Base.{
  ℕ, ◌≤◌, min, max, ◌≡◌, refl, inl, inr, true, false, List, Bool-cases, if◌then◌else◌, leb, arith,
}
use finshield_ai.Risk.{RiskLevel, low, medium, high}
use finshield_ai.RiskEngine.{risk_level}
use finshield_ai.Fraud.Codes.{UserState, RiskSignal}
use finshield_ai.Fraud.Levels.{
  determine_risk_level, has_nothing_to_show, score_floor_for_level, score_ceiling_for_level,
  score_level,
}
use finshield_ai.Fraud.Levels.Evidence.{at_least-determine_risk_level}
use finshield_ai.Risk.{at_least}
use finshield_ai.Fraud.Public.{baseline_score}
use finshield_ai.Fraud.Analysis.{displayed_score}

risk_level-clamp :
    (n : ℕ) (l : RiskLevel)
    → risk_level (min (max n (score_floor_for_level l)) (score_ceiling_for_level l)) ≡ l
unfolding risk_level score_floor_for_level score_ceiling_for_level
risk_level-clamp n high = ground arith
risk_level-clamp n medium = ground arith
risk_level-clamp n low = ground arith

-- Whatever the score, the signals and the state are, the score shown with a level is one to which
-- the risk engine gives that level.
pub risk_level-displayed_score :
    (score : ℕ) (signals : List RiskSignal) (state : UserState) (level : RiskLevel)
    → risk_level (displayed_score score signals state level) ≡ level
unfolding displayed_score
risk_level-displayed_score score signals state level =
    risk_level-clamp (if has_nothing_to_show signals state then 0 else score) level

below :
    (n : ℕ) (l : RiskLevel)
    → n ≤ 100
    → (leb 70 n ≡ true → at_least high l ≡ true)
    → (leb 35 n ≡ true → at_least medium l ≡ true)
    → min (max n (score_floor_for_level l)) (score_ceiling_for_level l)
      ≡ max n (score_floor_for_level l)
unfolding score_floor_for_level score_ceiling_for_level
below n high b h m = ground arith
below n medium b h m = ground arith
below n low b h m = ground arith

score_level-high : (n : ℕ) → leb 70 n ≡ true → at_least high (score_level n) ≡ true
unfolding score_level
score_level-high n h = ground arith

score_level-medium : (n : ℕ) → leb 35 n ≡ true → at_least medium (score_level n) ≡ true
unfolding score_level
score_level-medium n h = ground arith

-- A score at a threshold has the threshold's level, unless there is nothing to show.
at_least-score :
    (score : ℕ) (signals : List RiskSignal) (state : UserState)
    → has_nothing_to_show signals state ≡ false
    → ((leb 70 score ≡ true → at_least high (determine_risk_level score signals state) ≡ true)
        × (leb 35 score ≡ true → at_least medium (determine_risk_level score signals state) ≡ true))
at_least-score score signals state h = (
  λ e. rw (at_least-determine_risk_level, h, score_level-high score e) refl,
  λ e. rw (at_least-determine_risk_level, h, score_level-medium score e) refl,
)

-- The ceiling of a level never binds: with the level that the score, the signals and the state give,
-- the score shown is the score itself (0 if there is nothing to show), raised to the level's floor.
pub displayed_score-floor :
    (score : ℕ) (signals : List RiskSignal) (state : UserState)
    → score ≤ 100
    → displayed_score score signals state (determine_risk_level score signals state)
      ≡ max
          (if has_nothing_to_show signals state then 0 else score)
          (score_floor_for_level (determine_risk_level score signals state))
unfolding displayed_score
displayed_score-floor score signals state h =
    elim (Bool-cases (has_nothing_to_show signals state)) [
      | inl nothing ↦ rw nothing (
          below 0 (determine_risk_level score signals state) (ground arith) (λ e. ground arith)
            (λ e. ground arith))
      | inr something ↦
          let (to_high, to_medium) = at_least-score score signals state something in
          rw something (below score (determine_risk_level score signals state) h to_high to_medium)
    ]

pub baseline_score-bound : (signals : List RiskSignal) → baseline_score signals ≤ 100
unfolding baseline_score
baseline_score-bound signals = ground arith
