-- ===== src/Fraud/Levels/Monotone.antt =====
-- More evidence never lowers the risk level of app/domain/fraud/policy.py.
use finshield_ai.Base.{
  ℕ, ◌≤◌, ◌≡◌, inl, inr, Bool, true, ◌||◌, List, [], ◌∷◌, map, Bool-cases, Subset, mem-Subset,
  any-Subset, any_mono, all_mono, arith,
}
use finshield_ai.Risk.{RiskLevel, low, medium, high, risk_rank}
use finshield_ai.Fraud.Codes.{SignalCode, RiskSignal, UserState, signal_code_eq}
use finshield_ai.Fraud.Minimums.{signal_minimum_risk, high_risk_signal_combinations}
use finshield_ai.Fraud.Levels.{has_nothing_to_show, score_level, determine_risk_level}
use finshield_ai.Fraud.Levels.Evidence.{is_complete, evidence, at_least-determine_risk_level}
use finshield_ai.Risk.{at_least}

abbrev codes : List RiskSignal → List SignalCode
codes signals = map (λ s. s.code) signals

score_level_mono :
    (b : RiskLevel) (m n : ℕ)
    → m ≤ n
    → at_least b (score_level m) ≡ true
    → at_least b (score_level n) ≡ true
unfolding score_level
score_level_mono low m n h e = ground arith
score_level_mono medium m n h e = ground arith
score_level_mono high m n h e = ground arith

or4_mono :
    (x y z w x' y' z' w' : Bool)
    → (x ≡ true → x' ≡ true)
    → (y ≡ true → y' ≡ true)
    → (z ≡ true → z' ≡ true)
    → (w ≡ true → w' ≡ true)
    → (x || y || z || w) ≡ true
    → (x' || y' || z' || w') ≡ true
or4_mono x y z w x' y' z' w' hx hy hz hw h = ground arith

nothing_mono :
    (less more : List RiskSignal) (state : UserState)
    → Subset (codes less) (codes more)
    → has_nothing_to_show more state ≡ true
    → has_nothing_to_show less state ≡ true
unfolding has_nothing_to_show
nothing_mono [] [] state sub h = h
nothing_mono less (x ∷ more) state sub h = cc
nothing_mono (x ∷ less) [] state sub h = cc sub.0

low_bound : (b l : RiskLevel) → at_least b low ≡ true → at_least b l ≡ true
low_bound b l h = ground arith

rank_by_bounds :
    (l m : RiskLevel)
    → ((b : RiskLevel) → at_least b l ≡ true → at_least b m ≡ true)
    → risk_rank l ≤ risk_rank m
rank_by_bounds l m h = ground (arith, h l)

module _ (less more : List RiskSignal) (sub : Subset (codes less) (codes more)) where
  is_complete_mono : (r : List SignalCode) → is_complete r less ≡ true → is_complete r more ≡ true
  is_complete_mono r h = all_mono _ _ r (λ c q. mem-Subset c (codes less) (codes more) sub q) h

  evidence_mono :
      (b : RiskLevel) (m n : ℕ) (state : UserState)
      → m ≤ n
      → evidence b m less state ≡ true
      → evidence b n more state ≡ true
  evidence_mono b m n state h e =
      or4_mono _ _ _ _ _ _ _ _ (score_level_mono b m n h)
        (any-Subset (λ c. at_least b (signal_minimum_risk c)) (codes less) (codes more) sub)
        (any_mono _ _ high_risk_signal_combinations is_complete_mono) (λ q. q) e

  at_least_mono :
      (m n : ℕ) (state : UserState)
      → m ≤ n
      → (b : RiskLevel) → at_least b (determine_risk_level m less state) ≡ true
      → at_least b (determine_risk_level n more state) ≡ true
  at_least_mono m n state h b e = elim (Bool-cases (has_nothing_to_show less state)) [
    | inl nothing ↦ low_bound b _ (rw (at_least-determine_risk_level b m less state, nothing) at e)
    | inr something ↦ elim (Bool-cases (has_nothing_to_show more state)) [
      | inl nothing ↦ cc (nothing_mono less more state sub nothing)
      | inr something' ↦
          rw (at_least-determine_risk_level b n more state, something')
            (evidence_mono b m n state h
              (rw (at_least-determine_risk_level b m less state, something) at e))
    ]
  ]

  -- With more signals, or a higher score, in the same state, the risk level is never lower.
  pub determine_risk_level_mono :
      (m n : ℕ) (state : UserState)
      → m ≤ n
      → risk_rank (determine_risk_level m less state)
        ≤ risk_rank (determine_risk_level n more state)
  determine_risk_level_mono m n state h = rank_by_bounds _ _ (at_least_mono m n state h)
