-- ===== src/Fraud/Levels/Evidence.antt =====
-- What the risk level of app/domain/fraud/policy.py is made of.
use finshield_ai.Base.{
  ℕ, ◌≡◌, inl, inr, refl, Bool, ◌||◌, List, [], ◌∷◌, map, any, all, mem-update, any-update, ap,
  fun_ext, ◌∙◌, true, false, or-false, Bool-cases, mem, if◌then◌else◌, arith,
}
use finshield_ai.Risk.{RiskLevel, low, medium, high, raise_to, at_least, raise_to-at_least}
use finshield_ai.Fraud.Codes.{SignalCode, RiskSignal, UserState, signal_code_eq}
use finshield_ai.Fraud.Minimums.{
  state_minimum_risk, signal_minimum_risk, high_risk_signal_combinations,
}
use finshield_ai.Fraud.Levels.{
  signal_codes, has_nothing_to_show, score_level, raise_by_signals, has_high_combination,
  determine_risk_level,
}

raise_by_signals-at_least :
    (b : RiskLevel) (codes : List SignalCode) (l : RiskLevel)
    → at_least b (raise_by_signals codes l)
      ≡ (any (λ c. at_least b (signal_minimum_risk c)) codes || at_least b l)
unfolding raise_by_signals
raise_by_signals-at_least b [] l = refl
raise_by_signals-at_least b (c ∷ codes) l = ground (
  arith,
  raise_by_signals-at_least b codes (raise_to (signal_minimum_risk c) l),
  raise_to-at_least b (signal_minimum_risk c) l,
)

pub mem-signal_codes :
    (c : SignalCode) (signals : List RiskSignal)
    → mem c (signal_codes signals) ≡ mem c (map (λ s. s.code) signals)
unfolding signal_codes
mem-signal_codes c signals = rw (mem-update, or-false) refl

pub any-signal_codes :
    (p : SignalCode → Bool) (signals : List RiskSignal)
    → any p (signal_codes signals) ≡ any p (map (λ s. s.code) signals)
unfolding signal_codes
any-signal_codes p signals = rw (any-update, or-false) refl

-- A combination is complete if each of its codes is one of the signals'.
abbrev pub is_complete : List SignalCode → List RiskSignal → Bool
is_complete required signals = all (λ c. mem c (map (λ s. s.code) signals)) required

has_high_combination-signal_codes :
    (signals : List RiskSignal)
    → has_high_combination (signal_codes signals)
      ≡ any (λ r. is_complete r signals) high_risk_signal_combinations
unfolding has_high_combination
has_high_combination-signal_codes signals =
    ap (λ (f : SignalCode → Bool). any (λ r. all f r) high_risk_signal_combinations)
      (fun_ext (λ c. mem-signal_codes c signals))

or_rotate : (x y z w : Bool) → (w || (x || y || z)) ≡ (x || y || z || w)
or_rotate x y z w = ground arith

at_least-high : (b : RiskLevel) (x y : Bool) → at_least b high ≡ (x || y || true)
at_least-high low x y = ground arith
at_least-high medium x y = ground arith
at_least-high high x y = ground arith

-- The evidence for a level: score, signals, complete combinations, and state, each for itself.
abbrev pub evidence : RiskLevel → ℕ → List RiskSignal → UserState → Bool
evidence b score signals state =
    at_least b (score_level score)
    || any (λ c. at_least b (signal_minimum_risk c)) (map (λ s. s.code) signals)
    || any (λ r. is_complete r signals) high_risk_signal_combinations
    || at_least b (state_minimum_risk state)

-- The level reached before the state is looked at.
at_least-combined :
    (b : RiskLevel) (score : ℕ) (signals : List RiskSignal)
    → at_least b (
        if has_high_combination (signal_codes signals)
        then high
        else raise_by_signals (signal_codes signals) (score_level score))
      ≡ (at_least b (score_level score)
          || any (λ c. at_least b (signal_minimum_risk c)) (map (λ s. s.code) signals)
          || any (λ r. is_complete r signals) high_risk_signal_combinations)
at_least-combined b score signals =
    rw has_high_combination-signal_codes
      (elim (Bool-cases (any (λ r. is_complete r signals) high_risk_signal_combinations)) [
        | inl complete ↦ rw complete (
            at_least-high b (at_least b (score_level score))
              (any (λ c. at_least b (signal_minimum_risk c)) (map (λ s. s.code) signals)))
        | inr incomplete ↦
            rw (incomplete, raise_by_signals-at_least, any-signal_codes) (ground arith)
      ])

pub at_least-determine_risk_level :
    (b : RiskLevel) (score : ℕ) (signals : List RiskSignal) (state : UserState)
    → at_least b (determine_risk_level score signals state) ≡ (
        if has_nothing_to_show signals state
        then at_least b low
        else evidence b score signals state)
unfolding determine_risk_level
at_least-determine_risk_level b score signals state =
    elim (Bool-cases (has_nothing_to_show signals state)) [
      | inl nothing ↦ rw nothing refl
      | inr something ↦
          rw (something, raise_to-at_least, at_least-combined)
            (or_rotate (at_least b (score_level score))
              (any (λ c. at_least b (signal_minimum_risk c)) (map (λ s. s.code) signals))
              (any (λ r. is_complete r signals) high_risk_signal_combinations)
              (at_least b (state_minimum_risk state)))
    ]

-- The level that the evidence calls for: the highest for which there is evidence, and low where
-- there is nothing to show.
abbrev pub expected_level : ℕ → List RiskSignal → UserState → RiskLevel
expected_level score signals state =
    if has_nothing_to_show signals state
    then low
    else if evidence high score signals state
    then high
    else if evidence medium score signals state
    then medium
    else low

level_by_bounds :
    (l : RiskLevel) (h m : Bool)
    → at_least high l ≡ h
    → at_least medium l ≡ m
    → l ≡ (if h then high else if m then medium else low)
level_by_bounds low h m p q = ground arith
level_by_bounds medium h m p q = ground arith
level_by_bounds high h m p q = ground arith

-- The risk level is the highest level for which the score, one of the signals, a complete
-- combination of signals or the state is evidence by itself; it is low if there is nothing to show.
pub determine_risk_level-eq-expected_level :
    (score : ℕ) (signals : List RiskSignal) (state : UserState)
    → determine_risk_level score signals state ≡ expected_level score signals state
determine_risk_level-eq-expected_level score signals state =
    elim (Bool-cases (has_nothing_to_show signals state)) [
      | inl nothing ↦ rw nothing (
          level_by_bounds l false false (bound high ∙ rw nothing refl)
            (bound medium ∙ rw nothing refl))
      | inr something ↦ rw something (
          level_by_bounds l (evidence high score signals state)
            (evidence medium score signals state) (bound high ∙ rw something refl)
            (bound medium ∙ rw something refl))
    ]
  where
    l : RiskLevel
    l = determine_risk_level score signals state

    bound :
        (b : RiskLevel)
        → at_least b (determine_risk_level score signals state) ≡ (
            if has_nothing_to_show signals state
            then at_least b low
            else evidence b score signals state)
    bound b = at_least-determine_risk_level b score signals state
