-- ===== src/Fraud/Levels.antt =====
-- app/domain/fraud/policy.py: the risk level of a message, and the band of scores of a level.
-- A Python set of codes is a list without repetition.
pub mod Evidence
pub mod Monotone
use finshield_ai.Base.{
  ℕ, Bool, ◌&&◌, List, [], ◌∷◌, map, any, all, is_empty, mem, update, leb, if◌then◌else◌, ◌-◌,
}
use finshield_ai.Risk.{RiskLevel, low, medium, high, raise_to}
use finshield_ai.Fraud.Codes.{SignalCode, RiskSignal, UserState, signal_code_eq}
use finshield_ai.Fraud.Minimums.{
  state_minimum_risk, signal_minimum_risk, high_risk_signal_combinations,
}

-- `HIGH_RISK_SCORE_THRESHOLD`
abbrev pub high_risk_score_threshold : ℕ
high_risk_score_threshold = 70

-- `MEDIUM_RISK_SCORE_THRESHOLD`
abbrev pub medium_risk_score_threshold : ℕ
medium_risk_score_threshold = 35

-- `{signal.code for signal in signals}`
unfoldable pub signal_codes : List RiskSignal → List SignalCode
signal_codes signals = update (map (λ s. s.code) signals) []

abbrev is_received_only : UserState → Bool
is_received_only UserState.received_only = Bool.true
is_received_only _ = Bool.false

unfoldable pub has_nothing_to_show : List RiskSignal → UserState → Bool
has_nothing_to_show signals state = is_empty signals && is_received_only state

-- The level of a score alone.
unfoldable pub score_level : ℕ → RiskLevel
score_level score =
    if leb high_risk_score_threshold score
    then high
    else if leb medium_risk_score_threshold score
    then medium
    else low

-- The loop over the codes, from the level reached so far.
unfoldable pub raise_by_signals : List SignalCode → RiskLevel → RiskLevel
raise_by_signals [] level = level
raise_by_signals (code ∷ codes) level =
    raise_by_signals codes (raise_to (signal_minimum_risk code) level)

-- `any(required <= signal_codes for required in HIGH_RISK_SIGNAL_COMBINATIONS)`
unfoldable pub has_high_combination : List SignalCode → Bool
has_high_combination codes =
    any (λ required. all (λ code. mem code codes) required) high_risk_signal_combinations

unfoldable pub determine_risk_level : ℕ → List RiskSignal → UserState → RiskLevel
determine_risk_level score signals state =
    if has_nothing_to_show signals state
    then low
    else let codes = signal_codes signals in
      let by_signals = raise_by_signals codes (score_level score) in
      let signal_level = if has_high_combination codes then high else by_signals in
      raise_to (state_minimum_risk state) signal_level

unfoldable pub score_floor_for_level : RiskLevel → ℕ
score_floor_for_level high = high_risk_score_threshold
score_floor_for_level medium = medium_risk_score_threshold
score_floor_for_level low = 0

unfoldable pub score_ceiling_for_level : RiskLevel → ℕ
score_ceiling_for_level high = 100
score_ceiling_for_level medium = high_risk_score_threshold - 1
score_ceiling_for_level low = medium_risk_score_threshold - 1
