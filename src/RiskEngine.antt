-- ===== src/RiskEngine.antt =====
-- app/core/risk_engine.py: the score and the level that earlier callers use. The detection of the
-- legacy signals is a parameter.
use finshield_ai.Base.{ℕ, String, List, leb, if◌then◌else◌}
use finshield_ai.Risk.{RiskLevel, low, medium, high}
use finshield_ai.Fraud.Codes.{RiskSignal}
use finshield_ai.Fraud.Public.{baseline_score}

unfoldable pub analyze_rules : (String → List RiskSignal) → String → ℕ × List RiskSignal
analyze_rules detect_legacy_signals text =
    let signals = detect_legacy_signals text in (baseline_score signals, signals)

unfoldable pub risk_level : ℕ → RiskLevel
risk_level score = if leb 70 score then high else if leb 35 score then medium else low
