-- ===== src/Housing/Policy/Level.antt =====
-- The risk level of a deposit check: app/domain/housing/policy.py.
use finshield_ai.Base.{◌≡◌, refl, ◌||◌, List, [], ◌∷◌, any, arith}
use finshield_ai.Risk.{RiskLevel, raise_to, at_least, raise_to-at_least}
use finshield_ai.Housing.Codes.{LeaseStage, DepositRiskSignal}
use finshield_ai.Housing.Tables.{signal_minimum_risk, stage_minimum_risk}
use finshield_ai.Housing.Policy.{raise_by_signals, determine_risk_level}
use finshield_ai.Risk.{at_least}

raise_by_signals-at_least :
    (b : RiskLevel) (signals : List DepositRiskSignal) (l : RiskLevel)
    → at_least b (raise_by_signals signals l)
      ≡ (any (λ s. at_least b (signal_minimum_risk s.code)) signals || at_least b l)
unfolding raise_by_signals
raise_by_signals-at_least b [] l = refl
raise_by_signals-at_least b (s ∷ signals) l = ground (
  arith,
  raise_by_signals-at_least b signals (raise_to (signal_minimum_risk s.code) l),
  raise_to-at_least b (signal_minimum_risk s.code) l,
)

-- The risk level reaches a level exactly if a signal or the stage has at least that minimum risk:
-- it is the highest of their minimum risks.
pub determine_risk_level-at_least :
    (b : RiskLevel) (signals : List DepositRiskSignal) (stage : LeaseStage)
    → at_least b (determine_risk_level signals stage) ≡ (
        any (λ s. at_least b (signal_minimum_risk s.code)) signals
        || at_least b (stage_minimum_risk stage))
unfolding determine_risk_level
determine_risk_level-at_least b signals stage =
    raise_by_signals-at_least b signals (stage_minimum_risk stage)
