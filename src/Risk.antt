-- ===== src/Risk.antt =====
-- The three risk levels of both domains and their order, `RISK_RANK` of
-- app/domain/fraud/policy.py and app/domain/housing/policy.py.
use finshield_ai.Base.{ℕ, ◌≡◌, Bool, ◌||◌, ltb, leb, if◌then◌else◌, arith}

pub data RiskLevel : Type 0 where
  low medium high : RiskLevel

-- `RISK_RANK[level]`
abbrev pub risk_rank : RiskLevel → ℕ
risk_rank low = 0
risk_rank medium = 1
risk_rank high = 2

-- `if RISK_RANK[minimum] > RISK_RANK[level]: level = minimum`
abbrev pub raise_to : RiskLevel → RiskLevel → RiskLevel
raise_to minimum level = if ltb (risk_rank level) (risk_rank minimum) then minimum else level

-- `level` is `bound` or above.
abbrev pub at_least : RiskLevel → RiskLevel → Bool
at_least bound level = leb (risk_rank bound) (risk_rank level)

pub raise_to-at_least :
    (b m l : RiskLevel) → at_least b (raise_to m l) ≡ (at_least b m || at_least b l)
raise_to-at_least low m l = ground arith
raise_to-at_least medium m l = ground arith
raise_to-at_least high m l = ground arith
