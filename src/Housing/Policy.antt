-- ===== src/Housing/Policy.antt =====
-- app/domain/housing/policy.py: the risk level and the actions of a deposit check.
pub mod Choice
pub mod Level
pub mod Order
use finshield_ai.Base.{
  ℕ, suc, Bool, true, false, not, ◌&&◌, ◌||◌, List, [], ◌∷◌, map, mem, update, discard, ltb, leb,
  nat_beq, sorted, if◌then◌else◌, ◌==◌, Result, ok, err, ◌>>=◌,
}
use finshield_ai.Risk.{RiskLevel, raise_to}
use finshield_ai.Housing.Codes.{
  LeaseStage, DepositCheck, ActionCode, DepositRiskSignal, DepositRiskAction, stage_eq, check_eq,
  action_code_eq,
}
use finshield_ai.Housing.Tables.{
  stage_actions, signal_actions, signal_minimum_risk, stage_minimum_risk, action_order,
  action_policies, guarantee_relevant_stages, completed_check_actions,
}

-- The loop over the signals, from the level reached so far.
unfoldable pub raise_by_signals : List DepositRiskSignal → RiskLevel → RiskLevel
raise_by_signals [] level = level
raise_by_signals (signal ∷ signals) level =
    raise_by_signals signals (raise_to (signal_minimum_risk signal.code) level)

unfoldable pub determine_risk_level : List DepositRiskSignal → LeaseStage → RiskLevel
determine_risk_level signals stage = raise_by_signals signals (stage_minimum_risk stage)

-- `for signal in signals: action_codes.update(SIGNAL_ACTIONS[signal.code])`
unfoldable pub add_signal_actions : List DepositRiskSignal → List ActionCode → List ActionCode
add_signal_actions [] s = s
add_signal_actions (signal ∷ signals) s =
    add_signal_actions signals (update (signal_actions signal.code) s)

-- The loop over `COMPLETED_CHECK_ACTIONS.items()`.
unfoldable pub discard_completed :
    List DepositCheck → List (DepositCheck × ActionCode) → List ActionCode → List ActionCode
discard_completed completed_checks [] s = s
discard_completed completed_checks (item ∷ items) s =
    discard_completed completed_checks items
      (if mem item.0 completed_checks then discard item.1 s else s)

-- The set `action_codes` of `select_actions`.
unfoldable pub action_codes :
    List DepositRiskSignal → LeaseStage → List DepositCheck → List ActionCode
action_codes signals stage completed_checks =
    let asked = add_signal_actions signals (update (stage_actions stage) []) in
    discard_completed completed_checks completed_check_actions (
      if not (mem stage guarantee_relevant_stages)
      then discard ActionCode.join_deposit_guarantee asked
      else asked)

-- The ValueError of `list.index`.
pub data PolicyError : Type 0 where
  not_in_order : PolicyError

-- `order.index(code)`
unfoldable pub index_of : ActionCode → List ActionCode → Result PolicyError ℕ
index_of code [] = err not_in_order
index_of code (c ∷ order) =
    let rest = index_of code order in if code == c then ok 0 else (rest >>= λ n. ok (suc n))

-- A code with its key `(ACTION_POLICIES[code].priority, ACTION_ORDER.index(code))`.
pub record Keyed : Type 0 where
  pub code : ActionCode
  pub priority : ℕ
  pub position : ℕ

unfoldable pub keyed : ActionCode → Result PolicyError Keyed
unfolding index_of
keyed code = index_of code action_order >>= λ position.
    ok (record { code = code; priority = (action_policies code).priority; position = position })

-- The keys of all codes, which `sorted` computes before it compares.
unfoldable pub all_keyed : List ActionCode → Result PolicyError (List Keyed)
unfolding keyed
all_keyed [] = ok []
all_keyed (code ∷ codes) = keyed code >>= λ k. all_keyed codes >>= λ ks. ok (k ∷ ks)

-- The order of the keys.
unfoldable pub key_before : Keyed → Keyed → Bool
key_before a b =
    ltb a.priority b.priority || (nat_beq a.priority b.priority && leb a.position b.position)

unfoldable pub action_of : ActionCode → DepositRiskAction
action_of code =
    let policy = action_policies code in
    record {
      code = code;
      priority = policy.priority;
      title = policy.title;
      reason = policy.reason;
      source_ids = policy.source_ids;
    }

unfoldable pub select_actions :
    List DepositRiskSignal
    → LeaseStage
    → List DepositCheck
    → Result PolicyError (List DepositRiskAction)
unfolding all_keyed
select_actions signals stage completed_checks =
    all_keyed (action_codes signals stage completed_checks) >>= λ codes.
    ok (map (λ k. action_of k.code) (sorted key_before codes))
