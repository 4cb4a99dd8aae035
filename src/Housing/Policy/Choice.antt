-- ===== src/Housing/Policy/Choice.antt =====
-- Which actions app/domain/housing/policy.py chooses.
use finshield_ai.Base.{
  ◌≡◌, refl, Bool, true, false, not, ◌&&◌, ◌||◌, List, [], ◌∷◌, map, any, mem, update, discard,
  mem-update, mem-discard, update-Distinct, discard-Distinct, Distinct, sorted, IsSorted,
  sorted-IsSorted, sorted-Distinct, mem-sorted, if◌then◌else◌, ◌==◌, or-false, arith, ok,
}
use finshield_ai.Housing.Codes.{
  LeaseStage, DepositCheck, ActionCode, DepositRiskSignal, DepositRiskAction, stage_eq, check_eq,
  action_code_eq,
}
use finshield_ai.Housing.Tables.{
  stage_actions, signal_actions, guarantee_relevant_stages, completed_check_actions,
}
use finshield_ai.Housing.Policy.{
  add_signal_actions, discard_completed, action_codes, action_of, select_actions,
}
use finshield_ai.Housing.Policy.Order.{
  is_before, all_keyed-keyed_of, is_before_total, is_before_trans, codes-action_of,
  actions-keyed_of, sorted-keyed_of,
}

-- A finished check makes the action needless.
abbrev pub is_done : List (DepositCheck × ActionCode) → List DepositCheck → ActionCode → Bool
is_done items checks a = any (λ item. mem item.0 checks && a == item.1) items

-- The stage or one of the signals asks for the action.
abbrev pub is_asked : List DepositRiskSignal → LeaseStage → ActionCode → Bool
is_asked signals stage a =
    mem a (stage_actions stage) || any (λ s. mem a (signal_actions s.code)) signals

-- The guarantee, in a stage that it is no longer (or not yet) open in.
abbrev pub is_closed : LeaseStage → ActionCode → Bool
is_closed stage a =
    a == ActionCode.join_deposit_guarantee && not (mem stage guarantee_relevant_stages)

mem-discard_completed :
    (checks : List DepositCheck) (items : List (DepositCheck × ActionCode)) (s : List ActionCode)
    (a : ActionCode)
    → mem a (discard_completed checks items s) ≡ (not (is_done items checks a) && mem a s)
unfolding discard_completed
mem-discard_completed checks [] s a = refl
mem-discard_completed checks (item ∷ items) s a = ground (
  arith,
  mem-discard_completed checks items (if mem item.0 checks then discard item.1 s else s) a,
  mem-discard a item.1 s,
)

mem-add_signal_actions :
    (signals : List DepositRiskSignal) (s : List ActionCode) (a : ActionCode)
    → mem a (add_signal_actions signals s)
      ≡ (mem a s || any (λ x. mem a (signal_actions x.code)) signals)
unfolding add_signal_actions
mem-add_signal_actions [] s a = ground (arith, or-false (mem a s))
mem-add_signal_actions (x ∷ signals) s a = ground (
  arith,
  mem-add_signal_actions signals (update (signal_actions x.code) s) a,
  mem-update a (signal_actions x.code) s,
)

mem-gated :
    (stage : LeaseStage) (s : List ActionCode) (a : ActionCode)
    → mem a (
        if not (mem stage guarantee_relevant_stages)
        then discard ActionCode.join_deposit_guarantee s
        else s)
      ≡ (not (is_closed stage a) && mem a s)
mem-gated stage s a = ground (arith, mem-discard a ActionCode.join_deposit_guarantee s)

-- The codes are those that the stage or a signal asks for, less the guarantee in a stage that has
-- none, and less what is done.
pub mem-action_codes :
    (signals : List DepositRiskSignal) (stage : LeaseStage) (checks : List DepositCheck)
    (a : ActionCode)
    → mem a (action_codes signals stage checks) ≡ (
        not (is_done completed_check_actions checks a)
        && (not (is_closed stage a) && is_asked signals stage a))
unfolding action_codes
mem-action_codes signals stage checks a =
    rw (mem-discard_completed, mem-gated, mem-add_signal_actions, mem-update, or-false) refl

add_signal_actions-Distinct :
    (signals : List DepositRiskSignal) (s : List ActionCode)
    → Distinct s
    → Distinct (add_signal_actions signals s)
unfolding add_signal_actions
add_signal_actions-Distinct [] s h = h
add_signal_actions-Distinct (x ∷ signals) s h =
    add_signal_actions-Distinct signals (update (signal_actions x.code) s)
      (update-Distinct (signal_actions x.code) s h)

if_discard-Distinct :
    (b : Bool) (a : ActionCode) (s : List ActionCode)
    → Distinct s
    → Distinct (if b then discard a s else s)
if_discard-Distinct true a s h = discard-Distinct a s h
if_discard-Distinct false a s h = h

discard_completed-Distinct :
    (checks : List DepositCheck) (items : List (DepositCheck × ActionCode)) (s : List ActionCode)
    → Distinct s
    → Distinct (discard_completed checks items s)
unfolding discard_completed
discard_completed-Distinct checks [] s h = h
discard_completed-Distinct checks (item ∷ items) s h =
    discard_completed-Distinct checks items _ (if_discard-Distinct (mem item.0 checks) item.1 s h)

action_codes-Distinct :
    (signals : List DepositRiskSignal) (stage : LeaseStage) (checks : List DepositCheck)
    → Distinct (action_codes signals stage checks)
unfolding action_codes
action_codes-Distinct signals stage checks =
    discard_completed-Distinct checks completed_check_actions _ (
      if_discard-Distinct (not (mem stage guarantee_relevant_stages))
        ActionCode.join_deposit_guarantee _
        (add_signal_actions-Distinct signals _ (update-Distinct (stage_actions stage) [] tt)))

-- Each code has its key, and the actions are those of the sorted codes.
pub select_actions-sorted :
    (signals : List DepositRiskSignal) (stage : LeaseStage) (checks : List DepositCheck)
    → select_actions signals stage checks
      ≡ ok (map action_of (sorted is_before (action_codes signals stage checks)))
unfolding select_actions
select_actions-sorted signals stage checks =
    rw (all_keyed-keyed_of, sorted-keyed_of, actions-keyed_of) refl

-- What the chosen actions are.
pub record IsDueFor (signals : List DepositRiskSignal) (stage : LeaseStage)
    (checks : List DepositCheck) (codes : List ActionCode) : Type 0 where
  pub in_order : IsSorted is_before codes
  pub once : Distinct codes
  pub exactly :
      (a : ActionCode)
      → mem a codes ≡ (
          not (is_done completed_check_actions checks a)
          && (not (is_closed stage a) && is_asked signals stage a))

pub sorted-IsDueFor :
    (signals : List DepositRiskSignal) (stage : LeaseStage) (checks : List DepositCheck)
    → IsDueFor signals stage checks
        (map (λ a. a.code) (map action_of (sorted is_before (action_codes signals stage checks))))
sorted-IsDueFor signals stage checks =
    let codes = action_codes signals stage checks in
    let same = codes-action_of (sorted is_before codes) in
    record {
      in_order = rw same (sorted-IsSorted is_before is_before_total is_before_trans codes);
      once = rw same (sorted-Distinct is_before codes (action_codes-Distinct signals stage checks));
      exactly = λ a. rw (same, mem-sorted, mem-action_codes) refl;
    }

-- The choice of actions raises nothing: every chosen code has a place in `ACTION_ORDER`. The chosen
-- actions are in the order of priority and then `ACTION_ORDER`, each is given once, and they are exactly
-- those that the stage or a signal asks for, less what a completed check has done and less the guarantee
-- in a stage in which it is not open.
pub select_actions-IsDueFor :
    (signals : List DepositRiskSignal) (stage : LeaseStage) (checks : List DepositCheck)
    → (actions : List DepositRiskAction) × (select_actions signals stage checks ≡ ok actions)
      × IsDueFor signals stage checks (map (λ a. a.code) actions)
select_actions-IsDueFor signals stage checks = (
  map action_of (sorted is_before (action_codes signals stage checks)),
  select_actions-sorted signals stage checks,
  sorted-IsDueFor signals stage checks,
)
