-- ===== src/Fraud/Actions/Total.antt =====
-- The choice of actions in app/domain/fraud/policy.py never meets a code without a policy, and
-- gives each action once, in the order of priority and code.
use finshield_ai.Base.{
  String, ◌≤◌, ◌≡◌, refl, Bool, true, false, some, List, [], ◌∷◌, map, mem, update, discard, ◌==◌,
  Distinct, add-Distinct, update-Distinct, discard-Distinct, sorted, IsSorted, sorted-IsSorted,
  sorted-Distinct, mem-sorted, arith, ap₂, lex_total, lex_trans, beq_sym,
}
use finshield_ai.Fraud.Codes.{
  ActionCode, SignalCode, UserState, RiskSignal, Action, action_code_eq, ActionCode-discrete,
  alphabetical,
}
use finshield_ai.Fraud.Tables.{
  state_actions, state_prevention_actions, signal_actions, signal_gated_state_actions,
}
use finshield_ai.Fraud.Actions.{
  remove_all, add_signal_actions, gather_actions, resolve_placeholder, resolve_verification_actions,
  priority_of, key_before, action_of, actions_of, action_codes, select_actions,
}
use finshield_ai.Fraud.Actions.Contents.{placeholder, official_event}
use finshield_ai.Fraud.Levels.{signal_codes}
use finshield_ai.Fraud.Actions.Channels.{verification_channels}

remove_all-Distinct : (cs s : List ActionCode) → Distinct s → Distinct (remove_all cs s)
unfolding remove_all
remove_all-Distinct [] s h = h
remove_all-Distinct (c ∷ cs) s h = remove_all-Distinct cs (discard c s) (discard-Distinct c s h)

add_signal_actions-Distinct :
    (signals : List RiskSignal) (s : List ActionCode)
    → Distinct s
    → Distinct (add_signal_actions signals s)
unfolding add_signal_actions
add_signal_actions-Distinct [] s h = h
add_signal_actions-Distinct (x ∷ signals) s h =
    add_signal_actions-Distinct signals (update (signal_actions x.code) s)
      (update-Distinct (signal_actions x.code) s h)

gather_actions-Distinct :
    (signals : List RiskSignal) (state : UserState) → Distinct (gather_actions signals state)
unfolding gather_actions
gather_actions-Distinct [] state =
    remove_all-Distinct signal_gated_state_actions (update (state_actions state) [])
      (update-Distinct (state_actions state) [] tt)
gather_actions-Distinct (x ∷ signals) state =
    update-Distinct (state_prevention_actions state) _
      (add_signal_actions-Distinct (x ∷ signals) _ (update-Distinct (state_actions state) [] tt))

resolve_placeholder-Distinct :
    (codes : List SignalCode) (event : Bool) (s : List ActionCode)
    → Distinct s
    → Distinct (resolve_placeholder codes event s)
unfolding resolve_placeholder
resolve_placeholder-Distinct codes event s h = ground (
  arith,
  update-Distinct (resolve_verification_actions codes event) (discard placeholder s)
      (discard-Distinct placeholder s h),
  add-Distinct ActionCode.verify_official_channel s h,
)

key_before_total : (a b : ActionCode) → key_before a b ≡ false → key_before b a ≡ true
unfolding key_before
key_before_total a b h =
    lex_total (priority_of a) (priority_of b) (alphabetical a) (alphabetical b) h

key_before_trans :
    (a b c : ActionCode) → key_before a b ≡ true → key_before b c ≡ true → key_before a c ≡ true
unfolding key_before
key_before_trans a b c h k =
    lex_trans (priority_of a) (priority_of b) (priority_of c) (alphabetical a) (alphabetical b)
      (alphabetical c) h k

-- The bounds that the schema sets for a priority.
abbrev pub PrioritiesInRange : List Action → Type 0
PrioritiesInRange [] = Unit
PrioritiesInRange (a ∷ as') = (1 ≤ a.priority) × (a.priority ≤ 3) × PrioritiesInRange as'

abbrev pub codes_of : List Action → List ActionCode
codes_of = map (λ a. a.code)

action_of-policy :
    (c : ActionCode)
    → (c == placeholder) ≡ false
    → (a : Action) × (action_of c ≡ some a) × (a.code ≡ c) × (1 ≤ a.priority) × (a.priority ≤ 3)
unfolding action_of ActionCode-discrete
action_of-policy ActionCode.verify_claimed_identity h = cc
action_of-policy _ h = (_, refl, refl, omega arith, omega arith)

actions_of-cons :
    (c : ActionCode) (cs : List ActionCode) (a : Action) (as' : List Action)
    → action_of c ≡ some a
    → actions_of cs ≡ some as'
    → actions_of (c ∷ cs) ≡ some (a ∷ as')
unfolding actions_of
actions_of-cons c cs a as' e es = ground arith

rest_differs :
    (c : ActionCode) (cs : List ActionCode)
    → mem placeholder (c ∷ cs) ≡ false
    → mem placeholder cs ≡ false
rest_differs c cs h = ground arith

first_differs :
    (c : ActionCode) (cs : List ActionCode)
    → mem placeholder (c ∷ cs) ≡ false
    → (c == placeholder) ≡ false
first_differs c cs h = ground (arith, beq_sym c placeholder)

-- Every list of codes without the placeholder has its actions.
actions_of-policies :
    (cs : List ActionCode)
    → mem placeholder cs ≡ false
    → (as' : List Action) × (actions_of cs ≡ some as') × (codes_of as' ≡ cs) × PrioritiesInRange as'
unfolding actions_of
actions_of-policies [] h = ([], refl, refl, tt)
actions_of-policies (c ∷ cs) h =
    let (a, e, same, least, most) = action_of-policy c (first_differs c cs h) in
    let (as', es, sames, range) = actions_of-policies cs (rest_differs c cs h) in
    (a ∷ as', actions_of-cons c cs a as' e es, ap₂ ◌∷◌ same sames, (least, most, range))

-- What a list of chosen actions is: in the order of the keys, without repetition, with priorities in
-- range, and with exactly the codes of the given set.
pub record IsChoiceOf (codes : List ActionCode) (as' : List Action) : Type 0 where
  pub in_order : IsSorted key_before (codes_of as')
  pub once : Distinct (codes_of as')
  pub exactly : (a : ActionCode) → mem a (codes_of as') ≡ mem a codes
  pub in_range : PrioritiesInRange as'

module _ (casefold : String → String) (signals : List RiskSignal) (state : UserState)
    (text : String) where
  action_codes-Distinct : Distinct (action_codes casefold signals state text)
  unfolding action_codes
  action_codes-Distinct =
      resolve_placeholder-Distinct (signal_codes signals)
        (official_event casefold signals state text) (gather_actions signals state)
        (gather_actions-Distinct signals state)

  -- For every message and state the choice of actions succeeds: no code is without a policy. The
  -- actions are sorted by priority and then code, each is given once, priorities lie in 1 to 3,
  -- and the codes are exactly those of the set that the signals, the state and the text ask for.
  pub select_actions-IsChoiceOf :
      (as' : List Action) × (select_actions casefold signals state text ≡ some as')
      × IsChoiceOf (action_codes casefold signals state text) as'
  unfolding select_actions
  select_actions-IsChoiceOf =
      let codes = action_codes casefold signals state text in
      let no_placeholder = (verification_channels casefold signals state text).2 in
      let (as', e, same, range) =
        actions_of-policies (sorted key_before codes) (rw mem-sorted no_placeholder) in
      (
        as',
        e,
        record {
          in_order = rw same (sorted-IsSorted key_before key_before_total key_before_trans codes);
          once = rw same (sorted-Distinct key_before codes action_codes-Distinct);
          exactly = λ a. rw same (mem-sorted key_before a codes);
          in_range = range;
        },
      )
