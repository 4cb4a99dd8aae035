-- ===== src/Fraud/Actions.antt =====
-- app/domain/fraud/policy.py: the choice of the actions for a message. `casefold` stands for
-- Python's `str.casefold`. A KeyError of `ACTION_POLICIES[code]` is `none`.
pub mod Channels
pub mod Contents
pub mod Total
use finshield_ai.Base.{
  ℕ, String, Bool, ◌&&◌, ◌||◌, not, Option, none, some, List, [], ◌∷◌, ◌++◌, any, is_empty, mem,
  add, update, discard, sorted, nat_beq, ltb, leb, text_contains, if◌then◌else◌,
}
use finshield_ai.Fraud.Codes.{
  ActionCode, SignalCode, UserState, RiskSignal, Action, signal_code_eq, action_code_eq,
  alphabetical,
}
use finshield_ai.Fraud.Policies.{ActionPolicy, action_policies}
use finshield_ai.Fraud.Tables.{
  official_channel_signals, known_contact_signals, official_channel_context_terms, signal_actions,
  state_actions, state_prevention_actions, signal_gated_state_actions,
}
use finshield_ai.Fraud.Levels.{signal_codes}

-- `signal_codes & wanted`, as a test
abbrev pub intersects : List SignalCode → List SignalCode → Bool
intersects codes wanted = any (λ c. mem c codes) wanted

abbrev pub when : Bool → ActionCode → List ActionCode
when b c = if b then c ∷ [] else []

abbrev pub or_default : List ActionCode → List ActionCode → List ActionCode
or_default [] d = d
or_default (c ∷ cs) d = c ∷ cs

-- The channels that there are, the known contact where there is none.
abbrev pub channels : Bool → Bool → List ActionCode
channels official known =
    or_default
      (when official ActionCode.verify_official_channel
        ++ when known ActionCode.verify_by_known_contact)
      (ActionCode.verify_by_known_contact ∷ [])

unfoldable pub resolve_verification_actions : List SignalCode → Bool → List ActionCode
resolve_verification_actions codes official_channel_context =
    channels (intersects codes official_channel_signals || official_channel_context)
      (intersects codes known_contact_signals)

-- `action_codes -= codes`
unfoldable pub remove_all : List ActionCode → List ActionCode → List ActionCode
remove_all [] s = s
remove_all (c ∷ cs) s = remove_all cs (discard c s)

-- `for signal in signals: action_codes.update(SIGNAL_ACTIONS.get(signal.code, ()))`
unfoldable pub add_signal_actions : List RiskSignal → List ActionCode → List ActionCode
add_signal_actions [] s = s
add_signal_actions (signal ∷ signals) s =
    add_signal_actions signals (update (signal_actions signal.code) s)

-- The set of codes before the placeholder is resolved.
unfoldable pub gather_actions : List RiskSignal → UserState → List ActionCode
unfolding remove_all add_signal_actions
gather_actions signals state =
    let by_state = update (state_actions state) [] in
    let gated =
      (if is_empty signals then remove_all signal_gated_state_actions by_state else by_state) in
    let by_signals = add_signal_actions signals gated in
    if is_empty signals then by_signals else update (state_prevention_actions state) by_signals

-- The placeholder, resolved to the channels that the message has.
unfoldable pub resolve_placeholder : List SignalCode → Bool → List ActionCode → List ActionCode
unfolding resolve_verification_actions
resolve_placeholder codes official_channel_context s =
    if mem ActionCode.verify_claimed_identity s
    then update (resolve_verification_actions codes official_channel_context)
        (discard ActionCode.verify_claimed_identity s)
    else if official_channel_context
    then add ActionCode.verify_official_channel s
    else s

-- `ACTION_POLICIES[code].priority`; the placeholder has none, and 0 stands in.
unfoldable pub priority_of : ActionCode → ℕ
unfolding action_policies
priority_of code = elim (action_policies code) [ none ↦ 0 | some p ↦ p.priority ]

-- The order of the keys `(ACTION_POLICIES[code].priority, code)`.
unfoldable pub key_before : ActionCode → ActionCode → Bool
unfolding priority_of alphabetical
key_before a b =
    ltb (priority_of a) (priority_of b)
    || (nat_beq (priority_of a) (priority_of b) && leb (alphabetical a) (alphabetical b))

unfoldable pub action_of : ActionCode → Option Action
unfolding action_policies
action_of code = elim (action_policies code) [
  | none ↦ none
  | some p ↦ some (record {
    code = code;
    priority = p.priority;
    title = p.title;
    reason = p.reason;
    source_ids = p.source_ids;
  })
]

-- The list of actions, or `none` at the first code without a policy.
unfoldable pub actions_of : List ActionCode → Option (List Action)
actions_of [] = some []
actions_of (code ∷ codes) =
    let rest = actions_of codes in
    elim (action_of code) [
      | none ↦ none
      | some a ↦ elim rest [ none ↦ none | some as' ↦ some (a ∷ as') ]
    ]

module _ (casefold : String → String) where
  -- `any(term in text.casefold() for term in OFFICIAL_CHANNEL_CONTEXT_TERMS)`
  unfoldable pub mentions_official_channel_event : String → Bool
  mentions_official_channel_event text =
      any (λ term. text_contains (casefold text) term) official_channel_context_terms

  -- The codes of the actions, as a set.
  unfoldable pub action_codes : List RiskSignal → UserState → String → List ActionCode
  unfolding gather_actions resolve_placeholder signal_codes mentions_official_channel_event
  action_codes signals state text =
      resolve_placeholder (signal_codes signals)
        (not (is_empty signals) && mentions_official_channel_event text)
        (gather_actions signals state)

  unfoldable pub select_actions : List RiskSignal → UserState → String → Option (List Action)
  unfolding action_codes key_before action_of actions_of
  select_actions signals state text =
      actions_of (sorted key_before (action_codes signals state text))
