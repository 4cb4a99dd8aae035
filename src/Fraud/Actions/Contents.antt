-- ===== src/Fraud/Actions/Contents.antt =====
-- Which actions app/domain/fraud/policy.py gives.
use finshield_ai.Base.{
  String, ◌≡◌, refl, Bool, false, ◌&&◌, ◌||◌, not, List, [], ◌∷◌, any, is_empty, mem, update,
  discard, ◌==◌, mem-add, mem-update, mem-discard, if◌then◌else◌, arith,
}
use finshield_ai.Fraud.Codes.{
  ActionCode, SignalCode, UserState, RiskSignal, signal_code_eq, action_code_eq,
  ActionCode-discrete,
}
use finshield_ai.Fraud.Tables.{
  signal_actions, state_actions, state_prevention_actions, signal_gated_state_actions,
}
use finshield_ai.Fraud.Levels.{signal_codes}
use finshield_ai.Fraud.Actions.{
  remove_all, add_signal_actions, gather_actions, resolve_placeholder, resolve_verification_actions,
  mentions_official_channel_event, action_codes,
}

mem-remove_all :
    (a : ActionCode) (cs s : List ActionCode)
    → mem a (remove_all cs s) ≡ (not (mem a cs) && mem a s)
unfolding remove_all
mem-remove_all a [] s = refl
mem-remove_all a (c ∷ cs) s = ground (arith, mem-remove_all a cs (discard c s), mem-discard a c s)

mem-add_signal_actions :
    (a : ActionCode) (signals : List RiskSignal) (s : List ActionCode)
    → mem a (add_signal_actions signals s)
      ≡ (any (λ (x : RiskSignal). mem a (signal_actions x.code)) signals || mem a s)
unfolding add_signal_actions
mem-add_signal_actions a [] s = refl
mem-add_signal_actions a (x ∷ signals) s = ground (
  arith,
  mem-add_signal_actions a signals (update (signal_actions x.code) s),
  mem-update a (signal_actions x.code) s,
)

-- The state asks for the action by itself.
abbrev pub by_state : ActionCode → List RiskSignal → UserState → Bool
by_state a signals state =
    mem a (state_actions state) && not (is_empty signals && mem a signal_gated_state_actions)

-- One of the signals asks for the action.
abbrev pub by_signal : ActionCode → List RiskSignal → Bool
by_signal a signals = any (λ (x : RiskSignal). mem a (signal_actions x.code)) signals

-- The state asks for the action once there is a signal.
abbrev pub by_prevention : ActionCode → List RiskSignal → UserState → Bool
by_prevention a signals state = not (is_empty signals) && mem a (state_prevention_actions state)

pub mem-gather_actions :
    (a : ActionCode) (signals : List RiskSignal) (state : UserState)
    → mem a (gather_actions signals state)
      ≡ (by_state a signals state || by_signal a signals || by_prevention a signals state)
unfolding gather_actions
mem-gather_actions a [] state = ground (
  arith,
  mem-remove_all a signal_gated_state_actions (update (state_actions state) []),
  mem-update a (state_actions state) [],
)
mem-gather_actions a (x ∷ signals) state = ground (
  arith,
  mem-update a (state_prevention_actions state)
      (add_signal_actions (x ∷ signals) (update (state_actions state) [])),
  mem-add_signal_actions a (x ∷ signals) (update (state_actions state) []),
  mem-update a (state_actions state) [],
)

abbrev pub placeholder : ActionCode
placeholder = ActionCode.verify_claimed_identity

mem-resolve_placeholder :
    (a : ActionCode) (codes : List SignalCode) (event : Bool) (s : List ActionCode)
    → mem a (resolve_placeholder codes event s) ≡ (
        if mem placeholder s
        then mem a (resolve_verification_actions codes event) || (not (a == placeholder) && mem a s)
        else (event && a == ActionCode.verify_official_channel) || mem a s)
unfolding resolve_placeholder
mem-resolve_placeholder a codes event s = ground (
  arith,
  mem-update a (resolve_verification_actions codes event) (discard placeholder s),
  mem-discard a placeholder s,
  mem-add a ActionCode.verify_official_channel s,
)

-- Only signals ask for the placeholder.
placeholder_by_state : (state : UserState) → mem placeholder (state_actions state) ≡ false
unfolding state_actions ActionCode-discrete
placeholder_by_state UserState.received_only = refl
placeholder_by_state _ = refl

placeholder_by_prevention :
    (state : UserState) → mem placeholder (state_prevention_actions state) ≡ false
unfolding state_prevention_actions ActionCode-discrete
placeholder_by_prevention UserState.received_only = refl
placeholder_by_prevention _ = refl

pub mem-placeholder :
    (signals : List RiskSignal) (state : UserState)
    → mem placeholder (gather_actions signals state) ≡ by_signal placeholder signals
mem-placeholder signals state =
    rw (mem-gather_actions, placeholder_by_state, placeholder_by_prevention)
      (drop_false (by_signal placeholder signals) (is_empty signals))
  where
    drop_false : (b e : Bool) → (false || b || (not e && false)) ≡ b
    drop_false b e = ground arith

-- The state, a signal or prevention asks for the action.
abbrev pub is_asked : ActionCode → List RiskSignal → UserState → Bool
is_asked a signals state =
    by_state a signals state || by_signal a signals || by_prevention a signals state

module _ (casefold : String → String) (signals : List RiskSignal) (state : UserState)
    (text : String) where
  -- There is a signal, and the text speaks of an event that has an official channel.
  abbrev pub official_event : Bool
  official_event = not (is_empty signals) && mentions_official_channel_event casefold text

  pub mem-action_codes :
      (a : ActionCode)
      → mem a (action_codes casefold signals state text) ≡ (
          if by_signal placeholder signals
          then mem a (resolve_verification_actions (signal_codes signals) official_event)
            || (not (a == placeholder) && is_asked a signals state)
          else (official_event && a == ActionCode.verify_official_channel)
            || is_asked a signals state)
  unfolding action_codes
  mem-action_codes a =
      rw (mem-resolve_placeholder, mem-placeholder, mem-gather_actions a signals state) refl

-- With no signal the actions are those of the state, but for ending the contact.
pub action_codes-no_signals :
    (casefold : String → String) (state : UserState) (text : String) (a : ActionCode)
    → mem a (action_codes casefold [] state text)
      ≡ (mem a (state_actions state) && not (a == ActionCode.stop_contact))
action_codes-no_signals casefold state text a =
    rw mem-action_codes (no_signals (mem a (state_actions state)) (a == ActionCode.stop_contact))
  where
    no_signals : (x y : Bool) → ((x && not (y || false)) || false || false) ≡ (x && not y)
    no_signals x y = ground arith
