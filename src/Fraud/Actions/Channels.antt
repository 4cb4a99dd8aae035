-- ===== src/Fraud/Actions/Channels.antt =====
-- The verification actions of app/domain/fraud/policy.py: where a message has an official channel,
-- and where it has only contacts known before.
use finshield_ai.Base.{
  String, ◌≡◌, refl, sym, ◌∙◌, any-map, any-mem-all, Bool, true, false, ◌&&◌, ◌||◌, not, List, any,
  any-none, is_empty, mem, if◌then◌else◌, arith,
}
use finshield_ai.Fraud.Codes.{
  ActionCode, SignalCode, UserState, RiskSignal, signal_code_eq, action_code_eq,
  ActionCode-discrete,
}
use finshield_ai.Fraud.Tables.{
  official_channel_signals, known_contact_signals, signal_actions, state_actions,
  state_prevention_actions,
}
use finshield_ai.Fraud.Levels.{signal_codes}
use finshield_ai.Fraud.Levels.Evidence.{any-signal_codes}
use finshield_ai.Fraud.Actions.{channels, resolve_verification_actions, action_codes, intersects}
use finshield_ai.Fraud.Actions.Contents.{
  placeholder, by_signal, is_asked, official_event, mem-action_codes, mem-gather_actions,
  mem-placeholder,
}

-- The verification actions stand in no table; the placeholder alone brings them.
data IsVerification : ActionCode → Type 0 where
  official : IsVerification ActionCode.verify_official_channel
  known : IsVerification ActionCode.verify_by_known_contact

state_actions-verification :
    (a : ActionCode) (v : IsVerification a) (state : UserState)
    → mem a (state_actions state) ≡ false
unfolding state_actions ActionCode-discrete
state_actions-verification a official UserState.received_only = refl
state_actions-verification a known UserState.received_only = refl
state_actions-verification a official _ = refl
state_actions-verification a known _ = refl

prevention-verification :
    (a : ActionCode) (v : IsVerification a) (state : UserState)
    → mem a (state_prevention_actions state) ≡ false
unfolding state_prevention_actions ActionCode-discrete
prevention-verification a official UserState.received_only = refl
prevention-verification a known UserState.received_only = refl
prevention-verification a official _ = refl
prevention-verification a known _ = refl

signal_actions-verification :
    (a : ActionCode) (v : IsVerification a) (c : SignalCode) → mem a (signal_actions c) ≡ false
unfolding signal_actions ActionCode-discrete
signal_actions-verification a official SignalCode.urgency_pressure = refl
signal_actions-verification a known SignalCode.urgency_pressure = refl
signal_actions-verification a official _ = refl
signal_actions-verification a known _ = refl

is_asked-verification :
    (a : ActionCode) (v : IsVerification a) (signals : List RiskSignal) (state : UserState)
    → is_asked a signals state ≡ false
is_asked-verification a v signals state =
    rw
      (
        state_actions-verification a v state,
        prevention-verification a v state,
        any-none (λ (x : RiskSignal). mem a (signal_actions x.code)) signals
            (λ x. signal_actions-verification a v x.code),
      )
      (no_part (is_empty signals))
  where
    no_part : (b : Bool) → (false || false || (not b && false)) ≡ false
    no_part b = ground arith

-- One of the signals stands for the given codes.
abbrev pub points_to : List SignalCode → List RiskSignal → Bool
points_to wanted signals = any (λ c. mem c (signal_codes signals)) wanted

-- Each signal that points to an official channel asks to verify the sender.
points_to_asks :
    (signals : List RiskSignal)
    → points_to official_channel_signals signals ≡ true
    → by_signal placeholder signals ≡ true
unfolding signal_actions ActionCode-discrete
points_to_asks signals h =
    sym (any-signal_codes asks signals ∙ any-map asks (λ s. s.code) signals)
    ∙ any-mem-all asks official_channel_signals (signal_codes signals) h refl
  where
    asks : SignalCode → Bool
    asks c = mem placeholder (signal_actions c)

module _ (codes : List SignalCode) (event : Bool) where
  resolved_channels :
      (mem ActionCode.verify_official_channel (resolve_verification_actions codes event)
        ≡ (intersects codes official_channel_signals || event))
      × (mem ActionCode.verify_by_known_contact (resolve_verification_actions codes event) ≡ (
          intersects codes known_contact_signals
          || not (intersects codes official_channel_signals || event)))
      × (mem placeholder (resolve_verification_actions codes event) ≡ false)
  unfolding resolve_verification_actions ActionCode-discrete
  resolved_channels =
      split (intersects codes official_channel_signals || event)
        (intersects codes known_contact_signals)
    where
      split :
          (o k : Bool)
          → (mem ActionCode.verify_official_channel (channels o k) ≡ o)
            × (mem ActionCode.verify_by_known_contact (channels o k) ≡ (k || not o))
            × (mem placeholder (channels o k) ≡ false)
      split true true = (refl, refl, refl)
      split true false = (refl, refl, refl)
      split false true = (refl, refl, refl)
      split false false = (refl, refl, refl)

pick_official :
    (asked r o e : Bool)
    → r ≡ (o || e)
    → (o ≡ true → asked ≡ true)
    → (if asked then r || (true && false) else (e && true) || false) ≡ (o || e)
pick_official asked r o e h k = ground arith

pick_known :
    (asked r k e : Bool)
    → r ≡ k
    → (if asked then r || (true && false) else (e && false) || false) ≡ (asked && k)
pick_known asked r k e h = ground arith

pick_placeholder :
    (asked r e x : Bool)
    → r ≡ false
    → x ≡ asked
    → (if asked then r || (false && x) else (e && false) || x) ≡ false
pick_placeholder asked r e x h k = ground arith

placeholder_asked :
    (signals : List RiskSignal) (state : UserState)
    → is_asked placeholder signals state ≡ by_signal placeholder signals
placeholder_asked signals state =
    sym (mem-gather_actions placeholder signals state) ∙ mem-placeholder signals state

module _ (casefold : String → String) (signals : List RiskSignal) (state : UserState)
    (text : String) where
  -- A message is sent to an official channel exactly if a signal points to one, or if it has a
  -- signal and its text speaks of an event that has one; it is sent to a contact known before
  -- exactly if a signal asks to verify the sender and either the sender claims to be familiar or no
  -- official channel is known. The placeholder itself is never given.
  pub verification_channels :
      (mem ActionCode.verify_official_channel (action_codes casefold signals state text) ≡ (
        points_to official_channel_signals signals || official_event casefold signals state text))
      × (mem ActionCode.verify_by_known_contact (action_codes casefold signals state text) ≡ (
          by_signal placeholder signals
          && (points_to known_contact_signals signals
              || not (
                  points_to official_channel_signals signals
                  || official_event casefold signals state text))))
      × (mem placeholder (action_codes casefold signals state text) ≡ false)
  unfolding ActionCode-discrete
  verification_channels =
      let resolved =
        resolved_channels (signal_codes signals) (official_event casefold signals state text) in
      (
        mem-action_codes casefold signals state text ActionCode.verify_official_channel
            ∙ rw (is_asked-verification ActionCode.verify_official_channel official signals state)
                (pick_official _ _ _ _ resolved.0 (points_to_asks signals)),
        mem-action_codes casefold signals state text ActionCode.verify_by_known_contact
            ∙ rw (is_asked-verification ActionCode.verify_by_known_contact known signals state)
                (pick_known _ _ _ _ resolved.1),
        mem-action_codes casefold signals state text placeholder
            ∙ pick_placeholder _ _ _ _ resolved.2 (placeholder_asked signals state),
      )
