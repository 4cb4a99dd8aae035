-- ===== src/Fraud/Analysis/Sources.antt =====
-- The catalogue app/data/fraud/official_sources.json covers the actions of the policy.
use finshield_ai.Base.{
  String, ◌≡◌, refl, Bool, true, Option, none, some, List, [], ◌∷◌, map, all, sorted, arith,
}
use finshield_ai.OfficialSources.{get_source, string_eq}
use finshield_ai.OfficialSources.Selection.{is_supported}
use finshield_ai.Fraud.Codes.{ActionCode, UserState, RiskSignal, Action, spelling}
use finshield_ai.Fraud.Catalog.{official_sources}
use finshield_ai.Fraud.Actions.{action_of, actions_of, key_before, action_codes, select_actions}
use finshield_ai.Fraud.Analysis.{supported_action}

abbrev pub is_backed : Action → Bool
is_backed a = is_supported official_sources (supported_action a)

-- The action of a code, if it has one, is backed by the catalogue.
abbrev IsBacked : Option Action → Type 0
IsBacked none = Unit
IsBacked (some a) = is_backed a ≡ true

action_of-IsBacked : (c : ActionCode) → IsBacked (action_of c)
unfolding action_of supported_action spelling official_sources get_source
action_of-IsBacked ActionCode.verify_claimed_identity = tt
action_of-IsBacked _ = refl

abbrev AllBacked : Option (List Action) → Type 0
AllBacked none = Unit
AllBacked (some as') = all is_backed as' ≡ true

actions_of-AllBacked : (cs : List ActionCode) → AllBacked (actions_of cs)
unfolding actions_of
actions_of-AllBacked [] = refl
actions_of-AllBacked (c ∷ cs) =
    both (action_of c) (actions_of cs) (action_of-IsBacked c) (actions_of-AllBacked cs)
  where
    both :
        (o : Option Action) (rest : Option (List Action))
        → IsBacked o
        → AllBacked rest
        → AllBacked (elim o [
          | none ↦ none
          | some a ↦ elim rest [ none ↦ none | some as' ↦ some (a ∷ as') ]
        ])
    both none rest h k = tt
    both (some a) none h k = tt
    both (some a) (some as') h k = rw (h, k) refl

all-map-backed :
    (as' : List Action)
    → all is_backed as' ≡ true
    → all (is_supported official_sources) (map supported_action as') ≡ true
all-map-backed [] h = refl
all-map-backed (a ∷ as') h = ground (arith, all-map-backed as')

chosen-AllBacked :
    (casefold : String → String) (signals : List RiskSignal) (state : UserState) (text : String)
    → AllBacked (select_actions casefold signals state text)
unfolding select_actions
chosen-AllBacked casefold signals state text =
    actions_of-AllBacked (sorted key_before (action_codes casefold signals state text))

-- Each source that an action of the analysis cites is in the domain's catalogue, and supports that
-- action.
pub select_actions-backed :
    (casefold : String → String) (signals : List RiskSignal) (state : UserState) (text : String)
    (as' : List Action)
    → select_actions casefold signals state text ≡ some as'
    → all (is_supported official_sources) (map supported_action as') ≡ true
select_actions-backed casefold signals state text as' e =
    all-map-backed as' (rw e at (chosen-AllBacked casefold signals state text))
