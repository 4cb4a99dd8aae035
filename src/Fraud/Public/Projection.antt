-- ===== src/Fraud/Public/Projection.antt =====
-- What the public signals show of the canonical ones: app/domain/fraud/signals.py.
use finshield_ai.Base.{
  ◌≡◌, refl, sym, ap, ◌∙◌, inl, inr, Bool, true, false, not, ◌&&◌, ◌||◌, some, List, [], ◌∷◌, mem,
  Distinct, Bool-cases, ◌==◌, is_empty, arith,
}
use finshield_ai.Fraud.Codes.{SignalCode, RiskSignal, signal_code_eq, SignalCode-discrete}
use finshield_ai.Fraud.Levels.{signal_codes}
use finshield_ai.Fraud.Levels.Evidence.{mem-signal_codes}
use finshield_ai.Fraud.Public.{is_left_out, project_public_signals}
use finshield_ai.Fraud.Public.Loop.{codes, shown_code, is_shown, project_from-Projects}

abbrev money_mule_request : SignalCode
money_mule_request = SignalCode.receive_and_forward_money

-- The request to receive and forward money is itself never left out.
kept_by_code :
    (canonical : List SignalCode) (s : RiskSignal)
    → s.code ≡ money_mule_request
    → is_left_out canonical s ≡ false
unfolding is_left_out SignalCode-discrete
kept_by_code canonical s e = rw e refl

money_mule_shown :
    (canonical : List SignalCode) (signals : List RiskSignal)
    → mem money_mule_request (codes signals) ≡ true
    → is_shown canonical (shown_code money_mule_request) signals ≡ true
money_mule_shown canonical [] h = cc
money_mule_shown canonical (s ∷ signals) h = elim (Bool-cases (money_mule_request == s.code)) [
  | inl here ↦
      let e : s.code ≡ money_mule_request = sym ((signal_code_eq.beq_iff _ _).0 here) in
      shown_here (shown_code money_mule_request) (shown_code s.code) _ (is_left_out canonical s)
        (ap shown_code (sym e)) (kept_by_code canonical s e)
  | inr later ↦ later_or _ _ (money_mule_shown canonical signals (rest_of _ _ later h))
]
  where
    shown_here :
        (c y : SignalCode) (more out : Bool)
        → c ≡ y
        → out ≡ false
        → ((not out && c == y) || more) ≡ true
    shown_here c y more out e o = ground (arith, signal_code_eq.beq_iff c y)

    later_or : (x more : Bool) → more ≡ true → (x || more) ≡ true
    later_or x more e = ground arith

    rest_of : (x y : Bool) → x ≡ false → (x || y) ≡ true → y ≡ true
    rest_of x y e k = ground arith

left_out-money_mule :
    (canonical : List SignalCode) (s : RiskSignal)
    → is_left_out canonical s ≡ true
    → mem money_mule_request canonical ≡ true
unfolding is_left_out
left_out-money_mule canonical s h = ground arith

-- If there is a signal, some code is shown.
some_shown :
    (s : RiskSignal) (signals : List RiskSignal)
    → (c : SignalCode) × (is_shown (signal_codes (s ∷ signals)) c (s ∷ signals) ≡ true)
some_shown s signals = elim (Bool-cases (is_left_out (signal_codes (s ∷ signals)) s)) [
  | inl out ↦ (
    shown_code money_mule_request,
    money_mule_shown (signal_codes (s ∷ signals)) (s ∷ signals) (
        sym (mem-signal_codes money_mule_request (s ∷ signals))
        ∙ left_out-money_mule (signal_codes (s ∷ signals)) s out),
  )
  | inr kept ↦ (
    shown_code s.code,
    ground (arith, signal_code_eq.beq_iff (shown_code s.code) (shown_code s.code)),
  )
]

nonempty_shown :
    (signals result : List RiskSignal)
    → ((c : SignalCode) → mem c (codes result) ≡ is_shown (signal_codes signals) c signals)
    → is_empty result ≡ is_empty signals
nonempty_shown [] [] h = refl
nonempty_shown [] (r ∷ result) h = ground (arith, h r.code, signal_code_eq.beq_iff r.code r.code)
nonempty_shown (s ∷ signals) [] h = let (c, shown) = some_shown s signals in cc (h c, shown)
nonempty_shown (s ∷ signals) (r ∷ result) h = refl

-- For every list of canonical signals the projection succeeds: no legacy rule is missing. A code is
-- shown exactly if it stands for a canonical signal that is not left out, no code is shown twice, and
-- nothing is shown only if there was no signal.
pub project_public_signals-shown :
    (signals : List RiskSignal)
    → (result : List RiskSignal) × (project_public_signals signals ≡ some result)
      × ((c : SignalCode) → mem c (codes result) ≡ is_shown (signal_codes signals) c signals)
      × Distinct (codes result)
      × (is_empty result ≡ is_empty signals)
unfolding project_public_signals
project_public_signals-shown signals =
    let (result, e, (exact, once)) =
      project_from-Projects (signal_codes signals) signals [] [] (λ c. refl) tt in
    (result, e, exact, once, nonempty_shown signals result exact)
