-- ===== src/Fraud/Public/Loop.antt =====
-- The loop of the projection to public signals: app/domain/fraud/signals.py.
use finshield_ai.Base.{
  ◌≡◌, refl, sym, ◌∙◌, inl, inr, Bool, true, false, not, ◌&&◌, ◌||◌, Option, none, some, List, [],
  ◌∷◌, ◌++◌, map, any, mem, add, mem-add, Distinct, or-false, Bool-cases, ◌==◌, arith, beq_sym,
}
use finshield_ai.Fraud.Codes.{SignalCode, RiskSignal, signal_code_eq}
use finshield_ai.Fraud.Public.{
  canonical_to_legacy_public, legacy_rule_by_code, public_signal, is_left_out, project_from,
}

-- The code that a canonical code is shown as.
unfoldable pub shown_code : SignalCode → SignalCode
unfolding canonical_to_legacy_public
shown_code c = elim (canonical_to_legacy_public c) [ none ↦ c | some l ↦ l ]

-- The table of legacy rules has each code that the projection looks up.
abbrev IsKnown : Option SignalCode → Type 0
IsKnown none = Unit
IsKnown (some l) = (p : RiskSignal) × (legacy_rule_by_code l ≡ some p) × (p.code ≡ l)

canonical_to_legacy_public-IsKnown : (c : SignalCode) → IsKnown (canonical_to_legacy_public c)
unfolding canonical_to_legacy_public legacy_rule_by_code
canonical_to_legacy_public-IsKnown SignalCode.urgency_pressure = (_, refl, refl)
canonical_to_legacy_public-IsKnown SignalCode.credential_request = (_, refl, refl)
canonical_to_legacy_public-IsKnown SignalCode.account_access_request = (_, refl, refl)
canonical_to_legacy_public-IsKnown SignalCode.app_install_request = (_, refl, refl)
canonical_to_legacy_public-IsKnown SignalCode.remote_control_request = (_, refl, refl)
canonical_to_legacy_public-IsKnown SignalCode.receive_and_forward_money = (_, refl, refl)
canonical_to_legacy_public-IsKnown _ = tt

public_signal-shown :
    (s : RiskSignal) → (p : RiskSignal) × (public_signal s ≡ some p) × (p.code ≡ shown_code s.code)
unfolding public_signal shown_code
public_signal-shown s =
    by_table (canonical_to_legacy_public s.code) (canonical_to_legacy_public-IsKnown s.code)
  where
    by_table :
        (o : Option SignalCode)
        → IsKnown o
        → (p : RiskSignal) × (elim o [ none ↦ some s | some l ↦ legacy_rule_by_code l ] ≡ some p)
          × (p.code ≡ elim o [ none ↦ s.code | some l ↦ l ])
    by_table none h = (s, refl, refl)
    by_table (some l) h = h

abbrev pub codes : List RiskSignal → List SignalCode
codes = map (λ s. s.code)

-- One of the signals is shown with the code, and not left out.
abbrev pub is_shown : List SignalCode → SignalCode → List RiskSignal → Bool
is_shown canonical c signals =
    any (λ s. not (is_left_out canonical s) && c == shown_code s.code) signals

-- What the loop gives, from the signals projected so far.
abbrev pub Projects : List SignalCode → List RiskSignal → List RiskSignal → List RiskSignal → Type 0
Projects canonical signals projected result =
    ((c : SignalCode)
      → mem c (codes result) ≡ (mem c (codes projected) || is_shown canonical c signals))
    × Distinct (codes result)

module _ (canonical : List SignalCode) (s p : RiskSignal) (signals projected : List RiskSignal)
    (seen : List SignalCode) where
  project_from-again :
      is_left_out canonical s ≡ false
      → public_signal s ≡ some p
      → mem p.code seen ≡ true
      → project_from canonical (s ∷ signals) projected seen
        ≡ project_from canonical signals projected seen
  unfolding project_from
  project_from-again h e m = ground arith

  project_from-new :
      is_left_out canonical s ≡ false
      → public_signal s ≡ some p
      → mem p.code seen ≡ false
      → project_from canonical (s ∷ signals) projected seen
        ≡ project_from canonical signals (projected ++ p ∷ []) (add p.code seen)
  unfolding project_from
  project_from-new h e m = ground arith

project_from-left_out :
    (canonical : List SignalCode) (s : RiskSignal) (signals projected : List RiskSignal)
    (seen : List SignalCode)
    → is_left_out canonical s ≡ true
    → project_from canonical (s ∷ signals) projected seen
      ≡ project_from canonical signals projected seen
unfolding project_from
project_from-left_out canonical s signals projected seen h = ground arith

codes-snoc :
    (c : SignalCode) (p : RiskSignal) (projected : List RiskSignal)
    → mem c (codes (projected ++ p ∷ [])) ≡ (mem c (codes projected) || c == p.code)
codes-snoc c p [] = or-false (c == p.code)
codes-snoc c p (q ∷ projected) = ground (arith, codes-snoc c p projected)

codes-Distinct :
    (p : RiskSignal) (projected : List RiskSignal)
    → Distinct (codes projected)
    → mem p.code (codes projected) ≡ false
    → Distinct (codes (projected ++ p ∷ []))
codes-Distinct p [] d h = (refl, tt)
codes-Distinct p (q ∷ projected) d h =
    ground
      (arith, codes-Distinct p projected d.1, codes-snoc q.code p projected, beq_sym p.code q.code)

seen_snoc :
    (c : SignalCode) (p : RiskSignal) (projected : List RiskSignal) (seen : Bool)
    → seen ≡ mem c (codes projected)
    → (c == p.code || seen) ≡ mem c (codes (projected ++ p ∷ []))
seen_snoc c p projected seen h = ground (arith, codes-snoc c p projected)

shown_again :
    (c x y : SignalCode) (xs : List SignalCode) (more out : Bool)
    → x ≡ y
    → mem x xs ≡ true
    → (mem c xs || more) ≡ (mem c xs || ((not out && c == y) || more))
shown_again c x y xs more out e h = ground (arith, signal_code_eq.beq_iff c y)

shown_new :
    (c : SignalCode) (p : RiskSignal) (projected : List RiskSignal) (y : SignalCode)
    (more out : Bool)
    → p.code ≡ y
    → out ≡ false
    → (mem c (codes (projected ++ p ∷ [])) || more)
      ≡ (mem c (codes projected) || ((not out && c == y) || more))
shown_new c p projected y more out e h = ground (arith, codes-snoc c p projected)

pub project_from-Projects :
    (canonical : List SignalCode) (signals projected : List RiskSignal) (seen : List SignalCode)
    → ((c : SignalCode) → mem c seen ≡ mem c (codes projected))
    → Distinct (codes projected)
    → (result : List RiskSignal) × (project_from canonical signals projected seen ≡ some result)
      × Projects canonical signals projected result
unfolding project_from
project_from-Projects canonical [] projected seen h d =
    (projected, refl, ((λ c. sym (or-false (mem c (codes projected)))), d))
project_from-Projects canonical (s ∷ signals) projected seen h d =
    let (p, e, shown) = public_signal-shown s in
    let old = project_from-Projects canonical signals projected seen h d in
    elim (Bool-cases (is_left_out canonical s)) [
      | inl out ↦ (
        old.0,
        project_from-left_out canonical s signals projected seen out ∙ old.1,
        ((λ c. ground (arith, old.2.0 c)), old.2.1),
      )
      | inr kept ↦ elim (Bool-cases (mem p.code seen)) [
        | inl again ↦ (
          old.0,
          project_from-again canonical s p signals projected seen kept e again ∙ old.1,
          (
            (λ c.
                old.2.0 c
                ∙ shown_again c p.code (shown_code s.code) (codes projected) _
                    (is_left_out canonical s) shown (sym (h p.code) ∙ again)),
            old.2.1,
          ),
        )
        | inr fresh ↦
            let new =
              project_from-Projects canonical signals (projected ++ p ∷ []) (add p.code seen)
                (λ c. mem-add c p.code seen ∙ seen_snoc c p projected (mem c seen) (h c))
                (codes-Distinct p projected d (sym (h p.code) ∙ fresh)) in
            (
              new.0,
              project_from-new canonical s p signals projected seen kept e fresh ∙ new.1,
              (
                (λ c.
                    new.2.0 c
                    ∙ shown_new c p projected (shown_code s.code) _ (is_left_out canonical s) shown
                        kept),
                new.2.1,
              ),
            )
      ]
    ]
