-- ===== src/Housing/Ratio/Protection.antt =====
-- The legal protection of app/domain/housing/deposit_risk.py, and when there is a ratio.
use finshield_ai.Base.{
  ℕ, zero, suc, ◌+◌, ◌<◌, ◌≤◌, ◌≡◌, ◌↔◌, refl, Bool, true, false, ◌&&◌, not, Option, none, some,
  List, mem, arith,
}
use finshield_ai.Housing.Codes.{LeaseStage, DepositCheck, stage_eq, check_eq}
use finshield_ai.Housing.Ratio.{
  Band, compute_ratio, compute_protection, effective_on, occupied_stages, ratio_band, quantize,
  decimal_div,
}

-- A home with a price and a lien that is known has a ratio.
abbrev pub is_known : Option ℕ → Option ℕ → Bool
is_known (some (suc price)) (some lien) = true
is_known _ _ = false

-- The band that goes with a ratio: above 80.0, above 60.0, and below.
abbrev pub BandOf : Option ℕ → Band → Type 0
BandOf none band = band ≡ Band.unknown
BandOf (some r) Band.high = 800 < r
BandOf (some r) Band.elevated = (600 < r) × (r ≤ 800)
BandOf (some r) Band.low = r ≤ 600
BandOf (some r) Band.unknown = ⊥

abbrev pub is_some : Option ℕ → Bool
is_some none = false
is_some (some _) = true

BandOf-ratio_band : (r : ℕ) → BandOf (some r) (ratio_band r)
unfolding ratio_band
BandOf-ratio_band r = ground arith

-- There is a ratio exactly if the price is known and not 0 and the lien is known; without one the
-- band is unknown, and with one it is high above 80.0, elevated above 60.0 to 80.0, and low up to
-- 60.0.
pub compute_ratio-BandOf :
    (deposit : ℕ) (price lien : Option ℕ)
    → (is_some (compute_ratio deposit price lien).ratio_percent ≡ is_known price lien)
      × BandOf
          (compute_ratio deposit price lien).ratio_percent
          (compute_ratio deposit price lien).band
unfolding compute_ratio
compute_ratio-BandOf deposit none lien = (refl, refl)
compute_ratio-BandOf deposit (some zero) lien = (refl, refl)
compute_ratio-BandOf deposit (some (suc price)) none = (refl, refl)
compute_ratio-BandOf deposit (some (suc price)) (some lien) =
    (refl, BandOf-ratio_band (quantize (decimal_div (lien + deposit) (suc price))))

effective_on-some :
    (met : Bool) (reported_on : Option ℕ) (day : ℕ)
    → (effective_on met reported_on ≡ some day)
      ↔ ((met ≡ true) × ((d : ℕ) × (reported_on ≡ some d) × (day ≡ d + 1)))
unfolding effective_on
effective_on-some true none day = (λ h. cc, λ h. cc h.1.1)
effective_on-some true (some d) day =
    (λ h. (refl, (d, refl, ground arith)), λ h. ground (arith, h.1.1, h.1.2))
effective_on-some false reported_on day = (λ h. cc, λ h. cc h.0)

-- The opposing power takes effect on a day exactly if the home is occupied and the move was
-- reported, on the day before; and the requirements of priority repayment are never met without
-- those of the opposing power.
pub compute_protection-effective :
    (stage : LeaseStage) (checks : List DepositCheck) (reported_on : Option ℕ) (day : ℕ)
    → (((compute_protection stage checks reported_on).opposing_power_effective_on ≡ some day) ↔ (
        ((mem stage occupied_stages && mem DepositCheck.move_in_reported checks) ≡ true)
        × ((d : ℕ) × (reported_on ≡ some d) × (day ≡ d + 1))))
      × (((compute_protection stage checks reported_on).has_priority_repayment_requirements
            && not (compute_protection stage checks reported_on).has_opposing_power_requirements)
          ≡ false)
unfolding compute_protection
compute_protection-effective stage checks reported_on day = (
  effective_on-some (mem stage occupied_stages && mem DepositCheck.move_in_reported checks)
      reported_on day,
  ground arith,
)
