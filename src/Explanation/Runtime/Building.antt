-- ===== src/Explanation/Runtime/Building.antt =====
-- app/services/llm/runtime.py: what is built from the settings; `strip_lower` is `.strip().lower()`, and
-- whether the settings hold a key for the provider is a parameter.
use finshield_ai.Base.{
  ℕ, String, Bool, not, Option, none, some, List, [], ◌∷◌, ◌==◌, mem, Result, ok, err, ◌>>=◌,
  if◌then◌else◌,
}
use finshield_ai.OfficialSources.{string_eq}
use finshield_ai.Explanation.Contract.{LlmContract, ContractError, post_init}

-- `SUPPORTED_PROVIDERS`
abbrev pub supported_providers : List String
supported_providers = "off" ∷ "stub" ∷ "google_ai_studio" ∷ []

abbrev pub explanation_model : String
explanation_model = "gemini-3.6-flash"

abbrev pub explanation_fallback_model : String
explanation_fallback_model = "gemini-3.1-flash-lite"

-- The causes of `LlmRuntimeConfigurationError`, and an error of a contract.
pub data RuntimeError : Type 0 where
  unsupported_provider missing_api_key : RuntimeError
  wrong_contract : ContractError → RuntimeError

-- `ExplanationRuntime`; the provider is named.
pub record ExplanationRuntime : Type 0 where
  pub provider : String
  pub contracts : List LlmContract

-- `_selected_provider`; the setting is `none` where it is missing.
unfoldable pub provider_of : String → Result RuntimeError String
provider_of raw =
    if raw == ""
    then ok "off"
    else if not (mem raw supported_providers)
    then err unsupported_provider
    else ok raw

unfoldable pub setting_or_empty : Option String → String
setting_or_empty none = ""
setting_or_empty (some value) = value

module _ (strip strip_lower : String → String) where
  unfoldable pub selected_provider : Option String → Result RuntimeError String
  unfolding provider_of setting_or_empty
  selected_provider setting = provider_of (strip_lower (setting_or_empty setting))

  unfoldable pub or_wrong_contract :
      LlmContract → Result ContractError Unit → Result RuntimeError LlmContract
  or_wrong_contract contract (ok u) = ok contract
  or_wrong_contract contract (err e) = err (wrong_contract e)

  -- `LlmContract(...)`
  unfoldable pub checked_contract : LlmContract → Result RuntimeError LlmContract
  unfolding or_wrong_contract
  checked_contract contract = or_wrong_contract contract (post_init strip contract)

  unfoldable pub fraud_explanation_contract : String → String → ℕ → Result RuntimeError LlmContract
  unfolding checked_contract
  fraud_explanation_contract provider model timeout_tenths = checked_contract (record {
    provider = provider;
    model = model;
    prompt_id = "fraud_explanation_v2";
    prompt_sha256 = "c7532280daf58884020ccda3e025c3ff2c5e3ad2b23c6881555d4a561b9ed76b";
    max_input_chars = 4000;
    timeout_tenths = timeout_tenths;
    temperature_tenths = 0;
  })

  -- The runtime of a provider that is not off.
  unfoldable pub runtime_for : Bool → String → Result RuntimeError (Option ExplanationRuntime)
  unfolding fraud_explanation_contract
  runtime_for has_api_key selected =
      if selected == "off"
      then ok none
      else if selected == "stub"
      then (fraud_explanation_contract "stub" "stub" 80 >>= λ contract.
          ok (some (record { provider = "stub"; contracts = contract ∷ [] })))
      else if not has_api_key
      then err missing_api_key
      else (fraud_explanation_contract "google_ai_studio" explanation_model 140 >>= λ first.
          fraud_explanation_contract "google_ai_studio" explanation_fallback_model 60 >>= λ second.
          ok (some (record { provider = "google_ai_studio"; contracts = first ∷ second ∷ [] })))

  unfoldable pub build_explanation_runtime :
      Option String → Bool → Result RuntimeError (Option ExplanationRuntime)
  unfolding selected_provider runtime_for
  build_explanation_runtime setting has_api_key =
      selected_provider setting >>= runtime_for has_api_key
