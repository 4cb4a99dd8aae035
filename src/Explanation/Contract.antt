-- ===== src/Explanation/Contract.antt =====
-- app/services/llm/contract.py: what is asked of which model. A number of seconds is counted in tenths
-- and a temperature in tenths; `str.strip` and the sha256 of a text are parameters.
use Prim.Native.Char.{Char}
use finshield_ai.Base.{
  ℕ, String, Bool, not, ◌&&◌, ◌||◌, List, [], ◌∷◌, any, all, length, leb, ltb, nat_beq, ◌==◌, mem,
  Result, raise_if, ◌>>◌,
}
use finshield_ai.OfficialSources.{string_eq}
use finshield_ai.Explanation.Untrusted.Spans.{chars, starts}

-- `KNOWN_PROVIDERS`
abbrev pub known_providers : List String
known_providers = "google_ai_studio" ∷ "google_vertex" ∷ "stub" ∷ []

-- `MAX_ALLOWED_INPUT_CHARS`
abbrev pub max_allowed_input_chars : ℕ
max_allowed_input_chars = 10000

-- The causes of `LlmContractError`.
pub data ContractError : Type 0 where
  unknown_provider empty_model empty_prompt_id bad_prompt_sha256 : ContractError
  bad_max_input_chars bad_timeout bad_temperature prompt_mismatch : ContractError

pub record LlmContract : Type 0 where
  pub provider : String
  pub model : String
  pub prompt_id : String
  pub prompt_sha256 : String
  pub max_input_chars : ℕ
  pub timeout_tenths : ℕ
  pub temperature_tenths : ℕ

-- `character in "0123456789abcdef"`
unfoldable pub is_hex : Char → Bool
is_hex c = any (λ d. starts (c ∷ []) (d ∷ [])) (chars "0123456789abcdef")

-- `__post_init__`
unfoldable pub post_init : (String → String) → LlmContract → Result ContractError Unit
post_init strip contract =
    raise_if (not (mem contract.provider known_providers)) ContractError.unknown_provider
    >> raise_if (strip contract.model == "") ContractError.empty_model
    >> raise_if (strip contract.prompt_id == "") ContractError.empty_prompt_id
    >> raise_if
        (not (nat_beq (length (chars contract.prompt_sha256)) 64)
          || not (all is_hex (chars contract.prompt_sha256)))
        ContractError.bad_prompt_sha256
    >> raise_if
        (not
          (ltb 0 contract.max_input_chars && leb contract.max_input_chars max_allowed_input_chars))
        ContractError.bad_max_input_chars
    >> raise_if (not (ltb 0 contract.timeout_tenths && leb contract.timeout_tenths 300))
        ContractError.bad_timeout
    >> raise_if (not (leb contract.temperature_tenths 10)) ContractError.bad_temperature

-- `verify_prompt`
unfoldable pub verify_prompt : (String → String) → LlmContract → String → Result ContractError Unit
verify_prompt sha256 contract prompt_template =
    raise_if (not (sha256 prompt_template == contract.prompt_sha256)) ContractError.prompt_mismatch
