-- ===== src/ClientIdentity.antt =====
-- app/core/client_identity.py: whose request it is. A text is the list of its characters; `str.strip`,
-- `int` of a text and `str(ipaddress.ip_address(_))` are parameters, `none` standing for a ValueError.
pub mod Forged
mod Tests
use Prim.Native.Char.{Char, code}
use finshield_ai.Base.{
  Parsed, no_integer, negative, number, ℕ, zero, suc, ◌-◌, String, Bool, true, false, not, ◌&&◌,
  ◌||◌, Option, none, some, List, [], ◌∷◌, ◌++◌, map, is_empty, length, ltb, nat_beq, ◌==◌, mem,
  Result, ok, err, ◌>>=◌, raise_if, if◌then◌else◌,
}
use finshield_ai.OfficialSources.{string_eq}
use finshield_ai.Explanation.Untrusted.Spans.{Text, chars}

-- The causes of `ClientIdentityConfigurationError`.
pub data IdentityError : Type 0 where
  not_an_integer out_of_bounds hops_not_set : IdentityError

-- `int(raw_value)` within the bounds
unfoldable pub bounded_hops : Parsed → Result IdentityError ℕ
bounded_hops no_integer = err not_an_integer
bounded_hops negative = err out_of_bounds
bounded_hops (number hops) = if ltb 8 hops then err out_of_bounds else ok hops

unfoldable pub setting_or : String → Option String → String
setting_or default none = default
setting_or default (some value) = value

abbrev pub is_set : Option String → Bool
is_set none = false
is_set (some _) = true

-- `read_trusted_proxy_hops`; `to_int` is `int(_.strip())`.
unfoldable pub read_trusted_proxy_hops : (String → Parsed) → Option String → Result IdentityError ℕ
unfolding bounded_hops setting_or
read_trusted_proxy_hops to_int setting = bounded_hops (to_int (setting_or "0" setting))

-- `verify_client_identity_configuration`; `strip_lower` is `.strip().lower()`.
unfoldable pub verify_client_identity_configuration :
    (String → Parsed)
    → (String → String)
    → Option String
    → Option String
    → Result IdentityError Unit
unfolding read_trusted_proxy_hops setting_or
verify_client_identity_configuration to_int strip_lower setting app_env =
    read_trusted_proxy_hops to_int setting >>= λ hops.
    raise_if
      (not (mem (strip_lower (setting_or "development" app_env)) ("development" ∷ "test" ∷ []))
        && not (is_set setting))
      hops_not_set

-- One more character at the start of the first part.
unfoldable pub prefix_first : Char → List Text → List Text
prefix_first c [] = (c ∷ []) ∷ []
prefix_first c (part ∷ parts) = (c ∷ part) ∷ parts

-- `text.split(",")`
unfoldable pub split_commas : Text → List Text
unfolding prefix_first
split_commas [] = [] ∷ []
split_commas (c ∷ text) =
    let rest = split_commas text in if nat_beq (code c) 44 then [] ∷ rest else prefix_first c rest

-- `value.partition(separator)[0]`
unfoldable pub before : ℕ → Text → Text
before separator [] = []
before separator (c ∷ text) =
    let rest = before separator text in if nat_beq (code c) separator then [] else c ∷ rest

-- `value.count(character)`
unfoldable pub count_char : ℕ → Text → ℕ
count_char n [] = 0
count_char n (c ∷ text) =
    let rest = count_char n text in if nat_beq (code c) n then suc rest else rest

-- What is left of an address in brackets or with a port.
unfoldable pub without_port : Text → Text
unfolding before count_char
without_port [] = []
without_port (c ∷ value) =
    if nat_beq (code c) 91
    then before 93 value
    else if nat_beq (count_char 58 (c ∷ value)) 1
    then before 58 (c ∷ value)
    else c ∷ value

-- `chain[i]`
unfoldable pub entry_at : ℕ → List Text → Text
entry_at n [] = []
entry_at zero (entry ∷ chain) = entry
entry_at (suc n) (entry ∷ chain) = entry_at n chain

-- The part of the ASGI scope that is read; a header is a name with a decoded value.
pub record Scope : Type 0 where
  pub headers : List (String × Text)
  pub client : Option Text

module _ (strip : Text → Text) (ip_address : Text → Option Text) where
  -- `_clean_ip`
  unfoldable pub clean_ip : Text → Option Text
  unfolding without_port
  clean_ip raw =
      let value = strip raw in if is_empty value then none else ip_address (without_port value)

  -- `_peer_ip`
  unfoldable pub peer_ip : Option Text → Option Text
  peer_ip none = none
  peer_ip (some host) = clean_ip host

  -- `[entry.strip() for entry in entries if entry.strip()]`
  unfoldable pub stripped : List Text → List Text
  stripped [] = []
  stripped (entry ∷ entries) =
      let rest = stripped entries in if is_empty (strip entry) then rest else strip entry ∷ rest

  -- The entries of the headers with that name, in their order.
  unfoldable pub forwarded_entries : List (String × Text) → List Text
  unfolding split_commas
  forwarded_entries [] = []
  forwarded_entries ((key, value) ∷ headers) =
      let rest = forwarded_entries headers in
      if not (key == "x-forwarded-for") then rest else split_commas value ++ rest

  -- `_forwarded_chain`
  unfoldable pub forwarded_chain : List (String × Text) → List Text
  forwarded_chain headers = stripped (forwarded_entries headers)

  -- `resolve_client_ip` by the number of hops that are trusted
  unfoldable pub resolve_by_hops : ℕ → Scope → Option Text
  unfolding entry_at
  resolve_by_hops hops scope =
      let chain = forwarded_chain scope.headers in
      if nat_beq hops 0
      then peer_ip scope.client
      else if ltb (length chain) hops
      then peer_ip scope.client
      else clean_ip (entry_at (length chain - hops) chain)

  unfoldable pub resolve_client_ip :
      (String → Parsed) → Option String → Scope → Result IdentityError (Option Text)
  resolve_client_ip to_int setting scope =
      read_trusted_proxy_hops to_int setting >>= λ hops. ok (resolve_by_hops hops scope)
