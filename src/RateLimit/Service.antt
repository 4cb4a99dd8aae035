-- ===== src/RateLimit/Service.antt =====
-- app/services/rate_limits.py: the decision on a request. `upper` stands for Python's `str.upper`,
-- and `hexdigest` for `hmac.new(secret, message, sha256).hexdigest()`.
use finshield_ai.Base.{
  ℕ, ◌+◌, ◌-◌, ◌*◌, ◌/◌, ◌%◌, max, String, concat, Bool, true, Option, none, some, List, [], ◌∷◌,
  leb, ◌==◌, if◌then◌else◌,
}
use finshield_ai.OfficialSources.{string_eq}
use finshield_ai.RateLimit.Policies.{RateLimitPolicy, select_policy}
use finshield_ai.RateLimit.Store.{RateLimitRepository}

pub record RateLimitDecision : Type 0 where
  pub allowed : Bool
  pub policy : Option RateLimitPolicy
  pub remaining : ℕ
  pub retry_after_seconds : ℕ
  pub reset_at : Option ℕ

-- What `check` is asked, and the time of its clock.
pub record Request : Type 0 where
  pub method : String
  pub path : String
  pub client_ip : Option String
  pub now : ℕ

abbrev pub microseconds : ℕ
microseconds = 1000000

-- `_floor_to_window`
unfoldable pub floor_to_window : ℕ → ℕ → ℕ
floor_to_window value window_seconds =
    let epoch_seconds = value / microseconds in
    (epoch_seconds - epoch_seconds % window_seconds) * microseconds

-- `client_ip or UNIDENTIFIED_CLIENT`
unfoldable pub identity_of : Option String → String
identity_of none = "unidentified"
identity_of (some client_ip) = if client_ip == "" then "unidentified" else client_ip

unfoldable pub window_end_of : ℕ → RateLimitPolicy → ℕ
window_end_of now policy =
    floor_to_window now policy.window_seconds + policy.window_seconds * microseconds

-- The decision, by what the repository answered.
unfoldable pub decide : ℕ → RateLimitPolicy → Option ℕ → RateLimitDecision
decide now policy none = record {
  allowed = true;
  policy = some policy;
  remaining = 0;
  retry_after_seconds = 0;
  reset_at = none;
}
decide now policy (some hit_count) = record {
  allowed = leb hit_count policy.limit;
  policy = some policy;
  remaining = policy.limit - hit_count;
  retry_after_seconds = max ((window_end_of now policy - now) / microseconds) 1;
  reset_at = some (window_end_of now policy);
}

module _ (upper : String → String) (hexdigest : String → String → String) (secret : String)
    (policies : List RateLimitPolicy) where
  -- `_bucket_key`
  unfoldable pub bucket_key : RateLimitPolicy → Option String → String
  bucket_key policy client_ip =
      hexdigest secret (concat (policy.name ∷ "|" ∷ identity_of client_ip ∷ []))

  -- The rest of `check`, once the policy is chosen.
  unfoldable pub check_under :
      {S : Type 0}
      → RateLimitRepository S
      → Request
      → S
      → Option RateLimitPolicy
      → RateLimitDecision × S
  check_under repository request state none = (
    record {
      allowed = true;
      policy = none;
      remaining = 0;
      retry_after_seconds = 0;
      reset_at = none;
    },
    state,
  )
  check_under repository request state (some policy) =
      let (hits, after) =
        repository.increment_hits (bucket_key policy request.client_ip)
          (floor_to_window request.now policy.window_seconds) (window_end_of request.now policy)
          state in
      (decide request.now policy hits, after)

  -- `RateLimitService.check`, with the state of the repository.
  unfoldable pub check : {S : Type 0} → RateLimitRepository S → Request → S → RateLimitDecision × S
  check repository request state =
      check_under repository request state
        (select_policy upper policies request.method request.path)
