-- ===== src/RateLimit/Open.antt =====
-- When app/services/rate_limits.py lets a request through without counting it.
use finshield_ai.Base.{ℕ, String, ◌≡◌, refl, true, Option, none, some, List}
use finshield_ai.RateLimit.Policies.{RateLimitPolicy, select_policy}
use finshield_ai.RateLimit.Store.{RateLimitRepository}
use finshield_ai.RateLimit.Service.{Request, decide, check, check_under}

module _ (upper : String → String) (hexdigest : String → String → String) (secret : String)
    (policies : List RateLimitPolicy) where
  under-open :
      {S : Type 0} (repository : RateLimitRepository S) (request : Request) (state : S)
      → ((key : String) (start end_ : ℕ)
          → (repository.increment_hits key start end_ state).0 ≡ none)
      → (o : Option RateLimitPolicy)
      → ((check_under upper hexdigest secret policies repository request state o).0.allowed ≡ true)
        × ((check_under upper hexdigest secret policies repository request state o).0.policy ≡ o)
        × ((check_under upper hexdigest secret policies repository request state o).0.reset_at
            ≡ none)
  unfolding check_under decide
  under-open repository request state h none = (refl, refl, refl)
  under-open repository request state h (some p) = (rw h refl, rw h refl, rw h refl)

  -- While the repository's increment fails, every request is let through: the decision names the
  -- policy of the request, and no time of reset.
  pub check-open :
      {S : Type 0} (repository : RateLimitRepository S) (request : Request) (state : S)
      → ((key : String) (start end_ : ℕ)
          → (repository.increment_hits key start end_ state).0 ≡ none)
      → ((check upper hexdigest secret policies repository request state).0.allowed ≡ true)
        × ((check upper hexdigest secret policies repository request state).0.policy
            ≡ select_policy upper policies request.method request.path)
        × ((check upper hexdigest secret policies repository request state).0.reset_at ≡ none)
  unfolding check
  check-open repository request state h =
      under-open repository request state h
        (select_policy upper policies request.method request.path)
