-- ===== src/RateLimit/Policies.antt =====
-- app/services/rate_limits.py: the policies, and which one a request falls under. `upper` stands
-- for Python's `str.upper`.
use text.Mathlib.Text.{starts_with}
use finshield_ai.Base.{
  ℕ, String, ◌≡◌, refl, Bool, true, false, not, Option, none, some, List, [], ◌∷◌, ◌++◌, mem, all,
  ◌==◌, if◌then◌else◌, inl, inr, Bool-cases, ap,
}
use finshield_ai.OfficialSources.{string_eq}

pub record RateLimitPolicy : Type 0 where
  pub name : String
  pub limit : ℕ
  pub window_seconds : ℕ
  pub path_prefix : String
  pub methods : Option (List String)
  pub exact_path : Bool

-- `DEFAULT_POLICIES`
unfoldable pub default_policies : List RateLimitPolicy
default_policies =
    record {
      name = "auth_session";
      limit = 20;
      window_seconds = 3600;
      path_prefix = "/api/v1/auth/session";
      methods = some ("POST" ∷ []);
      exact_path = true;
    }
    ∷ record {
      name = "analyze_explanation";
      limit = 10;
      window_seconds = 60;
      path_prefix = "/api/v1/analyze/explanation";
      methods = some ("POST" ∷ []);
      exact_path = true;
    }
    ∷ record {
      name = "analyze";
      limit = 30;
      window_seconds = 60;
      path_prefix = "/api/v1/analyze";
      methods = some ("POST" ∷ []);
      exact_path = true;
    }
    ∷ record {
      name = "write";
      limit = 60;
      window_seconds = 60;
      path_prefix = "/api/v1/";
      methods = some ("POST" ∷ "PUT" ∷ "PATCH" ∷ "DELETE" ∷ []);
      exact_path = false;
    }
    ∷ record {
      name = "read";
      limit = 240;
      window_seconds = 60;
      path_prefix = "/api/v1/";
      methods = none;
      exact_path = false;
    }
    ∷ []

module _ (upper : String → String) where
  -- `self.methods is None or method.upper() in self.methods`
  unfoldable pub allows_method : RateLimitPolicy → String → Bool
  allows_method policy method = elim policy.methods [
    | none ↦ true
    | some methods ↦ mem (upper method) methods
  ]

  -- `RateLimitPolicy.matches`
  unfoldable pub matches : RateLimitPolicy → String → String → Bool
  unfolding allows_method
  matches policy method path =
      if not (allows_method policy method)
      then false
      else if policy.exact_path
      then path == policy.path_prefix
      else starts_with path policy.path_prefix

  unfoldable pub select_policy : List RateLimitPolicy → String → String → Option RateLimitPolicy
  select_policy [] method path = none
  select_policy (policy ∷ policies) method path =
      if matches policy method path then some policy else select_policy policies method path

  -- What the choice of a policy may be: the first that matches.
  abbrev pub IsFirstMatch : List RateLimitPolicy → String → String → Option RateLimitPolicy → Type 0
  IsFirstMatch policies method path none = all (λ p. not (matches p method path)) policies ≡ true
  IsFirstMatch policies method path (some policy) =
      (earlier : List RateLimitPolicy) × (later : List RateLimitPolicy) × (policies
        ≡ earlier ++ policy ∷ later)
      × (all (λ p. not (matches p method path)) earlier ≡ true)
      × (matches policy method path ≡ true)

  -- Of the policies in their order, a request falls under the first that matches it, and under none
  -- exactly if none matches.
  pub select_policy-IsFirstMatch :
      (policies : List RateLimitPolicy) (method path : String)
      → IsFirstMatch policies method path (select_policy policies method path)
  unfolding select_policy
  select_policy-IsFirstMatch [] method path = refl
  select_policy-IsFirstMatch (p ∷ policies) method path =
      elim (Bool-cases (matches p method path)) [
        | inl found ↦ rw found ([], policies, refl, refl, found)
        | inr passed ↦ rw passed (
            later p passed policies (select_policy policies method path)
              (select_policy-IsFirstMatch policies method path))
      ]
    where
      later :
          (p : RateLimitPolicy)
          → matches p method path ≡ false
          → (ps : List RateLimitPolicy) (o : Option RateLimitPolicy) → IsFirstMatch ps method path o
          → IsFirstMatch (p ∷ ps) method path o
      later p passed ps none h = rw passed h
      later p passed ps (some q) (earlier, rest, e, before, here) =
          (p ∷ earlier, rest, ap (λ xs. p ∷ xs) e, rw passed before, here)
