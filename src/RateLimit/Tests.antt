-- ===== src/RateLimit/Tests.antt =====
-- The rate limits at concrete inputs.
use finshield_ai.Base.{
  List, ℕ, suc, ◌+◌, ◌-◌, ◌≤◌, ◌<◌, String, ◌≡◌, refl, Bool, true, false, none, some, [], ◌∷◌, ltb,
  arith,
}
use finshield_ai.RateLimit.Policies.{RateLimitPolicy, default_policies, select_policy, matches}
use finshield_ai.RateLimit.Store.{Counter, RateLimitRepository, in_memory, cleanup_expired}
use finshield_ai.RateLimit.Service.{
  Request, floor_to_window, window_end_of, decide, bucket_key, check,
}
use finshield_ai.RateLimit.Limit.{count_in, serve, check-limit}
use finshield_ai.RateLimit.Window.{decide-retry_after}
use finshield_ai.RateLimit.Cleanup.{IsCleaned, cleanup_expired-IsCleaned}

abbrev same : String → String
same s = s

abbrev message_of : String → String → String
message_of secret message = message

-- One request in ten seconds.
abbrev small : RateLimitPolicy
small = record {
  name = "small";
  limit = 1;
  window_seconds = 10;
  path_prefix = "/a";
  methods = none;
  exact_path = true;
}

abbrev request_at : ℕ → Request
request_at now = record { method = "GET"; path = "/a"; client_ip = some "10.0.0.1"; now = now }

abbrev counter_at : ℕ → Counter
counter_at start = record {
  bucket_key = "k";
  window_start = start;
  window_end = start + 10;
  hit_count = 3;
}

-- A repository that is down.
abbrev broken : RateLimitRepository Bool
broken = record { increment_hits = λ key start stop state. (none, state) }

health_is_free : select_policy same default_policies "GET" "/health" ≡ none
unfolding select_policy matches default_policies
health_is_free = refl

small_is_selected : select_policy same (small ∷ []) "GET" "/a" ≡ some small
unfolding select_policy matches
small_is_selected = refl

check-limit_example :
    ((check same message_of "s"
        (small ∷ [])
        in_memory
        (request_at 13000000)
        (serve same message_of "s" (small ∷ []) (request_at 12000000 ∷ []) [])).0.allowed
      ≡ ltb
          (count_in same message_of "s"
            (small ∷ [])
            (bucket_key same message_of "s" (small ∷ []) small (some "10.0.0.1"))
            (floor_to_window 13000000 10)
            (request_at 12000000 ∷ []))
          1)
    × ((check same message_of "s"
          (small ∷ [])
          in_memory
          (request_at 13000000)
          (serve same message_of "s" (small ∷ []) (request_at 12000000 ∷ []) [])).0.remaining
        ≡ 1
          - suc (
              count_in same message_of "s"
                (small ∷ [])
                (bucket_key same message_of "s" (small ∷ []) small (some "10.0.0.1"))
                (floor_to_window 13000000 10)
                (request_at 12000000 ∷ [])))
check-limit_example =
    check-limit same message_of "s" (small ∷ []) (request_at 12000000 ∷ []) (request_at 13000000)
      small small_is_selected

decide-retry_after_example :
    (floor_to_window 13000000 10 ≤ 13000000)
    × (13000000 < window_end_of 13000000 small)
    × (1 ≤ (decide 13000000 small (some 2)).retry_after_seconds)
    × ((decide 13000000 small (some 2)).retry_after_seconds ≤ 10)
decide-retry_after_example = decide-retry_after 13000000 small 2 (omega arith)

abbrev two_counters : List Counter
two_counters = counter_at 10 ∷ counter_at 20 ∷ []

cleanup_expired-IsCleaned_example :
    IsCleaned 25 two_counters
      (cleanup_expired 25 true two_counters).0.counters
      (cleanup_expired 25 true two_counters).1
      "k"
      20
    × ((cleanup_expired 25 false two_counters).0.counters
        ≡ (cleanup_expired 25 true two_counters).0.counters)
    × ((cleanup_expired 25 false two_counters).1 ≡ two_counters)
cleanup_expired-IsCleaned_example = cleanup_expired-IsCleaned 25 two_counters "k" 20 refl

broken_fails :
    (key : String) (start stop : ℕ) → (broken.increment_hits key start stop true).0 ≡ none
broken_fails key start stop = refl
