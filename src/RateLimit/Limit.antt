-- ===== src/RateLimit/Limit.antt =====
-- How many requests app/services/rate_limits.py lets through, with the counters in memory.
use finshield_ai.Base.{
  ℕ, suc, ◌+◌, ◌-◌, String, ◌≡◌, refl, Bool, true, false, ◌&&◌, Option, none, some, List, [], ◌∷◌,
  leb, nat_beq, ◌==◌, if◌then◌else◌, arith, nat_beq_iff, ltb, ap₂, Bool-cases, inl, inr,
}
use finshield_ai.OfficialSources.{string_eq}
use finshield_ai.RateLimit.Policies.{RateLimitPolicy, select_policy}
use finshield_ai.RateLimit.Store.{Counter, has_key, hit_count_of, set_counter, increment, in_memory}
use finshield_ai.RateLimit.Service.{
  Request, floor_to_window, decide, bucket_key, check, check_under,
}

hit_count_of-set_counter :
    (k : String) (w : ℕ) (new : Counter) (counters : List Counter)
    → hit_count_of k w (set_counter new counters)
      ≡ (if has_key k w new then new.hit_count else hit_count_of k w counters)
unfolding hit_count_of set_counter
hit_count_of-set_counter k w new [] = refl
hit_count_of-set_counter k w new (c ∷ counters) = ground (
  arith,
  hit_count_of-set_counter k w new counters,
  string_eq.beq_iff c.bucket_key k,
  string_eq.beq_iff new.bucket_key k,
  string_eq.beq_iff c.bucket_key new.bucket_key,
  nat_beq_iff c.window_start w,
  nat_beq_iff new.window_start w,
  nat_beq_iff c.window_start new.window_start,
)

own_count :
    (k : String) (w : ℕ) (key : String) (start : ℕ) (counters : List Counter)
    → (if key == k && nat_beq start w
        then hit_count_of key start counters + 1
        else hit_count_of k w counters)
      ≡ (if key == k && nat_beq start w
          then suc (hit_count_of k w counters)
          else hit_count_of k w counters)
own_count k w key start counters = elim (Bool-cases (key == k && nat_beq start w)) [
  | inl own ↦
      rw (own, ap₂ (λ a b. hit_count_of a b counters) (same_key own) (same_start own))
        (ground arith)
  | inr other ↦ rw other refl
]
  where
    same_key : (key == k && nat_beq start w) ≡ true → key ≡ k
    same_key h = ground (arith, string_eq.beq_iff key k)

    same_start : (key == k && nat_beq start w) ≡ true → start ≡ w
    same_start h = ground arith

allowed_below : (n limit : ℕ) → leb (n + 0 + 1) limit ≡ ltb n limit
allowed_below n limit = ground arith

left_over : (n limit : ℕ) → limit - (n + 0 + 1) ≡ limit - suc n
left_over n limit = omega arith

module _ (upper : String → String) (hexdigest : String → String → String) (secret : String)
    (policies : List RateLimitPolicy) where
  -- A request under the policy is counted in the bucket and the window.
  abbrev pub counts_in : String → ℕ → Request → Option RateLimitPolicy → Bool
  counts_in k w request none = false
  counts_in k w request (some p) =
      bucket_key upper hexdigest secret policies p request.client_ip == k
      && nat_beq (floor_to_window request.now p.window_seconds) w

  -- The request is counted there.
  abbrev pub falls_in : String → ℕ → Request → Bool
  falls_in k w request =
      counts_in k w request (select_policy upper policies request.method request.path)

  -- How many of the requests are counted there.
  abbrev pub count_in : String → ℕ → List Request → ℕ
  count_in k w [] = 0
  count_in k w (r ∷ requests) =
      let rest = count_in k w requests in if falls_in k w r then suc rest else rest

  -- The counters after the requests, one after the other.
  abbrev pub serve : List Request → List Counter → List Counter
  serve [] counters = counters
  serve (r ∷ requests) counters =
      serve requests (check upper hexdigest secret policies in_memory r counters).1

  hit_count_of-check_under :
      (k : String) (w : ℕ) (r : Request) (counters : List Counter) (o : Option RateLimitPolicy)
      → hit_count_of k w (check_under upper hexdigest secret policies in_memory r counters o).1
        ≡ (if counts_in k w r o then suc (hit_count_of k w counters) else hit_count_of k w counters)
  unfolding check_under increment
  hit_count_of-check_under k w r counters none = refl
  hit_count_of-check_under k w r counters (some p) = rw hit_count_of-set_counter (
      own_count k w (bucket_key upper hexdigest secret policies p r.client_ip)
        (floor_to_window r.now p.window_seconds) counters)

  -- One request adds one to its own bucket and window, and nothing to the others.
  hit_count_of-check :
      (k : String) (w : ℕ) (r : Request) (counters : List Counter)
      → hit_count_of k w (check upper hexdigest secret policies in_memory r counters).1
        ≡ (if falls_in k w r then suc (hit_count_of k w counters) else hit_count_of k w counters)
  unfolding check
  hit_count_of-check k w r counters =
      hit_count_of-check_under k w r counters (select_policy upper policies r.method r.path)

  hit_count_of-serve :
      (k : String) (w : ℕ) (requests : List Request) (counters : List Counter)
      → hit_count_of k w (serve requests counters)
        ≡ count_in k w requests + hit_count_of k w counters
  hit_count_of-serve k w [] counters = ground arith
  hit_count_of-serve k w (r ∷ requests) counters = ground (
    arith,
    hit_count_of-serve k w requests (check upper hexdigest secret policies in_memory r counters).1,
    hit_count_of-check k w r counters,
  )

  -- With the counters in memory, after any sequence of requests, a further request that falls under a
  -- policy is let through exactly if fewer than the policy's limit of the earlier ones were counted
  -- in the same bucket and the same window, and the remaining count is what the limit then leaves.
  pub check-limit :
      (requests : List Request) (r : Request) (p : RateLimitPolicy)
      → select_policy upper policies r.method r.path ≡ some p
      → ((check upper hexdigest secret policies in_memory r (serve requests [])).0.allowed
          ≡ ltb
              (count_in
                (bucket_key upper hexdigest secret policies p r.client_ip)
                (floor_to_window r.now p.window_seconds)
                requests)
              p.limit)
        × ((check upper hexdigest secret policies in_memory r (serve requests [])).0.remaining
            ≡ p.limit
              - suc (
                  count_in
                    (bucket_key upper hexdigest secret policies p r.client_ip)
                    (floor_to_window r.now p.window_seconds)
                    requests))
  unfolding check check_under increment decide hit_count_of
  check-limit requests r p e =
      let earlier =
        hit_count_of-serve (bucket_key upper hexdigest secret policies p r.client_ip)
          (floor_to_window r.now p.window_seconds) requests [] in
      (rw (e, earlier) (allowed_below _ p.limit), rw (e, earlier) (left_over _ p.limit))
