-- ===== src/RateLimit/Store.antt =====
-- The counters: `InMemoryRateLimitRepository` of app/repositories/rate_limits.py. A time is the
-- number of microseconds since the epoch, in UTC. What the service asks of any repository is the
-- record at the end.
use finshield_ai.Base.{
  ℕ, ◌+◌, String, Bool, ◌&&◌, not, Option, some, List, [], ◌∷◌, length, leb, nat_beq, ◌==◌,
  if◌then◌else◌,
}
use finshield_ai.OfficialSources.{string_eq}

-- A counter: its key `(bucket_key, window_start)`, and its value `(window_end, hit_count)`.
pub record Counter : Type 0 where
  pub bucket_key : String
  pub window_start : ℕ
  pub window_end : ℕ
  pub hit_count : ℕ

abbrev pub has_key : String → ℕ → Counter → Bool
has_key bucket_key window_start c =
    c.bucket_key == bucket_key && nat_beq c.window_start window_start

-- The count in `self._counters.get(key, (window_end, 0))`.
unfoldable pub hit_count_of : String → ℕ → List Counter → ℕ
hit_count_of bucket_key window_start [] = 0
hit_count_of bucket_key window_start (c ∷ counters) =
    if has_key bucket_key window_start c
    then c.hit_count
    else hit_count_of bucket_key window_start counters

-- `self._counters[key] = (window_end, count)`: in its place, or at the end.
unfoldable pub set_counter : Counter → List Counter → List Counter
set_counter new [] = new ∷ []
set_counter new (c ∷ counters) =
    let rest = set_counter new counters in
    if has_key new.bucket_key new.window_start c then new ∷ counters else c ∷ rest

unfoldable pub increment : String → ℕ → ℕ → List Counter → ℕ × List Counter
increment bucket_key window_start window_end counters =
    let count = hit_count_of bucket_key window_start counters + 1 in
    (
      count,
      set_counter
          (record {
            bucket_key = bucket_key;
            window_start = window_start;
            window_end = window_end;
            hit_count = count;
          })
          counters,
    )

-- `window_end <= now`
abbrev pub is_stale : ℕ → Counter → Bool
is_stale now c = leb c.window_end now

-- The counters whose test is passed, in their order.
unfoldable pub select_counters : (Counter → Bool) → List Counter → List Counter
select_counters p [] = []
select_counters p (c ∷ counters) =
    let rest = select_counters p counters in if p c then c ∷ rest else rest

pub record RateLimitCleanupSummary : Type 0 where
  pub counters : ℕ
  pub executed : Bool

unfoldable pub cleanup_expired : ℕ → Bool → List Counter → RateLimitCleanupSummary × List Counter
cleanup_expired now execute counters =
    let stale = select_counters (is_stale now) counters in
    let kept = select_counters (λ c. not (is_stale now c)) counters in
    (record { counters = length stale; executed = execute }, if execute then kept else counters)

-- What the service asks of a repository: the count after an increment, or RateLimitStorageError,
-- with the state after the call.
pub record RateLimitRepository (S : Type 0) : Type 0 where
  pub increment_hits : String → ℕ → ℕ → S → Option ℕ × S

abbrev pub in_memory : RateLimitRepository (List Counter)
in_memory = record {
  increment_hits = λ bucket_key window_start window_end counters.
      let (count, after) = increment bucket_key window_start window_end counters in
      (some count, after);
}
