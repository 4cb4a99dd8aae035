-- ===== src/Retention.antt =====
-- app/services/data_retention.py and the interval of app/core/data_retention.py: the cleanup of expired
-- sessions and counters, and its heartbeat. A time is a number of seconds here; the heartbeat's file is
-- the time that it holds.
pub mod Fresh
mod Tests
use finshield_ai.Base.{
  Parsed, no_integer, negative, number, ℕ, suc, ◌+◌, ◌*◌, String, Bool, true, false, not, ◌&&◌,
  ◌||◌, Option, none, some, List, [], ◌∷◌, leb, ltb, ◌==◌, Result, ok, err, if◌then◌else◌,
}
use finshield_ai.OfficialSources.{string_eq}
use finshield_ai.Sessions.Store.{Sessions, cleanup_expired as cleanup_expired_sessions}
use finshield_ai.RateLimit.Store.{Counter, cleanup_expired as cleanup_expired_counters}

pub record RetentionRunSummary : Type 0 where
  pub expired_sessions : ℕ
  pub anonymous_users : ℕ
  pub financial_profiles : ℕ
  pub rate_limit_counters : ℕ
  pub executed : Bool

-- The two repositories.
pub record Stores : Type 0 where
  pub auth_sessions : Sessions
  pub rate_limits : List Counter

-- `RetentionRunner.run_once`, over the in-memory repositories.
unfoldable pub run_once : ℕ → Bool → Stores → RetentionRunSummary × Stores
run_once now execute stores =
    let (sessions, kept_sessions) = cleanup_expired_sessions now execute stores.auth_sessions in
    let (counters, kept_counters) = cleanup_expired_counters now execute stores.rate_limits in
    (
      record {
        expired_sessions = sessions.expired_sessions;
        anonymous_users = sessions.anonymous_users;
        financial_profiles = sessions.financial_profiles;
        rate_limit_counters = counters.counters;
        executed = execute;
      },
      record { auth_sessions = kept_sessions; rate_limits = kept_counters },
    )

-- What a run gave, or that it raised, the time of the heartbeat's clock, and whether the heartbeat's file
-- can be written: `mark_success` raises OSError where it cannot, and leaves the file as it was.
pub record Cycle : Type 0 where
  pub time : ℕ
  pub is_writable : Bool
  pub outcome : Result Unit RetentionRunSummary

pub record Scheduler : Type 0 where
  pub consecutive_failures : ℕ
  pub last_success : Option ℕ

-- `RetentionScheduler.run_cycle`, by the outcome of the run: the state that it leaves.
unfoldable pub run_cycle : ℕ → Bool → Result Unit RetentionRunSummary → Scheduler → Scheduler
run_cycle time is_writable (err e) scheduler = record {
  consecutive_failures = suc scheduler.consecutive_failures;
  last_success = scheduler.last_success;
}
run_cycle time is_writable (ok summary) scheduler = record {
  consecutive_failures = 0;
  last_success = if is_writable then some time else scheduler.last_success;
}

abbrev pub is_ok : Result Unit RetentionRunSummary → Bool
is_ok (ok summary) = true
is_ok (err e) = false

-- The OSError of `mark_success` is outside the `try` of `run_cycle`.
abbrev pub is_raised : Bool → Result Unit RetentionRunSummary → Bool
is_raised is_writable outcome = is_ok outcome && not is_writable

-- The cycles of `run_forever`, which ends where one raises.
unfoldable pub run_cycles : List Cycle → Scheduler → Scheduler
unfolding run_cycle
run_cycles [] scheduler = scheduler
run_cycles (cycle ∷ cycles) scheduler =
    let after = run_cycle cycle.time cycle.is_writable cycle.outcome scheduler in
    let rest = run_cycles cycles after in
    if is_raised cycle.is_writable cycle.outcome then after else rest

-- `RetentionHeartbeat.is_fresh`
unfoldable pub is_fresh : ℕ → ℕ → Option ℕ → Bool
is_fresh max_age now none = false
is_fresh max_age now (some recorded) = leb now (recorded + max_age)

-- `heartbeat_max_age_seconds`
unfoldable pub heartbeat_max_age_seconds : ℕ → ℕ
heartbeat_max_age_seconds interval_seconds = interval_seconds * 2 + 60

-- The causes of `RetentionConfigurationError` for the interval.
pub data IntervalError : Type 0 where
  not_an_integer out_of_bounds : IntervalError

unfoldable pub bounded_interval : Parsed → Result IntervalError ℕ
bounded_interval no_integer = err not_an_integer
bounded_interval negative = err out_of_bounds
bounded_interval (number interval) =
    if ltb interval 60 || ltb 86400 interval then err out_of_bounds else ok interval

-- `read_interval_seconds`, of a setting that is stripped; `to_int` is `int`.
unfoldable pub read_interval_seconds : (String → Parsed) → String → Result IntervalError ℕ
unfolding bounded_interval
read_interval_seconds to_int raw_value =
    if raw_value == "" then ok 3600 else bounded_interval (to_int raw_value)
