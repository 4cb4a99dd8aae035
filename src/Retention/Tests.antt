-- ===== src/Retention/Tests.antt =====
-- A cycle that succeeded and one that failed after it, and the theorem at them.
use finshield_ai.Base.{◌+◌, ◌≡◌, true, ◌&&◌, none, List, [], ◌∷◌, any, leb, ok, err, arith}
use finshield_ai.Retention.{Cycle, RetentionRunSummary, run_cycles, is_fresh}
use finshield_ai.Retention.Fresh.{is_noted, made, is_fresh-run_cycles}

abbrev summary : RetentionRunSummary
summary = record {
  expired_sessions = 1;
  anonymous_users = 1;
  financial_profiles = 0;
  rate_limit_counters = 2;
  executed = true;
}

abbrev cycles : List Cycle
cycles =
    record { time = 100; is_writable = true; outcome = ok summary }
    ∷ record { time = 3700; is_writable = true; outcome = err tt }
    ∷ []

is_fresh-run_cycles_example :
    is_fresh 7260 7000
      (run_cycles cycles (record { consecutive_failures = 0; last_success = none })).last_success
    ≡ any (λ c. is_noted c && leb 7000 (c.time + 7260)) (made cycles)
is_fresh-run_cycles_example =
    is_fresh-run_cycles 7260 7000 0 cycles (omega arith, (omega arith, tt))
