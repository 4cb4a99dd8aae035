-- ===== src/Retention/Fresh.antt =====
-- The health check of app/services/data_retention.py: whether a cleanup has succeeded lately.
use finshield_ai.Base.{
  ℕ, ◌+◌, ◌≤◌, ◌≡◌, refl, Bool, true, false, if◌then◌else◌, ◌&&◌, ◌||◌, Option, none, some, List,
  [], ◌∷◌, any, leb, Result, ok, err, ◌∙◌, or-false, arith,
}
use finshield_ai.Retention.{
  Cycle, RetentionRunSummary, Scheduler, run_cycle, run_cycles, is_fresh, is_ok, is_raised,
}

-- The times of the cycles do not go back.
abbrev pub InTime : ℕ → List Cycle → Type 0
InTime start [] = Unit
InTime start (cycle ∷ cycles) = (start ≤ cycle.time) × InTime cycle.time cycles

-- The last success is not later than a time.
abbrev pub IsBefore : Option ℕ → ℕ → Type 0
IsBefore none time = Unit
IsBefore (some last) time = last ≤ time

IsBefore-trans : (o : Option ℕ) (s t : ℕ) → IsBefore o s → s ≤ t → IsBefore o t
IsBefore-trans none s t h k = tt
IsBefore-trans (some last) s t h k = omega arith

newer :
    (o : Option ℕ) (time now max_age : ℕ) (rest : Bool)
    → IsBefore o time
    → (rest || is_fresh max_age now (some time))
      ≡ ((leb now (time + max_age) || rest) || is_fresh max_age now o)
unfolding is_fresh
newer none time now max_age rest h = ground arith
newer (some last) time now max_age rest h = ground arith

-- A run that succeeded and was noted.
abbrev pub is_noted : Cycle → Bool
is_noted cycle = is_ok cycle.outcome && cycle.is_writable

-- The cycles up to the first that raises.
unfoldable pub made : List Cycle → List Cycle
made [] = []
made (cycle ∷ cycles) =
    let rest = made cycles in
    if is_raised cycle.is_writable cycle.outcome then cycle ∷ [] else cycle ∷ rest

abbrev is_noted_within : ℕ → ℕ → Cycle → Bool
is_noted_within max_age now c = is_noted c && leb now (c.time + max_age)

by_outcome :
    (max_age now time : ℕ) (is_writable : Bool) (outcome : Result Unit RetentionRunSummary)
    (cycles : List Cycle) (scheduler : Scheduler)
    → IsBefore scheduler.last_success time
    → (IsBefore (run_cycle time is_writable outcome scheduler).last_success time
        → is_fresh max_age now
            (run_cycles cycles (run_cycle time is_writable outcome scheduler)).last_success
          ≡ (any (is_noted_within max_age now) (made cycles)
              || is_fresh max_age now (run_cycle time is_writable outcome scheduler).last_success))
    → is_fresh max_age now
        (run_cycles
          (record { time = time; is_writable = is_writable; outcome = outcome } ∷ cycles)
          scheduler).last_success
      ≡ (any
            (is_noted_within max_age now)
            (made (record { time = time; is_writable = is_writable; outcome = outcome } ∷ cycles))
          || is_fresh max_age now scheduler.last_success)
unfolding run_cycles run_cycle made
by_outcome max_age now time true (ok summary) cycles scheduler b h =
    h (omega arith) ∙ newer scheduler.last_success time now max_age _ b
by_outcome max_age now time false (ok summary) cycles scheduler b h = refl
by_outcome max_age now time is_writable (err e) cycles scheduler b h = h b

fresh_from :
    (max_age now start : ℕ) (cycles : List Cycle) (scheduler : Scheduler)
    → InTime start cycles
    → IsBefore scheduler.last_success start
    → is_fresh max_age now (run_cycles cycles scheduler).last_success ≡ (
        any (is_noted_within max_age now) (made cycles)
        || is_fresh max_age now scheduler.last_success)
unfolding run_cycles made
fresh_from max_age now start [] scheduler h b = refl
fresh_from max_age now start (cycle ∷ cycles) scheduler h b =
    by_outcome max_age now cycle.time cycle.is_writable cycle.outcome cycles scheduler
      (IsBefore-trans _ _ _ b h.0)
      (fresh_from max_age now cycle.time cycles
        (run_cycle cycle.time cycle.is_writable cycle.outcome scheduler) h.1)

-- The health check passes exactly when one of the cycles since the start, up to the first that could not
-- write its heartbeat, has succeeded and was noted within the maximal age: cycles that keep failing are
-- not taken for a success.
pub is_fresh-run_cycles :
    (max_age now start : ℕ) (cycles : List Cycle)
    → InTime start cycles
    → is_fresh max_age now
        (run_cycles cycles (record { consecutive_failures = 0; last_success = none })).last_success
      ≡ any (λ c. is_noted c && leb now (c.time + max_age)) (made cycles)
unfolding is_fresh
is_fresh-run_cycles max_age now start cycles h =
    fresh_from max_age now start cycles (record { consecutive_failures = 0; last_success = none }) h
      tt
    ∙ or-false (any (is_noted_within max_age now) (made cycles))
