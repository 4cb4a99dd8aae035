-- ===== src/RateLimit/Cleanup.antt =====
-- The deletion of expired counters: app/repositories/rate_limits.py.
use finshield_ai.Base.{
  ℕ, ◌+◌, String, ◌≡◌, refl, Bool, true, false, not, ◌||◌, List, [], ◌∷◌, all, length, ltb, arith,
  Bool-cases, inl, inr,
}
use finshield_ai.RateLimit.Store.{
  Counter, has_key, hit_count_of, is_stale, select_counters, cleanup_expired,
}

kept_count :
    (now : ℕ) (k : String) (w : ℕ) (counters : List Counter)
    → all (λ c. not (has_key k w c) || ltb now c.window_end) counters ≡ true
    → hit_count_of k w (select_counters (λ c. not (is_stale now c)) counters)
      ≡ hit_count_of k w counters
unfolding hit_count_of select_counters
kept_count now k w [] h = refl
kept_count now k w (c ∷ counters) h = ground (arith, kept_count now k w counters)

kept_live :
    (now : ℕ) (counters : List Counter)
    → all (λ c. ltb now c.window_end) (select_counters (λ c. not (is_stale now c)) counters) ≡ true
unfolding select_counters
kept_live now [] = refl
kept_live now (c ∷ counters) = ground (arith, kept_live now counters)

parted_length :
    (p : Counter → Bool) (counters : List Counter)
    → length (select_counters p counters) + length (select_counters (λ c. not (p c)) counters)
      ≡ length counters
unfolding select_counters
parted_length p [] = ground arith
parted_length p (c ∷ counters) = elim (Bool-cases (p c)) [
  | inl e ↦ rw e (ground (arith, parted_length p counters))
  | inr e ↦ rw e (ground (arith, parted_length p counters))
]

-- What a cleanup at a time leaves of the counters, with the number it reports, for a bucket and window.
pub record IsCleaned (now : ℕ) (counters : List Counter) (reported : ℕ) (left : List Counter)
    (k : String) (w : ℕ) : Type 0 where
  -- The window of each counter that is left ends after the time.
  pub live : all (λ c. ltb now c.window_end) left ≡ true
  pub kept : hit_count_of k w left ≡ hit_count_of k w counters
  pub counted : reported + length left ≡ length counters

-- A cleanup that is executed leaves only counters whose window ends after the time, keeps the count of a
-- bucket and window all of whose counters end after it, and reports how many counters went. One that is
-- not executed reports the same number and deletes none.
pub cleanup_expired-IsCleaned :
    (now : ℕ) (counters : List Counter) (k : String) (w : ℕ)
    → all (λ c. not (has_key k w c) || ltb now c.window_end) counters ≡ true
    → IsCleaned now counters
        (cleanup_expired now true counters).0.counters
        (cleanup_expired now true counters).1
        k
        w
      × ((cleanup_expired now false counters).0.counters
          ≡ (cleanup_expired now true counters).0.counters)
      × ((cleanup_expired now false counters).1 ≡ counters)
unfolding cleanup_expired
cleanup_expired-IsCleaned now counters k w h = (
  record {
    live = kept_live now counters;
    kept = kept_count now k w counters h;
    counted = parted_length (is_stale now) counters;
  },
  refl,
  refl,
)
