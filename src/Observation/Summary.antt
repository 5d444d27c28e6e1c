-- ===== src/Observation/Summary.antt =====
-- internal/observation/summary.go: the bounded summary of the evidence for one key.
pub mod Streak
pub mod Permutation
pub mod Bounds
use mathlib.Core.List.{reverse}
use egressfox.Base.{
  ℕ, ◌+◌, ◌-◌, ◌/◌, Bool, true, false, not, ◌||◌, Option, none, some, List, [], ◌∷◌, ltb, leb, ◌==◌,
  ℤ, pos, pos_part, leb_ℤ, length, Result, ok, err, fail_if, ◌>>=◌, ◌>>◌, if◌then◌else◌,
}
use egressfox.Base.Bytes.{
  Sign, below, same, above, compare_byte, compare_bytes, is_below, then_sign,
}
use egressfox.Base.Sort.{sort}
use egressfox.Observation.{Observation, successful, zero_time}
use egressfox.Observation.Keys.{Key, new_key, same_key}

-- The exact quotient that SuccessRatio rounds to a float64.
pub record Ratio : Type 0 where
  pub numerator : ℕ
  pub denominator : ℕ

pub record Summary : Type 0 where
  pub key : Key
  pub samples : ℕ
  pub successes : ℕ
  pub success_ratio : Ratio
  pub latest : Option Observation
  pub latest_success : Option Observation
  pub mean_success_duration : ℕ
  pub consecutive_successes : ℕ
  pub consecutive_failures : ℕ
  pub fresh : Bool

pub data SummaryError : Type 0 where
  invalid_key time_bounds different_key : SummaryError

-- The first loop: every value must have the key, and those outside the window are dropped.
unfoldable pub in_window : Key → ℕ → ℕ → List Observation → Result SummaryError (List Observation)
in_window key cutoff now [] = ok []
in_window key cutoff now (value ∷ values) =
    let rest = in_window key cutoff now values in
    fail_if (not (same_key key value.key)) different_key
    >> (rest >>= λ kept.
        if ltb value.completed_at cutoff || ltb now value.completed_at
        then ok kept
        else ok (value ∷ kept))

unfoldable pub compare_samples : Observation → Observation → Sign
unfolding compare_byte
compare_samples a b =
    then_sign (compare_byte a.completed_at b.completed_at) (compare_bytes a.sample_id b.sample_id)

abbrev pub earlier : Observation → Observation → Bool
earlier a b = is_below (compare_samples a b)

unfoldable pub count_successes : List Observation → ℕ
unfolding successful
count_successes [] = 0
count_successes (v ∷ vs) = (if successful v then 1 else 0) + count_successes vs

unfoldable pub total_duration : List Observation → ℕ
unfolding successful
total_duration [] = 0
total_duration (v ∷ vs) = (if successful v then v.duration else 0) + total_duration vs

-- The last successful value of the list, if any.
unfoldable pub last_success : Option Observation → List Observation → Option Observation
unfolding successful
last_success found [] = found
last_success found (v ∷ vs) = last_success (if successful v then some v else found) vs

unfoldable pub last : Option Observation → List Observation → Option Observation
last found [] = found
last found (v ∷ vs) = last (some v) vs

pub record Streaks : Type 0 where
  pub successes : ℕ
  pub failures : ℕ

-- The loop from the latest value back, with its two breaks.
unfoldable pub streak : List Observation → Streaks → Streaks
unfolding successful
streak [] s = s
streak (v ∷ vs) s =
    let more_successes = streak vs (record s { successes = s.successes + 1 }) in
    let more_failures = streak vs (record s { failures = s.failures + 1 }) in
    if successful v
    then (if ltb 0 s.failures then s else more_successes)
    else (if ltb 0 s.successes then s else more_failures)

abbrev pub no_streak : Streaks
no_streak = record { successes = 0; failures = 0 }

abbrev pub is_fresh : ℕ → ℕ → Option Observation → Bool
is_fresh now freshness none = false
is_fresh now freshness (some v) = leb (now - v.completed_at) freshness

-- What Summarize computes from the sorted values of the window.
unfoldable pub summary_of : Key → ℕ → ℕ → List Observation → Summary
unfolding count_successes total_duration last_success last streak
summary_of key now freshness values =
    let latest = last none values in
    let streaks = streak (reverse values) no_streak in
    let successes = count_successes values in
    let samples = length values in
    record {
      key = key;
      samples = samples;
      successes = successes;
      success_ratio =
          if ltb 0 samples
          then record { numerator = successes; denominator = samples }
          else record { numerator = 0; denominator = 1 };
      latest = latest;
      latest_success = last_success none values;
      mean_success_duration = if ltb 0 successes then total_duration values / successes else 0;
      consecutive_successes = streaks.successes;
      consecutive_failures = streaks.failures;
      fresh = is_fresh now freshness latest;
    }

-- Any error of NewKey is an error of Summarize.
abbrev pub key_checked {ℓ κ} :
    {E : Type ℓ} {A : Type κ} → Result E Key → Result SummaryError A → Result SummaryError A
key_checked (ok key) r = r
key_checked (err e) r = err invalid_key

-- Summarize. The cutoff stops at the zero time, and no time is before that.
unfoldable pub summarize : Key → List Observation → ℕ → ℤ → ℤ → Result SummaryError Summary
summarize key values now window freshness =
    key_checked (new_key key.connection key.target key.vantage key.kind key.profile) (
      fail_if (zero_time now || leb_ℤ window (pos 0) || leb_ℤ freshness (pos 0)) time_bounds
      >> (in_window key (now - pos_part window) now values >>= λ kept.
          ok (summary_of key now (pos_part freshness) (sort earlier kept))))
