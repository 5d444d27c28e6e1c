-- ===== src/Examples/Observations.antt =====
-- Observations and summaries at concrete inputs.
use egressfox.Endpoint.{id_string, revision_equal}
use egressfox.Observation.Summary.Permutation.{summarize-perm}
use egressfox.Base.Sort.{AllSeparated, sort}
use egressfox.Base.Bytes.{compare_bytes, compare_byte, eq_bytes}
use egressfox.Examples.Samples.{test_hash, key_of, test_now, connection_a}
use egressfox.Observation.Summary.Bounds.{summarize_counts}
use egressfox.Observation.Keys.{ModelError, new_key, same_key}
use egressfox.Observation.Summary.{
  compare_samples, summarize, SummaryError, Summary, earlier, in_window, summary_of,
}
use egressfox.Observation.{new, Params, Observation}
use egressfox.Base.{
  ℕ, ◌-◌, ◌≤◌, ◌≡◌, refl, true, false, none, List, [], ◌∷◌, arith, Result, ok, err, pos,
}
use mathlib.Core.List.{Perm, Permᴰ}

abbrev sample_params : Params
sample_params = record {
  key = key_of connection_a;
  started_at = test_now - 2000;
  completed_at = test_now - 1000;
  duration = pos 900;
  outcome = 1;
  status_code = pos 200;
}

abbrev observed : Result ModelError Observation → Observation
observed (ok v) = v
observed (err e) = record {
  key = key_of connection_a;
  started_at = 0;
  completed_at = 0;
  duration = 0;
  outcome = 0;
  status_code = 0;
  sample_id = [];
}

abbrev sample : Observation
sample = observed (new test_hash sample_params)

admitted : new test_hash sample_params ≡ ok sample
unfolding new new_key eq_bytes id_string
admitted = refl

abbrev with_id : ℕ → ℕ → ℕ → Observation
with_id id completed outcome = record {
  key = key_of connection_a;
  started_at = test_now - 5000;
  completed_at = completed;
  duration = 900;
  outcome = outcome;
  status_code = 200;
  sample_id = id ∷ [];
}

abbrev two_samples : List Observation
two_samples = with_id 1 (test_now - 1000) 1 ∷ with_id 2 (test_now - 2000) 2 ∷ []

abbrev two_turned : List Observation
two_turned = with_id 2 (test_now - 2000) 2 ∷ with_id 1 (test_now - 1000) 1 ∷ []

abbrev summarized : Result SummaryError Summary → Summary
summarized (ok s) = s
summarized (err e) = record {
  key = key_of connection_a;
  samples = 0;
  successes = 0;
  success_ratio = record { numerator = 0; denominator = 1 };
  latest = none;
  latest_success = none;
  mean_success_duration = 0;
  consecutive_successes = 0;
  consecutive_failures = 0;
  fresh = false;
}

abbrev two_summary : Summary
two_summary =
    summarized (summarize (key_of connection_a) two_samples test_now (pos 100000) (pos 5000))

has_summary :
    summarize (key_of connection_a) two_samples test_now (pos 100000) (pos 5000) ≡ ok two_summary
unfolding summarize new_key eq_bytes id_string in_window same_key revision_equal
has_summary = refl

is_fresh_summary : two_summary.fresh ≡ true
unfolding has_summary summarize new_key eq_bytes id_string in_window same_key revision_equal
    summary_of sort compare_samples
is_fresh_summary = refl

summarize_counts_example :
    (two_summary.successes ≤ two_summary.samples)
    × (two_summary.samples ≤ 2)
    × (two_summary.mean_success_duration ≤ 900)
summarize_counts_example =
    summarize_counts (key_of connection_a) two_samples test_now (pos 100000) (pos 5000) two_summary
      has_summary 900 (omega arith, (omega arith, tt))

turned : Perm two_samples two_turned
turned = ∣ Permᴰ.swap refl refl ∣₁

separated : AllSeparated earlier two_samples
unfolding compare_samples compare_bytes compare_byte
separated = ((λ h k. cc, tt), (tt, tt))

summarize-perm_example :
    summarize (key_of connection_a) two_samples test_now (pos 100000) (pos 5000)
    ≡ summarize (key_of connection_a) two_turned test_now (pos 100000) (pos 5000)
summarize-perm_example =
    summarize-perm (key_of connection_a) two_samples two_turned test_now (pos 100000) (pos 5000)
      turned separated
