-- ===== src/Examples/Replaying.antt =====
-- A replay of the adaptive strategy on one frame.
use egressfox.Base.{
  quotient, word64, wrap_int64, ◌≡◌, refl, List, [], ◌∷◌, All, length, Result, ok, err,
}
use egressfox.Artifact.{all_safe, profile_equal, is_safe_character}
use egressfox.Selection.Evaluate.{
  cooldown_reason, evaluate, evaluate_confidence, evaluate_evidence, evaluate_summary,
  find_cooldown, find_member,
}
use egressfox.Selection.Rank.{
  challenge, contains_ranked, find_ranked, find_worst, improves_by, in_residence, optimize,
  rank_key, ranked_less, sort_ranked,
}
use egressfox.Base.Bytes.{eq_bytes, compare_bytes, big_endian, compare_byte}
use egressfox.Base.Sort.{sort, insert}
use egressfox.Endpoint.{
  revision_equal, identity_compare, identity_equal, compare_revision, id_string, same_revision,
}
use egressfox.Observation.Keys.{
  target_equal, connection_equal, is_invalid_connection, new_connection_ref,
}
use egressfox.Selection.{
  safe_scope, validate, bounds_invalid, contexts_equal, fingerprint_input, contains_key, matches,
  policy_field, ref_key, strategy_adaptive,
}
use egressfox.Selection.Confidence.{risk_cost, wilson_lower, wilson_lower_ppm}
use egressfox.Selection.Select.{
  has_duplicate, choose, choose_adaptive, choose_afresh, cooldown_stays, decide, fill, keep_member,
  keep_members, reason_of, same_members, scan_candidates, upsert_cooldown, usable_previous,
  start_from, policy_fingerprint, select,
}
use egressfox.Examples.Samples.{test_platform, test_context, test_now}
use egressfox.Examples.Selections.{three, policy_of_three, scope}
use egressfox.Selection.Replay.{
  Frame, Scenario, Report, ReplayError, compare, replay_frames, replay_strategy, replay_strategies,
  add_latencies, latency_of, reference_of, count_decision,
}
use egressfox.Selection.Replay.Counts.{compare-Counted, Consistent}

abbrev one_frame : List Frame
one_frame = (record { at = test_now; candidates = three }) ∷ []

abbrev replayed : Scenario
replayed = record {
  scope = scope;
  context = test_context;
  policy = policy_of_three;
  frames = one_frame;
}

abbrev reports_of : Result ReplayError (List Report) → List Report
reports_of (ok reports) = reports
reports_of (err e) = []

abbrev reports : List Report
reports = reports_of (compare test_platform replayed (strategy_adaptive ∷ []))

compares : compare test_platform replayed (strategy_adaptive ∷ []) ≡ ok reports
unfolding select safe_scope all_safe validate bounds_invalid start_from eq_bytes contexts_equal
    target_equal revision_equal profile_equal policy_fingerprint fingerprint_input has_duplicate
    sort identity_compare compare_bytes identity_equal is_safe_character big_endian compare_byte
    quotient word64 wrap_int64 insert compare_revision id_string same_revision connection_equal
    is_invalid_connection new_connection_ref risk_cost wilson_lower wilson_lower_ppm cooldown_reason
    evaluate evaluate_confidence evaluate_evidence evaluate_summary find_cooldown find_member
    challenge contains_ranked find_ranked find_worst improves_by in_residence optimize rank_key
    ranked_less sort_ranked choose choose_adaptive choose_afresh cooldown_stays decide fill
    keep_member keep_members reason_of same_members scan_candidates upsert_cooldown usable_previous
    contains_key matches policy_field ref_key compare replay_frames replay_strategy
    replay_strategies add_latencies latency_of reference_of count_decision
compares = refl

compare-Counted_example :
    All (λ r. Consistent r × (r.evaluations ≡ 1)) reports × (length reports ≡ 1)
compare-Counted_example =
    compare-Counted test_platform replayed (strategy_adaptive ∷ []) reports compares
