-- ===== src/Examples/Cooldowns.antt =====
-- A selection whose committed member has failed.
use egressfox.Base.{
  get_elem?, ◌+◌, Option, pos_part, quotient, word64, wrap_int64, ◌-◌, ◌≡◌, refl, true, false, none,
  some, List, [], ◌∷◌, pos, All, Result, ok, err, inl, inr,
}
use egressfox.Artifact.{all_safe, profile_equal, is_safe_character}
use egressfox.Selection.Evaluate.{
  cooldown_reason, evaluate, evaluate_confidence, evaluate_evidence, evaluate_summary,
  find_cooldown, find_member,
}
use egressfox.Selection.Rank.{
  challenge, contains_ranked, find_ranked, find_worst, improves_by, in_residence, optimize,
  rank_key, ranked_less, sort_ranked,
}
use egressfox.Base.Bytes.{eq_bytes, compare_bytes, big_endian, compare_byte}
use egressfox.Base.Sort.{sort, insert}
use egressfox.Endpoint.{
  revision_equal, identity_compare, identity_equal, compare_revision, id_string, same_revision,
}
use egressfox.Observation.Keys.{
  target_equal, connection_equal, is_invalid_connection, new_connection_ref,
}
use egressfox.Selection.{
  Member, Explanation, unreliable, safe_scope, validate, bounds_invalid, contexts_equal,
  fingerprint_input, contains_key, matches, policy_field, ref_key, Candidate, Decision, Transition,
  SelectError,
}
use egressfox.Selection.Confidence.{risk_cost, wilson_lower, wilson_lower_ppm}
use egressfox.Selection.Select.{
  has_duplicate, choose, choose_adaptive, choose_afresh, cooldown_stays, decide, fill, keep_member,
  keep_members, reason_of, same_members, scan_candidates, upsert_cooldown, usable_previous,
  start_from, policy_fingerprint, select,
}
use egressfox.Examples.Samples.{test_platform, connection_a, endpoint_of, test_context, test_now}
use egressfox.Examples.Selections.{candidate_b, committed, policy_of_three, scope, summary_with}
use egressfox.Selection.Select.Cooling.{FailedIfAt, select-cooldown}

abbrev failing_a : Candidate
failing_a = record {
  endpoint = endpoint_of connection_a;
  evidence = some (record (summary_with connection_a 900) {
    successes = 1;
    success_ratio = record { numerator = 1; denominator = 20 };
    consecutive_successes = 0;
    consecutive_failures = 19;
  });
}

abbrev two : List Candidate
two = candidate_b ∷ failing_a ∷ []

abbrev result : Result SelectError Decision
result = select test_platform scope test_context policy_of_three two (some committed) test_now

abbrev decided : Result SelectError Decision → Decision
decided (ok d) = d
decided (err e) = record {
  selected = [];
  explanations = [];
  next = committed;
  changed = false;
  degraded = false;
  transition = Transition.initial;
  eligible = 0;
  requested = pos 0;
}

abbrev decision : Decision
decision = decided result

succeeds : result ≡ ok decision
unfolding select safe_scope all_safe validate bounds_invalid start_from eq_bytes contexts_equal
    target_equal revision_equal profile_equal policy_fingerprint fingerprint_input has_duplicate
    sort identity_compare compare_bytes identity_equal is_safe_character big_endian compare_byte
    quotient word64 wrap_int64 insert compare_revision id_string same_revision connection_equal
    is_invalid_connection new_connection_ref risk_cost wilson_lower wilson_lower_ppm cooldown_reason
    evaluate evaluate_confidence evaluate_evidence evaluate_summary find_cooldown find_member
    challenge contains_ranked find_ranked find_worst improves_by in_residence optimize rank_key
    ranked_less sort_ranked choose choose_adaptive choose_afresh cooldown_stays decide fill
    keep_member keep_members reason_of same_members scan_candidates upsert_cooldown usable_previous
    contains_key matches policy_field ref_key
succeeds = refl

abbrev member : Member
member = record { connection = connection_a; selected_at = test_now - 60000000000 }

abbrev explanation_or_plain : Option Explanation → Explanation
explanation_or_plain (some x) = x
explanation_or_plain none = record {
  connection = connection_a;
  endpoint_id = [];
  reason = unreliable;
  samples = 0;
  successes = 0;
  success_permille = 0;
  mean_success_duration = 0;
  confidence_ppm = pos 0;
  adaptive_cost_nanos = pos 0;
  incumbent = false;
  residence_active = false;
}

abbrev of_a : Explanation
of_a = explanation_or_plain (get_elem? decision.explanations 0)

is_usable :
    usable_previous scope test_context (policy_fingerprint test_platform policy_of_three) committed
    ≡ true
unfolding succeeds
is_usable = refl

says : All (FailedIfAt connection_a) decision.explanations
unfolding succeeds
says = (inr (inl refl), (inl refl, tt))

explained : get_elem? decision.explanations 0 ≡ some of_a
unfolding succeeds
explained = refl

own_connection : connection_equal of_a.connection member.connection ≡ true
unfolding succeeds
own_connection = refl

select-cooldown_example :
    find_cooldown decision.next.cooldowns connection_a
    ≡ some
        (record { connection = connection_a; until = test_now + pos_part policy_of_three.cooldown })
select-cooldown_example =
    select-cooldown test_platform scope test_context policy_of_three two committed test_now decision
      0 member 0 of_a refl is_usable (tt, tt) refl succeeds explained own_connection says
