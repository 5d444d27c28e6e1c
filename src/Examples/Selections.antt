-- ===== src/Examples/Selections.antt =====
-- Selections of two eligible endpoints and one without evidence.
use egressfox.Selection.Select.Members.{OtherMember}
use egressfox.Selection.Select.Scanning.{IfEligible}
use egressfox.Base.Pairs.{AllPairs}
use egressfox.Base.{
  arith, quotient, word64, wrap_int64, ℕ, ◌-◌, ◌≤◌, ◌≡◌, refl, true, false, none, some, List, [],
  ◌∷◌, pos, ltb_ℤ, All, length, Result, ok, err, inl, inr, ◌⊎◌,
}
use egressfox.Artifact.{all_safe, profile_equal, is_safe_character}
use egressfox.Selection.Evaluate.{
  cooldown_reason, evaluate, evaluate_confidence, evaluate_evidence, evaluate_summary,
  find_cooldown, find_member,
}
use egressfox.Selection.Rank.{
  challenge, contains_ranked, find_ranked, find_worst, improves_by, in_residence, optimize,
  rank_key, ranked_less, sort_ranked,
}
use egressfox.Base.Bytes.{eq_bytes, compare_bytes, big_endian, compare_byte, Bytes, ascii}
use egressfox.Base.Sort.{sort, insert}
use egressfox.Endpoint.{
  revision_equal, identity_compare, identity_equal, compare_revision, id_string, same_revision,
}
use egressfox.Observation.Keys.{
  target_equal, connection_equal, is_invalid_connection, new_connection_ref, ConnectionRef,
}
use egressfox.Observation.Summary.{Summary}
use egressfox.Selection.{
  safe_scope, validate, bounds_invalid, contexts_equal, fingerprint_input, contains_key, matches,
  policy_field, ref_key, Policy, Candidate, State, Decision, Transition, strategy_adaptive,
  default_policy, SelectError,
}
use egressfox.Selection.Confidence.{risk_cost, wilson_lower, wilson_lower_ppm}
use egressfox.Selection.Select.{
  has_duplicate, choose, choose_adaptive, choose_afresh, cooldown_stays, decide, fill, keep_member,
  keep_members, reason_of, same_members, scan_candidates, upsert_cooldown, usable_previous,
  start_from, policy_fingerprint, select, Start,
}
use egressfox.Selection.Select.Residence.{committed_members, Resident, select-residence}
use egressfox.Selection.Select.Decisions.{
  select-size, Justified, select_complete, select-selected, select-members,
}
use egressfox.Examples.Samples.{
  test_platform, connection_a, connection_b, connection_c, endpoint_of, test_context, key_of,
  test_now,
}

abbrev pub summary_with : ConnectionRef → ℕ → Summary
summary_with ref mean = record {
  key = key_of ref;
  samples = 20;
  successes = 20;
  success_ratio = record { numerator = 20; denominator = 20 };
  latest = none;
  latest_success = none;
  mean_success_duration = mean;
  consecutive_successes = 20;
  consecutive_failures = 0;
  fresh = true;
}

abbrev pub candidate_a : Candidate
candidate_a = record {
  endpoint = endpoint_of connection_a;
  evidence = some (summary_with connection_a 900);
}

abbrev pub candidate_b : Candidate
candidate_b = record {
  endpoint = endpoint_of connection_b;
  evidence = some (summary_with connection_b 100);
}

abbrev pub candidate_c : Candidate
candidate_c = record { endpoint = endpoint_of connection_c; evidence = none }

abbrev pub three : List Candidate
three = candidate_b ∷ candidate_c ∷ candidate_a ∷ []

abbrev pub policy_of_three : Policy
policy_of_three = record (default_policy strategy_adaptive) { top_n = pos 3 }

abbrev pub scope : Bytes
scope = ascii "pool/a"

abbrev pub committed : State
committed = record {
  scope = scope;
  context = test_context;
  policy_fingerprint = policy_fingerprint test_platform policy_of_three;
  evaluated_at = test_now - 60000000000;
  members = (record { connection = connection_a; selected_at = test_now - 60000000000 }) ∷ [];
  cooldowns = [];
}

abbrev result : Result SelectError Decision
result = select test_platform scope test_context policy_of_three three (some committed) test_now

abbrev decided : Result SelectError Decision → Decision
decided (ok d) = d
decided (err e) = record {
  selected = [];
  explanations = [];
  next = committed;
  changed = false;
  degraded = false;
  transition = Transition.initial;
  eligible = 0;
  requested = pos 0;
}

abbrev decision : Decision
decision = decided result

succeeds : result ≡ ok decision
unfolding select safe_scope all_safe validate bounds_invalid start_from eq_bytes contexts_equal
    target_equal revision_equal profile_equal policy_fingerprint fingerprint_input has_duplicate
    sort identity_compare compare_bytes identity_equal is_safe_character big_endian compare_byte
    quotient word64 wrap_int64 insert compare_revision id_string same_revision connection_equal
    is_invalid_connection new_connection_ref risk_cost wilson_lower wilson_lower_ppm cooldown_reason
    evaluate evaluate_confidence evaluate_evidence evaluate_summary find_cooldown find_member
    challenge contains_ranked find_ranked find_worst improves_by in_residence optimize rank_key
    ranked_less sort_ranked choose choose_adaptive choose_afresh cooldown_stays decide fill
    keep_member keep_members reason_of same_members scan_candidates upsert_cooldown usable_previous
    contains_key matches policy_field ref_key
succeeds = refl

select-size_example :
    (length decision.selected ≤ 3)
    × (length decision.next.members ≡ length decision.selected)
    × (decision.degraded ≡ ltb_ℤ (pos (length decision.selected)) (pos 3))
select-size_example =
    select-size test_platform scope test_context policy_of_three three (some committed) test_now
      decision succeeds

is_degraded : decision.degraded ≡ true
unfolding succeeds
is_degraded = refl

select_complete_example :
    All (IfEligible (λ ref. (find_member decision.next.members ref).0 ≡ true)) decision.explanations
select_complete_example =
    select_complete test_platform scope test_context policy_of_three three (some committed) test_now
      decision succeeds is_degraded

select-members_example : AllPairs OtherMember decision.next.members
select-members_example =
    select-members test_platform scope test_context policy_of_three three (some committed) test_now
      decision (tt, tt) succeeds

select-residence_example :
    All
      (Resident
        (committed_members scope test_context
          (policy_fingerprint test_platform policy_of_three)
          (some committed))
        test_now)
      decision.next.members
select-residence_example =
    select-residence test_platform scope test_context policy_of_three three (some committed)
      test_now decision (omega arith, tt) succeeds

-- Candidates with evidence that names a key.
abbrev Given : Candidate → Type 0
Given c = (c ≡ candidate_a) ⊎ (c ≡ candidate_b) ⊎ (c ≡ candidate_c)

three-Given : All Given three
three-Given = (inr (inl refl), (inr (inr refl), (inl refl, tt)))

select-selected_example :
    (start : Start) × (start_from scope test_context
        (policy_fingerprint test_platform policy_of_three)
        test_now
        (some committed)
      ≡ ok start)
    × All
        (Justified test_platform scope test_context policy_of_three three
          (some committed)
          test_now
          Given
          start)
        decision.selected
select-selected_example =
    select-selected test_platform scope test_context policy_of_three three (some committed) test_now
      Given decision three-Given succeeds
