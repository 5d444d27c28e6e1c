-- ===== src/Examples/Selecting.antt =====
-- The parts of a selection at concrete inputs.
use mathlib.Core.List.{Perm, Permᴰ}
use egressfox.Selection.Select.Order.{select-perm}
use egressfox.Base.Sort.{AllSeparated}
use egressfox.Selection.Evaluate.Eligibility.{Sufficient, evaluate-eligible_iff}
use egressfox.Selection.Confidence.Cost.{risk_cost_rounds_up}
use egressfox.Base.Bytes.{compare_bytes, compare_byte}
use egressfox.Examples.Samples.{test_platform, connection_a, test_context, connection_b, test_now}
use egressfox.Examples.Selections.{
  candidate_a, policy_of_three, candidate_b, summary_with, candidate_c, scope, three, committed,
}
use egressfox.Selection.Rank.Stability.{Slots, optimize-Slots}
use egressfox.Endpoint.{identity_compare}
use egressfox.Observation.Summary.{Summary}
use egressfox.Selection.Rank.{optimize}
use egressfox.Observation.Keys.{ConnectionRef}
use egressfox.Selection.Select.{select, candidate_less}
use egressfox.Selection.Confidence.{risk_cost}
use egressfox.Selection.Evaluate.{evaluate}
use egressfox.Selection.{Candidate, Ranked, eligible}
use egressfox.Base.{ℕ, ◌+◌, ◌*◌, ◌≤◌, ◌<◌, ◌≡◌, refl, false, some, List, [], ◌∷◌, arith, pos, ◌↔◌}

abbrev plain_summary : Summary
plain_summary = summary_with connection_a 900

evaluate-eligible_iff_example :
    ((evaluate test_platform candidate_a connection_a test_context policy_of_three [] false 0
        test_now).reason
      ≡ eligible)
    ↔ ((summary : Summary) × (candidate_a.evidence ≡ some summary)
        × Sufficient test_platform summary connection_a test_context policy_of_three [] test_now)
evaluate-eligible_iff_example =
    evaluate-eligible_iff test_platform candidate_a connection_a test_context policy_of_three []
      false 0 test_now

abbrev ranked_with : Candidate → ConnectionRef → ℕ → Ranked
ranked_with candidate ref cost = record {
  candidate = candidate;
  ref = ref;
  explanation = record {
    connection = ref;
    endpoint_id = [];
    reason = eligible;
    samples = 20;
    successes = 20;
    success_permille = 1000;
    mean_success_duration = cost;
    confidence_ppm = pos 800000;
    adaptive_cost_nanos = pos cost;
    incumbent = false;
    residence_active = false;
  };
}

abbrev one_selected : List Ranked
one_selected = ranked_with candidate_a connection_a 900 ∷ []

abbrev challengers : List Ranked
challengers = ranked_with candidate_b connection_b 100 ∷ []

optimize-Slots_example :
    Slots [] policy_of_three test_now one_selected
      (optimize [] policy_of_three test_now one_selected challengers)
optimize-Slots_example = optimize-Slots [] policy_of_three test_now one_selected challengers

risk_cost_rounds_up_example :
    (cost : ℕ) × (risk_cost 100 (pos 800000) ≡ pos cost)
    × (100 * 1000000 ≤ cost * 800000)
    × (cost * 800000 < 100 * 1000000 + 800000)
risk_cost_rounds_up_example =
    risk_cost_rounds_up 100 800000 (omega arith) (omega arith) (omega arith) (omega arith)

abbrev three_turned : List Candidate
three_turned = candidate_c ∷ candidate_b ∷ candidate_a ∷ []

turned : Perm three three_turned
turned = ∣ Permᴰ.swap refl refl ∣₁

three_separated : AllSeparated candidate_less three
unfolding identity_compare compare_bytes compare_byte
three_separated = ((λ h k. cc, (λ h k. cc, tt)), ((λ h k. cc, tt), (tt, tt)))

select-perm_example :
    select test_platform scope test_context policy_of_three three (some committed) test_now
    ≡ select test_platform scope test_context policy_of_three three_turned (some committed) test_now
select-perm_example =
    select-perm test_platform scope test_context policy_of_three three three_turned (some committed)
      test_now turned three_separated
