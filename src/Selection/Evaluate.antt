-- ===== src/Selection/Evaluate.antt =====
-- evaluate of internal/selection/selection.go: the reason for which a candidate is or is not
-- eligible.
pub mod Eligibility
use egressfox.Base.{
  ℕ, ◌+◌, ◌*◌, ◌/◌, Bool, true, false, not, ◌&&◌, ◌||◌, Option, none, some, List, [], ◌∷◌, ltb, leb,
  ◌==◌, ℤ, pos, pos_part, ltb_ℤ, leb_ℤ, if◌then◌else◌,
}
use egressfox.Endpoint.{identity_of}
use egressfox.Observation.Keys.{ConnectionRef, connection_equal}
use egressfox.Observation.Summary.{Summary}
use egressfox.Selection.{
  Policy, Context, Candidate, Member, Cooldown, Explanation, Reason, eligible, missing_evidence,
  wrong_context, wrong_revision, stale, insufficient_samples, unreliable, failure_streak,
  no_successful_latency, cooldown, recovery, matches,
}
use egressfox.Selection.Confidence.{Platform, wilson_lower_ppm, risk_cost}

-- findMember: whether the reference is a member, and since when (the zero time if not).
unfoldable pub find_member : List Member → ConnectionRef → Bool × ℕ
unfolding connection_equal
find_member [] ref = (false, 0)
find_member (m ∷ ms) ref =
    if connection_equal m.connection ref then (true, m.selected_at) else find_member ms ref

-- findCooldown
unfoldable pub find_cooldown : List Cooldown → ConnectionRef → Option Cooldown
unfolding connection_equal
find_cooldown [] ref = none
find_cooldown (c ∷ cs) ref =
    if connection_equal c.connection ref then some c else find_cooldown cs ref

abbrev pub permille : ℕ → ℕ → ℕ
permille successes samples = if ltb 0 samples then successes * 1000 / samples else 0

-- The reason that a cooldown gives, if it gives one.
unfoldable pub cooldown_reason : Policy → ℕ → Summary → Option Cooldown → Option Reason
cooldown_reason policy now summary none = none
cooldown_reason policy now summary (some c) =
    if ltb now c.until
    then some cooldown
    else if ltb_ℤ (pos summary.consecutive_successes) policy.recovery_successes
    then some recovery
    else none

module _ (platform : Platform) where
  -- The part of evaluate behind the checks that need no cooldown.
  unfoldable pub evaluate_confidence :
      Policy → ℕ → Summary → Option Reason → Explanation → Explanation
  evaluate_confidence policy now summary (some reason) value = record value { reason = reason }
  evaluate_confidence policy now summary none value =
      let confidence = wilson_lower_ppm platform summary.successes summary.samples in
      if leb_ℤ confidence (pos 0)
      then record value { confidence_ppm = confidence; reason = unreliable }
      else record value {
        confidence_ppm = confidence;
        adaptive_cost_nanos = risk_cost summary.mean_success_duration confidence;
      }

  -- The ladder of early returns over a summary.
  unfoldable pub evaluate_summary :
      Summary → ConnectionRef → Context → Policy → List Cooldown → ℕ → Explanation → Explanation
  unfolding evaluate_confidence
  evaluate_summary summary ref context policy cooldowns now value =
      if not (matches context summary.key)
      then record value { reason = wrong_context }
      else if not (connection_equal summary.key.connection ref)
      then record value { reason = wrong_revision }
      else if not summary.fresh
      then record value { reason = stale }
      else if ltb_ℤ (pos summary.samples) policy.min_samples
      then record value { reason = insufficient_samples }
      else if ltb_ℤ (pos value.success_permille) policy.min_success_permille
      then record value { reason = unreliable }
      else if leb_ℤ policy.failure_streak (pos summary.consecutive_failures)
      then record value { reason = failure_streak }
      else if summary.successes == 0 || summary.mean_success_duration == 0
      then record value { reason = no_successful_latency }
      else evaluate_confidence policy now summary
          (cooldown_reason policy now summary (find_cooldown cooldowns ref)) value

  unfoldable pub evaluate_evidence :
      Option Summary
      → ConnectionRef
      → Context
      → Policy
      → List Cooldown
      → ℕ
      → Explanation
      → Explanation
  unfolding evaluate_summary
  evaluate_evidence none ref context policy cooldowns now value = record value {
    reason = missing_evidence;
  }
  evaluate_evidence (some summary) ref context policy cooldowns now value =
      evaluate_summary summary ref context policy cooldowns now (record value {
        samples = summary.samples;
        successes = summary.successes;
        success_permille = permille summary.successes summary.samples;
        mean_success_duration = summary.mean_success_duration;
      })

  unfoldable pub evaluate :
      Candidate → ConnectionRef → Context → Policy → List Cooldown → Bool → ℕ → ℕ → Explanation
  unfolding evaluate_evidence
  evaluate candidate ref context policy cooldowns incumbent selected_at now =
      evaluate_evidence candidate.evidence ref context policy cooldowns now (record {
        connection = ref;
        endpoint_id = (identity_of candidate.endpoint).id;
        reason = eligible;
        samples = 0;
        successes = 0;
        success_permille = 0;
        mean_success_duration = 0;
        confidence_ppm = pos 0;
        adaptive_cost_nanos = pos 0;
        incumbent = incumbent;
        residence_active = incumbent && ltb now (selected_at + pos_part policy.residence);
      })
