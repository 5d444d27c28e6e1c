-- ===== src/Selection/Evaluate/Eligibility.antt =====
-- Eligibility in internal/selection/selection.go, spelled out.
use egressfox.Base.{
  ℕ, ◌+◌, ◌≤◌, ◌<◌, ◌≡◌, refl, ◌↔◌, Bool, true, Option, none, some, List, arith, pos, ◌≤ℤ◌,
}
use egressfox.Observation.Keys.{ConnectionRef, connection_equal}
use egressfox.Observation.Summary.{Summary}
use egressfox.Selection.{Policy, Context, Candidate, Cooldown, Explanation, eligible, matches}
use egressfox.Selection.Confidence.{Platform, wilson_lower_ppm}
use egressfox.Selection.Evaluate.{
  find_cooldown, permille, cooldown_reason, evaluate_evidence, evaluate,
}

-- No cooldown, or one that is over and after which the revision has recovered.
abbrev pub CooldownOver : Policy → ℕ → Summary → Option Cooldown → Type 0
CooldownOver policy now summary none = Unit {0}
CooldownOver policy now summary (some c) =
    (c.until ≤ now) × (policy.recovery_successes ≤ℤ pos summary.consecutive_successes)

module _ (platform : Platform) where
  -- What the summary of an eligible candidate satisfies.
  pub record Sufficient (summary : Summary) (ref : ConnectionRef) (context : Context)
      (policy : Policy) (cooldowns : List Cooldown) (now : ℕ) : Type 0 where
    pub in_context : matches context summary.key ≡ true
    pub of_revision : connection_equal summary.key.connection ref ≡ true
    pub is_fresh : summary.fresh ≡ true
    pub enough_samples : policy.min_samples ≤ℤ pos summary.samples
    pub reliable : policy.min_success_permille ≤ℤ pos (permille summary.successes summary.samples)
    pub no_failure_streak : pos (summary.consecutive_failures + 1) ≤ℤ policy.failure_streak
    pub has_latency : (0 < summary.successes) × (0 < summary.mean_success_duration)
    pub cooldown_over : CooldownOver policy now summary (find_cooldown cooldowns ref)
    pub confident : pos 1 ≤ℤ wilson_lower_ppm platform summary.successes summary.samples

  cooldown_reason-none :
      (policy : Policy) (now : ℕ) (summary : Summary) (c : Option Cooldown)
      → (cooldown_reason policy now summary c ≡ none) ↔ CooldownOver policy now summary c
  unfolding cooldown_reason
  cooldown_reason-none policy now summary none = (λ _. tt, λ _. refl)
  cooldown_reason-none policy now summary (some c) = (λ h. ground arith, λ h. ground arith)

  eligible_sound :
      (o : Option Summary) (ref : ConnectionRef) (context : Context) (policy : Policy)
      (cooldowns : List Cooldown) (now : ℕ) (value : Explanation)
      → (evaluate_evidence platform o ref context policy cooldowns now value).reason ≡ eligible
      → (summary : Summary) × (o ≡ some summary)
        × Sufficient summary ref context policy cooldowns now
  unfolding evaluate_evidence cooldown_reason
  eligible_sound none ref context policy cooldowns now value h = cc
  eligible_sound (some summary) ref context policy cooldowns now value h =
      let found = find_cooldown cooldowns ref in
      let passed : cooldown_reason policy now summary found ≡ none = ground arith in
      let over = (cooldown_reason-none policy now summary found).0 passed in
      (summary, refl, ground (arith, over))

  eligible_complete :
      (o : Option Summary) (summary : Summary) (ref : ConnectionRef) (context : Context)
      (policy : Policy) (cooldowns : List Cooldown) (now : ℕ) (value : Explanation)
      → o ≡ some summary
      → value.reason ≡ eligible
      → Sufficient summary ref context policy cooldowns now
      → (evaluate_evidence platform o ref context policy cooldowns now value).reason ≡ eligible
  unfolding evaluate_evidence
  eligible_complete o summary ref context policy cooldowns now value e start h = ground (
    arith,
    (cooldown_reason-none policy now summary (find_cooldown cooldowns ref)).1 h.cooldown_over,
  )

  -- A candidate is eligible exactly when it has a summary for this context and connection revision
  -- that is fresh and large enough, reliable, not in a failure streak, with a measured latency and a
  -- positive confidence, and no cooldown of the revision runs or waits for its recovery.
  pub evaluate-eligible_iff :
      (candidate : Candidate) (ref : ConnectionRef) (context : Context) (policy : Policy)
      (cooldowns : List Cooldown) (incumbent : Bool) (selected_at now : ℕ)
      → ((evaluate platform candidate ref context policy cooldowns incumbent selected_at now).reason
          ≡ eligible)
        ↔ ((summary : Summary) × (candidate.evidence ≡ some summary)
            × Sufficient summary ref context policy cooldowns now)
  unfolding evaluate
  evaluate-eligible_iff candidate ref context policy cooldowns incumbent selected_at now = (
    eligible_sound candidate.evidence ref context policy cooldowns now _,
    λ h. eligible_complete candidate.evidence h.0 ref context policy cooldowns now _ h.1 refl h.2,
  )
