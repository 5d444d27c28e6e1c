-- ===== src/Reconcile/Apply.antt =====
-- Apply of internal/reconcile/reconcile.go.
pub mod Trace
use egressfox.Reconcile.{
  Ports, Failed, PublishFault, Outcome, Request, and_then, no_outcome, publication_confirmed,
  state_commit, Run, at_stage, publication_written, publication_readback, quietly, inventory_stage,
  publication_stage, policy_stage, publication_uncertain, render_stage, ◌>>=◌, ◌>>◌,
  validation_stage, calling, receipt_stage, state_stage, staging, publishing, read_receipt,
  committing,
}
use egressfox.Base.{
  ℕ, Bool, true, false, not, ◌||◌, Option, none, some, List, [], ◌∷◌, ℤ, Result, ok, err, is_none,
  if◌then◌else◌,
}
use egressfox.Base.Bytes.{Bytes, eq_bytes}
use egressfox.Artifact.{Profile, profile_equal}
use egressfox.Endpoint.{Record, identity_of}
use egressfox.Observation.{zero_time}
use egressfox.Observation.Keys.{Key, ModelError, new_connection_ref, new_key}
use egressfox.Observation.Summary.{Summary}
use egressfox.Selection.{Context, Policy, Candidate, State, Decision, SelectError}
use egressfox.Selection.Confidence.{Platform}
use egressfox.Selection.Select.{select}

module _ (ports : Ports) where
  open ports use {
    Validated, Fault, deduplicate, new_gateway, render, validate, receipt_of, summarize,
    current_receipt, recover_decision, stage_decision, publish, commit_decision, reserve,
    maintained, before_apply, renderer_profile,
  }

  -- Apply up to the receipt: what it computes before it stages anything.
  unfoldable pub prepare : Decision → Result Failed (Validated × Bytes)
  prepare decision =
      and_then (at_stage inventory_stage (deduplicate decision.selected)) (λ inventory.
        and_then (at_stage policy_stage (new_gateway inventory)) (λ gateway.
          and_then (at_stage render_stage (render gateway)) (λ candidate.
            and_then (at_stage validation_stage (validate candidate)) (λ validated.
              and_then (at_stage receipt_stage (receipt_of validated))
                (λ receipt. ok (validated, receipt))))))

  -- What the publisher's answer comes to.
  abbrev pub after_publish : Decision → Bytes → Result PublishFault Bool → Result Failed Outcome
  after_publish decision receipt (ok changed) = ok (record no_outcome {
    decision = some decision;
    changed = changed;
    publication = publication_written;
    intended = some receipt;
  })
  after_publish decision receipt (err fault) = err (record {
    stage = publication_stage;
    outcome =
        if fault.uncertain
        then record no_outcome {
          decision = some decision;
          publication = publication_uncertain;
          intended = some receipt;
        }
        else record no_outcome { decision = some decision };
  })

  -- Whether the receipt that was read back is the intended one.
  abbrev pub confirms : Bytes → Result Fault (Option Bytes) → Bool
  confirms receipt (ok (some current)) = eq_bytes current receipt
  confirms receipt (ok none) = false
  confirms receipt (err e) = false

  -- The receipt that an answer carries, or the empty one.
  abbrev pub receipt_read : Result Fault (Option Bytes) → Bytes
  receipt_read (ok (some current)) = current
  receipt_read (ok none) = []
  receipt_read (err e) = []

  abbrev pub after_read_back :
      Bytes → Outcome → Result Fault (Option Bytes) → Result Failed (Outcome × Bytes)
  after_read_back receipt outcome answer =
      if confirms receipt answer
      then ok (record outcome { publication = publication_confirmed }, receipt_read answer)
      else err (record { outcome = outcome; stage = publication_readback })

  abbrev pub after_commit : Outcome → Result Fault (Unit {0}) → Result Failed Outcome
  after_commit outcome (ok done) = ok (record outcome { published = true })
  after_commit outcome (err e) = err (record { outcome = outcome; stage = state_commit })

  -- Apply behind its preparation. What is committed is the receipt that was read back.
  unfoldable pub apply_prepared : Request → Decision → Validated → Bytes → Run ports Outcome
  apply_prepared request decision validated receipt = do
    calling state_stage (staging decision.next receipt request.evaluated_at)
        (stage_decision decision.next receipt request.evaluated_at)
    written ←
        λ log. (after_publish decision receipt (publish validated log), publishing validated ∷ log)
    read ← λ log. (after_read_back receipt written (current_receipt log), read_receipt ∷ log)
    λ log.
        let (confirmed, current) = read in
        (
          after_commit confirmed (commit_decision request.scope current log),
          committing request.scope current ∷ log,
        )

  unfoldable pub apply : Request → Decision → Run ports Outcome
  unfolding prepare
  apply request decision = quietly (prepare decision) >>= λ (validated, receipt).
      apply_prepared request decision validated receipt
