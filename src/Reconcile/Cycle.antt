-- ===== src/Reconcile/Cycle.antt =====
-- Reconcile of internal/reconcile/reconcile.go. Its mutex makes the runs of one reconciler a sequence.
pub mod Outcomes
use egressfox.Reconcile.Plan.{plan}
use egressfox.Reconcile.Apply.{apply}
use egressfox.Reconcile.{
  Ports, Outcome, no_outcome, Call, Request, Failed, Run, render_stage, calling, quietly, applying,
  scheduling, fail, reserving, ◌>>=◌, ◌>>◌, refuse_if, request_stage, profile_stage, publisher_read,
  read_receipt, state_recover, recovering,
}
use egressfox.Base.{
  ℕ, Bool, true, false, not, ◌||◌, Option, none, some, List, [], ◌∷◌, ℤ, Result, ok, err, is_none,
  if◌then◌else◌,
}
use egressfox.Base.Bytes.{Bytes, eq_bytes}
use egressfox.Artifact.{Profile, profile_equal}
use egressfox.Endpoint.{Record, identity_of, is_empty}
use egressfox.Observation.{zero_time}
use egressfox.Observation.Keys.{Key, ModelError, new_connection_ref, new_key}
use egressfox.Observation.Summary.{Summary}
use egressfox.Selection.{Context, Policy, Candidate, State, Decision, SelectError}
use egressfox.Selection.Confidence.{Platform}
use egressfox.Selection.Select.{select}

module _ (ports : Ports) where
  open ports use {
    Validated, Fault, deduplicate, new_gateway, render, validate, receipt_of, summarize,
    current_receipt, recover_decision, stage_decision, publish, commit_decision, reserve,
    maintained, before_apply, renderer_profile,
  }

  module _ (platform : Platform) where
    abbrev pub nothing_selected : Decision → Bool
    nothing_selected decision = is_empty decision.selected

    -- A decision that goes on to Apply, and whether it was planned again, or the result without one.
    pub data Planned : Type 0 where
      retained : Outcome → Planned
      accepted : Bool → Decision → Planned

    abbrev pub retain : Decision → Bool → Bool → Planned
    retain decision exists constrained = retained (record no_outcome {
      decision = some decision;
      retained_lkg = exists;
      constrained = constrained;
    })

    abbrev pub ask :
        (Decision → List (Call Validated) → Result Fault (Unit {0}))
        → Decision
        → Run ports (Unit {0})
    ask permits decision = calling scheduling (reserving decision) (permits decision)

    -- The decision that is planned again among the maintained records.
    unfoldable pub plan_again :
        Request
        → Option State
        → Bool
        → (Decision → List (Call Validated) → Result Fault (Unit {0}))
        → Option (Record → Bool)
        → Run ports Planned
    plan_again request previous exists permits none = quietly (fail scheduling)
    plan_again request previous exists permits (some keeps) = do
      decision ← plan ports platform request previous (some keeps)
      if nothing_selected decision
          then quietly (ok (retain decision exists true))
          else (ask permits decision >> quietly (ok (accepted true decision)))

    abbrev pub reserved :
        Request
        → Option State
        → Bool
        → Decision
        → (Decision → List (Call Validated) → Result Fault (Unit {0}))
        → Result Failed (Unit {0}) × List (Call Validated)
        → Result Failed Planned × List (Call Validated)
    reserved request previous exists decision permits (ok done, log) =
        (ok (accepted false decision), log)
    reserved request previous exists decision permits (err e, log) =
        plan_again request previous exists permits maintained log

    -- The part of Reconcile on a non-empty decision.
    unfoldable pub reserve_decision :
        Request
        → Option State
        → Bool
        → Option (Decision → List (Call Validated) → Result Fault (Unit {0}))
        → Decision
        → Run ports Planned
    unfolding plan_again
    reserve_decision request previous exists none decision = quietly (ok (accepted false decision))
    reserve_decision request previous exists (some permits) decision =
        λ log. reserved request previous exists decision permits (ask permits decision log)

    -- `result.Constrained = constrained && err == nil`
    abbrev pub constrain : Bool → Result Failed Outcome → Result Failed Outcome
    constrain constrained (ok outcome) = ok (record outcome { constrained = constrained })
    constrain constrained (err e) = err e

    abbrev pub announce : Decision → Run ports (Unit {0})
    announce decision log = (ok tt, if before_apply then applying decision.selected ∷ log else log)

    unfoldable pub finish : Request → Planned → Run ports Outcome
    unfolding apply
    finish request (retained outcome) = quietly (ok outcome)
    finish request (accepted constrained decision) = announce decision >> λ log.
        let (r, after) = apply ports request decision log in (constrain constrained r, after)

    -- An empty decision retains what is published.
    abbrev pub choosing : Request → Option State → Bool → Decision → Run ports Planned
    choosing request previous exists decision =
        if nothing_selected decision
        then quietly (ok (retain decision exists false))
        else reserve_decision request previous exists reserve decision

    abbrev pub request_invalid : Request → Bool
    request_invalid request =
        not request.has_renderer
        || not request.has_checker
        || is_empty request.inventory
        || zero_time request.evaluated_at

    abbrev pub profiles_differ : Request → Bool
    profiles_differ request = not (profile_equal renderer_profile request.context.profile)

    unfoldable pub reconcile : Request → Run ports Outcome
    reconcile request = do
      refuse_if (request_invalid request) request_stage
      refuse_if (profiles_differ request) profile_stage
      current ← calling publisher_read read_receipt current_receipt
      previous ←
          calling state_recover (recovering request.scope current)
            (recover_decision request.scope current)
      decision ← plan ports platform request previous none
      planned ← choosing request previous (not (is_none current)) decision
      finish request planned
