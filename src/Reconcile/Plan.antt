-- ===== src/Reconcile/Plan.antt =====
-- plan of internal/reconcile/reconcile.go.
pub mod Gathering
use egressfox.Reconcile.{
  Ports, Request, Run, quietly, ◌>>=◌, at_stage, candidate_stage, selection_stage, evidence_key,
  calling, evidence_load, summarizing, Call,
}
use egressfox.Base.{
  ℕ, Bool, true, false, not, ◌||◌, Option, none, some, List, [], ◌∷◌, ℤ, Result, ok, err, is_none,
  if◌then◌else◌,
}
use egressfox.Base.Bytes.{Bytes, eq_bytes}
use egressfox.Artifact.{Profile, profile_equal}
use egressfox.Endpoint.{Record, identity_of}
use egressfox.Observation.{zero_time}
use egressfox.Observation.Keys.{Key, ModelError, new_connection_ref, new_key, ConnectionRef}
use egressfox.Observation.Summary.{Summary}
use egressfox.Selection.{Context, Policy, Candidate, State, Decision, SelectError}
use egressfox.Selection.Confidence.{Platform}
use egressfox.Selection.Select.{select}

module _ (ports : Ports) where
  open ports use {
    Validated, Fault, deduplicate, new_gateway, render, validate, receipt_of, summarize,
    current_receipt, recover_decision, stage_decision, publish, commit_decision, reserve,
    maintained, before_apply, renderer_profile,
  }

  abbrev pub key_of : Request → ConnectionRef → Result ModelError Key
  key_of request connection =
      new_key connection request.context.target request.context.vantage request.context.kind
        request.context.profile

  abbrev pub evidence_of : Request → Key → List (Call Validated) → Result Fault Summary
  evidence_of request key =
      summarize key request.evaluated_at request.policy.evidence_window request.policy.freshness

  -- The error stage of a candidate, or its evidence.
  unfoldable pub load_candidate : Request → Record → Run ports Candidate
  load_candidate request r = do
    connection ← quietly (at_stage candidate_stage (new_connection_ref (identity_of r)))
    key ← quietly (at_stage evidence_key (key_of request connection))
    summary ← calling evidence_load (summarizing key) (evidence_of request key)
    quietly (ok (record { endpoint = r; evidence = some summary }))

  abbrev pub withheld : Option (Record → Bool) → Record → Bool
  withheld none r = false
  withheld (some keeps) r = not (keeps r)

  -- A record that is not maintained has its evidence withheld.
  abbrev pub candidate_of : Request → Option (Record → Bool) → Record → Run ports Candidate
  candidate_of request keeps r =
      if withheld keeps r
      then quietly (ok (record { endpoint = r; evidence = none }))
      else load_candidate request r

  -- The loop of plan.
  unfoldable pub load_candidates :
      Request → Option (Record → Bool) → List Record → Run ports (List Candidate)
  unfolding load_candidate
  load_candidates request keeps [] = quietly (ok [])
  load_candidates request keeps (r ∷ rs) = candidate_of request keeps r >>= λ candidate.
      load_candidates request keeps rs >>= λ candidates. quietly (ok (candidate ∷ candidates))

  module _ (platform : Platform) where
    unfoldable pub plan : Request → Option State → Option (Record → Bool) → Run ports Decision
    plan request previous keeps = load_candidates request keeps request.inventory >>= λ candidates.
        quietly (
          at_stage selection_stage (
            select platform request.scope request.context request.policy candidates previous
              request.evaluated_at))
