-- ===== src/Examples/Reconciling.antt =====
-- A reconciliation with ports that work.
-- The publisher's receipt is that of the latest publication in the log.
use egressfox.Examples.Selections.{summary_with, policy_of_three}
use egressfox.Artifact.{mihomo_11931}
use egressfox.Examples.Samples.{test_platform, endpoint_of, connection_a, test_context, test_now}
use egressfox.Endpoint.{Record}
use egressfox.Reconcile.Apply.Trace.{Confirmed, failing, Says, apply-Confirmed, apply-Says}
use egressfox.Reconcile.Cycle.{reconcile}
use egressfox.Base.Bytes.{Bytes, eq_bytes}
use egressfox.Reconcile.{Request, Call, Outcome, Ports, Failed, publishing, publication_stage}
use egressfox.Reconcile.Apply.{apply, prepare, apply_prepared}
use egressfox.Selection.{Decision, Transition, validate}
use egressfox.Examples.Selections.{scope, committed}
use egressfox.Base.{
  ◌≡◌, refl, ◌⊎◌, true, false, Option, none, some, List, [], ◌∷◌, length, Result, ok, err, pos,
}

abbrev latest_published : List (Call Bytes) → Option Bytes
latest_published [] = none
latest_published (publishing content ∷ calls) = some content
latest_published (c ∷ calls) = latest_published calls

abbrev working_ports : Ports
working_ports = record {
  Fault = Unit {0};
  Inventory = List Record;
  Gateway = List Record;
  Rendered = Bytes;
  Validated = Bytes;
  deduplicate = λ records. ok records;
  new_gateway = λ inventory. ok inventory;
  renderer_profile = mihomo_11931;
  render = λ gateway. ok (length gateway ∷ []);
  validate = λ content. ok content;
  receipt_of = λ content. ok content;
  summarize = λ key now window freshness log. ok (summary_with key.connection 100);
  current_receipt = λ log. ok (latest_published log);
  recover_decision = λ scope receipt log. ok none;
  stage_decision = λ state receipt now log. ok tt;
  publish = λ content log. ok true;
  commit_decision = λ scope receipt log. ok tt;
  reserve = some (λ decision log. ok tt);
  maintained = none;
  before_apply = true;
}

abbrev one_request : Request
one_request = record {
  scope = scope;
  inventory = endpoint_of connection_a ∷ [];
  context = test_context;
  policy = policy_of_three;
  evaluated_at = test_now;
  has_renderer = true;
  has_checker = true;
}

abbrev outcome_of : Result Failed Outcome → Outcome
outcome_of (ok o) = o
outcome_of (err e) = e.outcome

abbrev outcome : Outcome
outcome = outcome_of (reconcile working_ports test_platform one_request []).0

abbrev small_decision : Decision
small_decision = record {
  selected = endpoint_of connection_a ∷ [];
  explanations = [];
  next = committed;
  changed = true;
  degraded = false;
  transition = Transition.initial;
  eligible = 1;
  requested = pos 1;
}

abbrev applied_outcome : Outcome
applied_outcome = outcome_of (apply working_ports one_request small_decision []).0

applies : (apply working_ports one_request small_decision []).0 ≡ ok applied_outcome
unfolding apply apply_prepared eq_bytes
applies = refl

apply-Confirmed_example :
    (validated : Bytes) × (receipt : Bytes) × (prepare working_ports small_decision
      ≡ ok (validated, receipt))
    × Confirmed working_ports one_request small_decision validated receipt [] applied_outcome
        (apply working_ports one_request small_decision []).1
apply-Confirmed_example =
    apply-Confirmed working_ports one_request small_decision [] applied_outcome applies

-- The same, with a publisher that may have written when it fails.
abbrev broken_ports : Ports
broken_ports = record working_ports { publish = λ content log. err (record { uncertain = true }) }

abbrev failure_of : Result Failed Outcome → Failed
failure_of (ok o) = record { outcome = o; stage = publication_stage }
failure_of (err e) = e

abbrev broken : Failed
broken = failure_of (apply broken_ports one_request small_decision []).0

breaks : (apply broken_ports one_request small_decision []).0 ≡ failing broken
unfolding apply apply_prepared
breaks = refl

apply-Says_example :
    ((prepare broken_ports small_decision ≡ err broken)
      × ((apply broken_ports one_request small_decision []).1 ≡ []))
    ⊎ ((validated : Bytes) × (receipt : Bytes) × (prepare broken_ports small_decision
          ≡ ok (validated, receipt))
        × Says broken_ports one_request small_decision validated receipt [] broken.outcome
            (apply broken_ports one_request small_decision []).1)
apply-Says_example = apply-Says broken_ports one_request small_decision [] broken breaks
