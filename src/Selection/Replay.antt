-- ===== src/Selection/Replay.antt =====
-- internal/selection/replay.go: strategies compared on the same frames.
pub mod Counts
use egressfox.Selection.Select.{is_eligible, select}
use egressfox.Endpoint.{Record, is_empty, identity_of}
use egressfox.Base.Bytes.{Bytes}
use egressfox.Observation.Keys.{ConnectionRef, new_connection_ref, connection_equal}
use egressfox.Selection.Confidence.{Platform}
use egressfox.Selection.{
  Transition, Decision, Explanation, Candidate, SelectError, Context, Policy, no_eligible, State,
  emergency,
}
use egressfox.Base.{
  ℕ, zero, suc, ◌+◌, ◌-◌, ◌*◌, ◌≤◌, ◌<◌, ◌≡◌, refl, sym, ap, subst, ◌∙◌, ◌⊎◌, inl, inr, Bool, true,
  false, not, ◌&&◌, ◌||◌, Option, none, some, List, [], ◌∷◌, ◌++◌, map, arith, ltb, leb, ◌==◌,
  if◌then◌else◌, if_rule, Bool-cases, Option-cases, is_none, length, All, Result, ok, err,
  Result-cases, ◌/◌, fail_if, ◌>>=◌, ◌>>◌,
}

pub record Frame : Type 0 where
  pub at : ℕ
  pub candidates : List Candidate

pub record Scenario : Type 0 where
  pub scope : Bytes
  pub context : Context
  pub policy : Policy
  pub frames : List Frame

pub record Report : Type 0 where
  pub strategy : ℕ
  pub evaluations : ℕ
  pub changes : ℕ
  pub emergency_changes : ℕ
  pub no_eligible : ℕ
  pub degraded : ℕ
  pub mean_selected_latency : ℕ

pub data ReplayError : Type 0 where
  nothing_to_replay : ReplayError
  not_selected : SelectError → ReplayError

-- connectionRef: the zero reference after an error.
unfoldable pub reference_of : Record → ConnectionRef
reference_of r = elim (new_connection_ref (identity_of r)) [
  | ok ref ↦ ref
  | err e ↦ record { id = []; revision = none }
]

-- The inner loop with its break.
unfoldable pub latency_of : ConnectionRef → List Explanation → Option ℕ
latency_of ref [] = none
latency_of ref (x ∷ xs) =
    let rest = latency_of ref xs in
    if connection_equal x.connection ref && is_eligible x.reason
    then some x.mean_success_duration
    else rest

-- A report with the sum and the number of its latencies.
pub record Tally : Type 0 where
  pub report : Report
  pub latency_total : ℕ
  pub latency_samples : ℕ

abbrev pub add_latency : Option ℕ → Tally → Tally
add_latency none tally = tally
add_latency (some latency) tally = record tally {
  latency_total = tally.latency_total + latency;
  latency_samples = tally.latency_samples + 1;
}

unfoldable pub add_latencies : List Explanation → List Record → Tally → Tally
unfolding latency_of reference_of
add_latencies explanations [] tally = tally
add_latencies explanations (r ∷ rs) tally =
    add_latencies explanations rs (add_latency (latency_of (reference_of r) explanations) tally)

abbrev pub one_if : Bool → ℕ
one_if true = 1
one_if false = 0

abbrev pub is_emergency : Transition → Bool
is_emergency emergency = true
is_emergency _ = false

unfoldable pub count_decision : Decision → Report → Report
count_decision d report = record report {
  evaluations = report.evaluations + 1;
  changes = report.changes + one_if d.changed;
  emergency_changes = report.emergency_changes + one_if (is_emergency d.transition);
  no_eligible = report.no_eligible + one_if (is_empty d.selected);
  degraded = report.degraded + one_if d.degraded;
}

abbrev pub count_tally : Decision → Tally → Tally
count_tally d tally =
    add_latencies d.explanations d.selected
      (record tally { report = count_decision d tally.report })

abbrev pub finished : Tally → Report
finished tally = record tally.report {
  mean_selected_latency =
      if ltb 0 tally.latency_samples
      then tally.latency_total / tally.latency_samples
      else tally.report.mean_selected_latency;
}

abbrev pub selection_error : Result SelectError Decision → Result ReplayError Decision
selection_error (ok d) = ok d
selection_error (err e) = err (not_selected e)

abbrev pub new_tally : ℕ → Tally
new_tally strategy = record {
  report = record {
    strategy = strategy;
    evaluations = 0;
    changes = 0;
    emergency_changes = 0;
    no_eligible = 0;
    degraded = 0;
    mean_selected_latency = 0;
  };
  latency_total = 0;
  latency_samples = 0;
}

module _ (platform : Platform) (scenario : Scenario) where
  abbrev pub select_frame : Policy → Option State → Frame → Result ReplayError Decision
  select_frame policy state frame =
      selection_error
        (select platform scenario.scope scenario.context policy frame.candidates state frame.at)

  -- The loop over the frames.
  unfoldable pub replay_frames :
      Policy → List Frame → Option State → Tally → Result ReplayError Tally
  replay_frames policy [] state tally = ok tally
  replay_frames policy (f ∷ fs) state tally = select_frame policy state f >>= λ d.
      replay_frames policy fs (some d.next) (count_tally d tally)

  unfoldable pub replay_strategy : ℕ → Result ReplayError Report
  unfolding replay_frames
  replay_strategy strategy =
      replay_frames (record scenario.policy { strategy = strategy }) scenario.frames none
        (new_tally strategy)
      >>= λ tally. ok (finished tally)

  unfoldable pub replay_strategies : List ℕ → Result ReplayError (List Report)
  unfolding replay_strategy
  replay_strategies [] = ok []
  replay_strategies (s ∷ ss) =
      let rest = replay_strategies ss in
      replay_strategy s >>= λ report. (rest >>= λ reports. ok (report ∷ reports))

  -- Compare
  unfoldable pub compare : List ℕ → Result ReplayError (List Report)
  compare strategies =
      fail_if (is_empty strategies || is_empty scenario.frames) nothing_to_replay
      >> replay_strategies strategies
