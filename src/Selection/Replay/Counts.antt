-- ===== src/Selection/Replay/Counts.antt =====
-- The counts of the reports of internal/selection/replay.go.
use egressfox.Selection.Rank.{sort_ranked}
use egressfox.Selection.Select.Decisions.{select-ok}
use egressfox.Selection.{SelectError, is_empty}
use egressfox.Selection.Confidence.{Platform}
use egressfox.Selection.Select.{
  Start, start_from, Kept, decide, next_transition, policy_fingerprint, choose,
}
use egressfox.Selection.Replay.{
  Report, Bytes, Scenario, Context, is_emergency, add_latencies, count_decision, State, Policy,
  Explanation, Decision, Candidate, Record, select, Tally, add_latency, count_tally, replay_frames,
  replay_strategy, replay_strategies, compare, latency_of, selection_error, Frame, reference_of,
  select_frame, new_tally, finished, nothing_to_replay,
}
use egressfox.Base.{
  ℕ, suc, ◌+◌, ◌≤◌, ◌≡◌, refl, sym, ap, subst, ◌∙◌, Bool, true, false, ◌||◌, Option, none, some,
  List, [], ◌∷◌, arith, length, All, Result, ok, err, >>=-eq-ok, >>-eq-ok,
}

pub record Consistent (r : Report) : Type 0 where
  pub changes_le : r.changes ≤ r.evaluations
  pub emergency_le : r.emergency_changes ≤ r.changes
  pub no_eligible_le : r.no_eligible ≤ r.evaluations
  pub degraded_le : r.degraded ≤ r.evaluations

never_emergency :
    (scope : Bytes) (context : Context) (fingerprint : Bytes) (now : ℕ) (previous : Option State)
    (start : Start)
    → start_from scope context fingerprint now previous ≡ ok start
    → is_emergency start.transition ≡ false
unfolding start_from
never_emergency scope context fingerprint now none start h = ground arith
never_emergency scope context fingerprint now (some previous) start h = ground arith

emergency-changed :
    (start : Start) (kept : Kept) (changed : Bool)
    → is_emergency start.transition ≡ false
    → is_emergency (next_transition start kept changed) ≡ true
    → changed ≡ true
emergency-changed start kept changed calm h = ground arith

module _ (platform : Platform) (scenario : Scenario) where
  -- An emergency is a change.
  decision-changed :
      (policy : Policy) (candidates : List Candidate) (previous : Option State) (now : ℕ)
      (d : Decision)
      → select platform scenario.scope scenario.context policy candidates previous now ≡ ok d
      → is_emergency d.transition ≡ true
      → d.changed ≡ true
  unfolding decide
  decision-changed policy candidates previous now d h e =
      let run =
        select-ok platform scenario.scope scenario.context policy candidates previous now d h in
      subst (λ x. is_emergency x.transition ≡ true → x.changed ≡ true) run.decided
        (λ k.
          emergency-changed run.start
            (choose policy now run.start run.scan (sort_ranked policy.strategy run.scan.ranked)) _
            (never_emergency scenario.scope scenario.context (policy_fingerprint platform policy)
              now previous run.start run.started)
            k)
        e

  add_latency-report : (o : Option ℕ) (tally : Tally) → (add_latency o tally).report ≡ tally.report
  add_latency-report none tally = refl
  add_latency-report (some latency) tally = refl

  add_latencies-report :
      (xs : List Explanation) (rs : List Record) (tally : Tally)
      → (add_latencies xs rs tally).report ≡ tally.report
  unfolding add_latencies
  add_latencies-report xs [] tally = refl
  add_latencies-report xs (r ∷ rs) tally =
      add_latencies-report xs rs (add_latency (latency_of (reference_of r) xs) tally)
      ∙ add_latency-report (latency_of (reference_of r) xs) tally

  count_decision-Consistent :
      (d : Decision) (r : Report)
      → (is_emergency d.transition ≡ true → d.changed ≡ true)
      → Consistent r
      → Consistent (count_decision d r)
  unfolding count_decision
  count_decision-Consistent d r h c = record {
    changes_le = ground (arith, c.changes_le);
    emergency_le = ground (arith, h, c.emergency_le);
    no_eligible_le = ground (arith, c.no_eligible_le);
    degraded_le = ground (arith, c.degraded_le);
  }

  abbrev Counted : ℕ → Report → Type 0
  Counted n r = Consistent r × (r.evaluations ≡ n)

  Counted-frame :
      (n : ℕ) (d : Decision) (tally : Tally)
      → (is_emergency d.transition ≡ true → d.changed ≡ true)
      → Counted n tally.report
      → Counted (n + 1) (count_tally d tally).report
  unfolding count_decision
  Counted-frame n d tally h (c, e) =
      subst (Counted (n + 1))
        (sym (
          add_latencies-report d.explanations d.selected
            (record tally { report = count_decision d tally.report })))
        (count_decision-Consistent d tally.report h c, omega (arith, e))

  selection_error-ok :
      (r : Result SelectError Decision) (d : Decision) → selection_error r ≡ ok d → r ≡ ok d
  selection_error-ok (ok e) d h = ground arith
  selection_error-ok (err e) d h = cc

  replay_frames-Counted :
      (policy : Policy) (fs : List Frame) (state : Option State) (tally out : Tally) (n : ℕ)
      → Counted n tally.report
      → replay_frames platform scenario policy fs state tally ≡ ok out
      → Counted (n + length fs) out.report
  unfolding replay_frames
  replay_frames-Counted policy [] state tally out n c h =
      let done : tally ≡ out = ground arith in
      subst (λ t. Counted (n + 0) t.report) done
        (subst (λ m. Counted m tally.report) (omega arith) c)
  replay_frames-Counted policy (f ∷ fs) state tally out n c h =
      let (d, selected, rest) = >>=-eq-ok (select_frame platform scenario policy state f) _ h in
      let calm =
        decision-changed policy f.candidates state f.at d (selection_error-ok _ d selected) in
      subst (λ m. Counted m out.report) (omega arith)
        (replay_frames-Counted policy fs (some d.next) (count_tally d tally) out (n + 1)
          (Counted-frame n d tally calm c) rest)

  replay_strategy-Counted :
      (strategy : ℕ) (report : Report)
      → replay_strategy platform scenario strategy ≡ ok report
      → Counted (length scenario.frames) report
  unfolding replay_strategy
  replay_strategy-Counted strategy report h =
      let policy = record scenario.policy { strategy = strategy } in
      let (tally, replayed, last) =
        >>=-eq-ok (replay_frames platform scenario policy scenario.frames none (new_tally strategy))
          _ h in
      let (c, e) =
        replay_frames-Counted policy scenario.frames none (new_tally strategy) tally 0
          (
            record {
              changes_le = omega arith;
              emergency_le = omega arith;
              no_eligible_le = omega arith;
              degraded_le = omega arith;
            },
            refl,
          )
          replayed in
      let done : finished tally ≡ report = ground arith in
      subst (Counted (length scenario.frames)) done (
        record {
          changes_le = c.changes_le;
          emergency_le = c.emergency_le;
          no_eligible_le = c.no_eligible_le;
          degraded_le = c.degraded_le;
        },
        omega (arith, e),
      )

  replay_strategies-Counted :
      (strategies : List ℕ) (reports : List Report)
      → replay_strategies platform scenario strategies ≡ ok reports
      → All (Counted (length scenario.frames)) reports × (length reports ≡ length strategies)
  unfolding replay_strategies
  replay_strategies-Counted [] reports h =
      let done : [] ≡ reports = ground arith in
      subst (λ rs. All (Counted (length scenario.frames)) rs × (length rs ≡ 0)) done (tt, refl)
  replay_strategies-Counted (s ∷ ss) reports h =
      let (report, first, more) = >>=-eq-ok (replay_strategy platform scenario s) _ h in
      let (rest, others, last) = >>=-eq-ok (replay_strategies platform scenario ss) _ more in
      let (counted, as_many) = replay_strategies-Counted ss rest others in
      let done : report ∷ rest ≡ reports = ground arith in
      subst (λ rs. All (Counted (length scenario.frames)) rs × (length rs ≡ suc (length ss))) done
        ((replay_strategy-Counted s report first, counted), ap suc as_many)

  -- When Compare succeeds, it returns a report for every strategy; each counts every frame once, no more
  -- changes, lacks of eligible endpoints or degraded decisions than frames, and no more emergency
  -- changes than changes.
  pub compare-Counted :
      (strategies : List ℕ) (reports : List Report)
      → compare platform scenario strategies ≡ ok reports
      → All (λ r. Consistent r × (r.evaluations ≡ length scenario.frames)) reports
        × (length reports ≡ length strategies)
  unfolding compare
  compare-Counted strategies reports h =
      let (_, replayed) =
        >>-eq-ok (is_empty strategies || is_empty scenario.frames) nothing_to_replay _ h in
      replay_strategies-Counted strategies reports replayed
