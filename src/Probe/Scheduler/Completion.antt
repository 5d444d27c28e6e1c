-- ===== src/Probe/Scheduler/Completion.antt =====
-- Scheduler.Run of internal/probe/scheduler.go has an answer for every job at its end.
use egressfox.Probe.Scheduler.Places.{is_answered, Reach-IsPlaced, is_finished, holds_job}
use egressfox.Probe.Scheduler.Tokens.{count, start-initial}
use egressfox.Base.{
  ℕ, List, pos_part, length, Bool, ◌≡◌, true, subst, All, ◌<◌, >>-eq-ok, suc, arith, if◌then◌else◌,
  not, ap, length-set, ◌∷◌, [], ◌∙◌, zero, refl,
}
use egressfox.Probe.Scheduler.{
  act, cancel, waiting, finished, work, feed, started, stepped, ScheduleConfig, Job, SchedulerState,
  start, smaller, Pc, config_valid, Reach, repeated, configuration,
}

module _ (config : ScheduleConfig) (jobs : List Job) where
  -- The queue is closed, and every worker has left.
  abbrev pub IsFinal : SchedulerState → Type 0
  IsFinal s = (s.shared.closed ≡ true) × All (λ pc. pc ≡ finished) s.workers

  pub Reach-valid : {s : SchedulerState} → Reach config jobs s → config_valid config ≡ true
  unfolding start
  Reach-valid (started {s} h) =
      let (a, h1) = >>-eq-ok (not (config_valid config)) configuration _ h in ground (arith, a)
  Reach-valid (stepped r st) = Reach-valid r

  abbrev pub crew : ℕ
  crew = smaller (pos_part config.concurrency) (length jobs)

  length-repeated : (n : ℕ) (pc : Pc) → length (repeated n pc) ≡ n
  length-repeated zero pc = refl
  length-repeated (suc n) pc = ap suc (length-repeated n pc)

  pub Reach-crew : {s : SchedulerState} → Reach config jobs s → length s.workers ≡ crew
  Reach-crew (started {s} h) =
      subst (λ (s : SchedulerState). length s.workers ≡ crew) (start-initial config jobs s h)
        (length-repeated crew waiting)
  Reach-crew (stepped {s} r (act (work w {old} {new} e mv))) =
      length-set s.workers w new ∙ Reach-crew r
  Reach-crew (stepped r (act (feed f))) = Reach-crew r
  Reach-crew (stepped r cancel) = Reach-crew r

  pub limits :
      config_valid config ≡ true
      → (0 < pos_part config.concurrency)
        × (0 < pos_part config.queue)
        × (0 < pos_part config.per_endpoint)
        × (0 < pos_part config.per_target)
  unfolding config_valid
  limits h = ground arith

  pub count-finished :
      (p : Pc → Bool) (workers : List Pc)
      → All (λ pc. pc ≡ finished) workers
      → count config jobs p workers ≡ (if p finished then length workers else 0)
  count-finished p [] h = ground arith
  count-finished p (x ∷ xs) h = ground (arith, ap p h.0, count-finished p xs h.1)

  -- At the end of Run every job has an answer.
  pub final_answers :
      {s : SchedulerState}
      → Reach config jobs s
      → IsFinal s
      → (i : ℕ) → i < length jobs
      → is_answered s.shared.results i ≡ true
  final_answers {s} r (shut, gone) i h =
      let placed = Reach-IsPlaced config jobs r in
      let sizes = limits (Reach-valid r) in
      let many : 0 < count config jobs (is_finished config jobs) s.workers =
        ground
          (arith, count-finished (is_finished config jobs) s.workers gone, Reach-crew r, sizes) in
      let (closed, empty) = placed.left many in
      let none_held = count-finished (holds_job i) s.workers gone in
      ground (arith, placed.once i h, placed.all_sent shut, empty, none_held)
