-- ===== src/Probe/Scheduler/Termination.antt =====
-- Scheduler.Run of internal/probe/scheduler.go takes boundedly many steps.
use egressfox.Probe.Scheduler.Progress.{CanStep, never_deadlocks}
use egressfox.Probe.Scheduler.Tokens.{start-initial}
use egressfox.Base.Counts.{bit}
use egressfox.Probe.Scheduler.Completion.{crew, IsFinal}
use egressfox.Base.{
  ℕ, List, ◌∷◌, get_elem?, length, ◌≡◌, ◌+◌, some, ◌*◌, suc, ◌≤◌, ◌++◌, [], set, arith, ap, ◌⊎◌, ok,
  ◌-◌, subst, zero, refl, not, true,
}
use egressfox.Probe.Scheduler.{
  waiting, taken, has_endpoint, executing, recorded, released, cancelling, finished, take_job,
  leave, acquire_endpoint, give_up, acquire_target, give_back, record_cancelled, execute,
  release_target, release_endpoint, send, stop, close, act, cancel, work, feed, started, stepped,
  Pc, ScheduleConfig, Job, Shared, SchedulerState, repeated, Move, Feed, start, Reach, Act,
}

-- The steps that a worker still takes with its job, at most, counted with one to leave.
abbrev pub weight : Pc → ℕ
weight finished = 0
weight waiting = 1
weight (cancelling i) = 2
weight (released i) = 2
weight (recorded i) = 3
weight (executing i) = 4
weight (has_endpoint i) = 5
weight (taken i) = 6

abbrev pub weights : List Pc → ℕ
weights [] = 0
weights (pc ∷ pcs) = weight pc + weights pcs

weights-set :
    (pcs : List Pc) (w : ℕ) (old new : Pc)
    → get_elem? pcs w ≡ some old
    → weights (set pcs w new) + weight old ≡ weights pcs + weight new
weights-set [] w old new h = cc
weights-set (x ∷ xs) zero old new h =
    let same : x ≡ old = ground arith in omega (arith, ap weight same)
weights-set (x ∷ xs) (suc w) old new h = omega (arith, weights-set xs w old new h)

module _ (config : ScheduleConfig) (jobs : List Job) where
  abbrev pub shared_left : Shared → ℕ
  shared_left m = 7 * (length jobs - m.next) + 6 * length m.queue + bit (not m.closed)

  abbrev pub work_left : SchedulerState → ℕ
  work_left s = shared_left s.shared + weights s.workers

  Move-decreases :
      {m : Shared} {old new : Pc} {m' : Shared}
      → Move config jobs m old m' new
      → suc (shared_left m' + weight new) ≤ shared_left m + weight old
  Move-decreases (take_job h) = ground (arith, ap length h)
  Move-decreases (leave h k) = ground arith
  Move-decreases (acquire_endpoint h) = omega arith
  Move-decreases (give_up h) = omega arith
  Move-decreases (acquire_target h) = omega arith
  Move-decreases (give_back h) = omega arith
  Move-decreases record_cancelled = omega arith
  Move-decreases (execute answer) = omega arith
  Move-decreases release_target = omega arith
  Move-decreases release_endpoint = omega arith

  length-snoc : (queue : List ℕ) (n : ℕ) → length (queue ++ n ∷ []) ≡ suc (length queue)
  length-snoc [] n = refl
  length-snoc (x ∷ xs) n = ap suc (length-snoc xs n)

  Feed-decreases : {m m' : Shared} → Feed config jobs m m' → suc (shared_left m') ≤ shared_left m
  Feed-decreases {m} (send h k l) = ground (arith, length-snoc m.queue m.next)
  Feed-decreases (stop h k l) = ground arith
  Feed-decreases (close h k) = ground arith

  Act-decreases : {s u : SchedulerState} → Act config jobs s u → suc (work_left u) ≤ work_left s
  Act-decreases {s} (work w {old} {new} e mv) =
      omega (arith, Move-decreases mv, weights-set s.workers w old new e)
  Act-decreases (feed f) = omega (arith, Feed-decreases f)

  -- Runs by the number of steps of the goroutines.
  pub data Took : ℕ → SchedulerState → Type 0 where
    begins : {s : SchedulerState} → start config jobs ≡ ok s → Took 0 s
    acts : {n : ℕ} {s u : SchedulerState} → Took n s → Act config jobs s u → Took (suc n) u
    cancels :
        {n : ℕ} {s : SchedulerState}
        → Took n s
        → Took n (record { shared = record s.shared { cancelled = true }; workers = s.workers })

  pub Took-Reach : {n : ℕ} {s : SchedulerState} → Took n s → Reach config jobs s
  Took-Reach (begins h) = started h
  Took-Reach (acts t a) = stepped (Took-Reach t) (act a)
  Took-Reach (cancels t) = stepped (Took-Reach t) cancel

  weights-repeated : (n : ℕ) → weights (repeated n waiting) ≡ n
  weights-repeated zero = refl
  weights-repeated (suc n) = omega (arith, weights-repeated n)

  work_left-start :
      (s : SchedulerState)
      → start config jobs ≡ ok s
      → work_left s ≡ 7 * length jobs + crew config jobs + 1
  work_left-start s h =
      subst (λ s. work_left s ≡ 7 * length jobs + crew config jobs + 1)
        (start-initial config jobs s h) (omega (arith, weights-repeated (crew config jobs)))

  Took-work_left :
      {n : ℕ} {s : SchedulerState}
      → Took n s
      → n + work_left s ≤ 7 * length jobs + crew config jobs + 1
  Took-work_left (begins {s} h) = omega (arith, work_left-start s h)
  Took-work_left (acts t a) = omega (arith, Act-decreases a, Took-work_left t)
  Took-work_left (cancels t) = Took-work_left t

  -- Run terminates: however its goroutines are interleaved, they take at most seven steps for each job,
  -- one for each worker and one more, whatever cancellations come between; and where they can take
  -- none, Run is at its end, provided that executions answer.
  pub run_terminates :
      (n : ℕ) (s : SchedulerState)
      → Took n s
      → (n ≤ 7 * length jobs + crew config jobs + 1)
        × (IsFinal config jobs s ⊎ CanStep config jobs s)
  run_terminates n s t =
      (omega (arith, Took-work_left t), never_deadlocks config jobs s (Took-Reach t))
