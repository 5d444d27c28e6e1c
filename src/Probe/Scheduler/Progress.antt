-- ===== src/Probe/Scheduler/Progress.antt =====
-- Scheduler.Run of internal/probe/scheduler.go never deadlocks.
use egressfox.Probe.Scheduler.Standing.{
  has_token, is_free, is_taken, waits_for_target, is_waiting, is_finished-rest, is_waiting-eq,
}
use egressfox.Probe.Scheduler.Completion.{IsFinal, limits, Reach-valid, count-finished, Reach-crew}
use egressfox.Probe.Scheduler.Places.{Reach-IsPlaced, is_finished, IsPlaced}
use egressfox.Probe.Scheduler.Tokens.{
  count, IsCounted, holds_target, holds_endpoint, Reach-IsCounted,
}
use egressfox.Base.{
  ℕ, List, pos_part, length, Bool, get_elem?, ◌≡◌, true, All, some, ◌<◌, suc, arith, ◌≤◌, ◌⊎◌,
  false, err, ap, ◌∷◌, inl, [], ◌∙◌, Bool-cases, inr, refl, ltb,
}
use egressfox.Probe.Scheduler.{
  waiting, taken, has_endpoint, executing, recorded, released, cancelling, finished,
  record_cancelled, execute, release_target, release_endpoint, work, feed, ScheduleConfig, Job,
  SchedulerState, Pc, Reach, Bytes, target_key, endpoint_key, take_job, send, leave, close,
  acquire_target, acquire_endpoint, Act,
}

module _ (config : ScheduleConfig) (jobs : List Job) where
  count_mono :
      (p q : Pc → Bool) (workers : List Pc)
      → ((pc : Pc) → p pc ≡ true → q pc ≡ true)
      → count config jobs p workers ≤ count config jobs q workers
  count_mono p q [] h = omega arith
  count_mono p q (x ∷ xs) h = ground (arith, h x, count_mono p q xs h)

  find :
      (p : Pc → Bool) (workers : List Pc)
      → (count config jobs p workers ≡ 0)
        ⊎ ((w : ℕ) × (pc : Pc) × (get_elem? workers w ≡ some pc) × (p pc ≡ true))
  find p [] = inl refl
  find p (x ∷ xs) = elim (Bool-cases (p x)) [
    | inl e ↦ inr (0, x, refl, e)
    | inr e ↦ elim (find p xs) [
      | inl none_there ↦ inl (rw e none_there)
      | inr (w, pc, at_w, is) ↦ inr (suc w, pc, at_w, is)
    ]
  ]

  holds_target-free :
      (key : Bytes) (pc : Pc) → holds_target config jobs key pc ≡ true → is_free pc ≡ true
  holds_target-free key (executing i) h = refl
  holds_target-free key (recorded i) h = refl
  holds_target-free key waiting h = cc
  holds_target-free key (taken i) h = cc
  holds_target-free key (has_endpoint i) h = cc
  holds_target-free key (released i) h = cc
  holds_target-free key (cancelling i) h = cc
  holds_target-free key finished h = cc

  holds_endpoint-token :
      (key : Bytes) (pc : Pc) → holds_endpoint config jobs key pc ≡ true → has_token pc ≡ true
  holds_endpoint-token key (has_endpoint i) h = refl
  holds_endpoint-token key (executing i) h = refl
  holds_endpoint-token key (recorded i) h = refl
  holds_endpoint-token key (released i) h = refl
  holds_endpoint-token key waiting h = cc
  holds_endpoint-token key (taken i) h = cc
  holds_endpoint-token key (cancelling i) h = cc
  holds_endpoint-token key finished h = cc

  rest_finished :
      (workers : List Pc)
      → count config jobs is_free workers ≡ 0
      → count config jobs has_token workers ≡ 0
      → count config jobs is_taken workers ≡ 0
      → count config jobs is_waiting workers ≡ 0
      → All (λ pc. pc ≡ finished) workers
  rest_finished [] a b c d = tt
  rest_finished (x ∷ xs) a b c d = (
    is_finished-rest x (ground arith) (ground arith) (ground arith) (ground arith),
    rest_finished xs (ground arith) (ground arith) (ground arith) (ground arith),
  )

  abbrev pub CanStep : SchedulerState → Type 0
  CanStep s = (u : SchedulerState) × Act config jobs s u

  free_step :
      (s : SchedulerState) (w : ℕ) (pc : Pc)
      → get_elem? s.workers w ≡ some pc
      → is_free pc ≡ true
      → CanStep s
  free_step s w (executing i) e h = (_, work w e (execute (err [])))
  free_step s w (recorded i) e h = (_, work w e release_target)
  free_step s w (released i) e h = (_, work w e release_endpoint)
  free_step s w (cancelling i) e h = (_, work w e record_cancelled)
  free_step s w waiting e h = cc
  free_step s w (taken i) e h = cc
  free_step s w (has_endpoint i) e h = cc
  free_step s w finished e h = cc

  module _ (s : SchedulerState) (r : Reach config jobs s) where
    tokens : IsCounted config jobs s
    tokens = Reach-IsCounted config jobs r

    placed : IsPlaced config jobs s
    placed = Reach-IsPlaced config jobs r

    sizes :
        (0 < pos_part config.concurrency)
        × (0 < pos_part config.queue)
        × (0 < pos_part config.per_endpoint)
        × (0 < pos_part config.per_target)
    sizes = limits config jobs (Reach-valid config jobs r)

    -- A worker that waits for a target, where none that holds one is left.
    target_step :
        (w : ℕ) (pc : Pc)
        → count config jobs is_free s.workers ≡ 0
        → get_elem? s.workers w ≡ some pc
        → waits_for_target pc ≡ true
        → CanStep s
    target_step w (has_endpoint i) none_free e h =
        let key = target_key jobs i in
        let few =
          count_mono (holds_target config jobs key) is_free s.workers (holds_target-free key) in
        (_, work w e (acquire_target (omega (arith, tokens.targets key, few, none_free, sizes))))
    target_step w waiting none_free e h = cc
    target_step w (taken i) none_free e h = cc
    target_step w (executing i) none_free e h = cc
    target_step w (recorded i) none_free e h = cc
    target_step w (released i) none_free e h = cc
    target_step w (cancelling i) none_free e h = cc
    target_step w finished none_free e h = cc

    endpoint_step :
        (w : ℕ) (pc : Pc)
        → count config jobs has_token s.workers ≡ 0
        → get_elem? s.workers w ≡ some pc
        → is_taken pc ≡ true
        → CanStep s
    endpoint_step w (taken i) none_held e h =
        let key = endpoint_key jobs i in
        let few =
          count_mono (holds_endpoint config jobs key) has_token s.workers
            (holds_endpoint-token key) in
        (
          _,
          work w e (acquire_endpoint (omega (arith, tokens.endpoints key, few, none_held, sizes))),
        )
    endpoint_step w waiting none_held e h = cc
    endpoint_step w (has_endpoint i) none_held e h = cc
    endpoint_step w (executing i) none_held e h = cc
    endpoint_step w (recorded i) none_held e h = cc
    endpoint_step w (released i) none_held e h = cc
    endpoint_step w (cancelling i) none_held e h = cc
    endpoint_step w finished none_held e h = cc

    List-cases : (queue : List ℕ) → (queue ≡ []) ⊎ ((i : ℕ) × (rest : List ℕ) × (queue ≡ i ∷ rest))
    List-cases [] = inl refl
    List-cases (i ∷ rest) = inr (i, rest, refl)

    -- The producer goes on while the queue is open and empty.
    feed_step : s.shared.closed ≡ false → s.shared.queue ≡ [] → CanStep s
    feed_step still empty = elim (Bool-cases (ltb s.shared.next (length jobs))) [
      | inl more ↦
          (_, feed (send (ground (arith, more)) still (omega (arith, ap length empty, sizes))))
      | inr last ↦ (_, feed (close (ground (arith, last, placed.sent)) still))
    ]

    waiting_step : (w : ℕ) → get_elem? s.workers w ≡ some waiting → CanStep s
    waiting_step w e = elim (List-cases s.shared.queue) [
      | inr (i, rest, full) ↦ (_, work w e (take_job full))
      | inl empty ↦ elim (Bool-cases s.shared.closed) [
        | inl shut ↦ (_, work w e (leave empty shut))
        | inr still ↦ feed_step still empty
      ]
    ]

    sent_at_last :
        All (λ pc. pc ≡ finished) s.workers → s.shared.closed ≡ false → s.shared.next ≡ length jobs
    sent_at_last gone still = elim (Bool-cases (ltb s.shared.next (length jobs))) [
      | inr all ↦ ground (arith, all, placed.sent)
      | inl more ↦
          let many : 0 < count config jobs (is_finished config jobs) s.workers = ground (
            arith,
            more,
            count-finished config jobs (is_finished config jobs) s.workers gone,
            Reach-crew config jobs r,
            sizes,
          ) in
          absurd (ground (arith, (placed.left many).0, still))
    ]

    -- Where every worker has left.
    last_step : All (λ pc. pc ≡ finished) s.workers → IsFinal config jobs s ⊎ CanStep s
    last_step gone = elim (Bool-cases s.shared.closed) [
      | inl shut ↦ inl (shut, gone)
      | inr still ↦ inr (_, feed (close (sent_at_last gone still) still))
    ]

    token_step :
        (w : ℕ) (pc : Pc)
        → count config jobs is_free s.workers ≡ 0
        → get_elem? s.workers w ≡ some pc
        → has_token pc ≡ true
        → CanStep s
    token_step w (has_endpoint i) none_free e h = target_step w (has_endpoint i) none_free e refl
    token_step w (executing i) none_free e h = free_step s w (executing i) e refl
    token_step w (recorded i) none_free e h = free_step s w (recorded i) e refl
    token_step w (released i) none_free e h = free_step s w (released i) e refl
    token_step w waiting none_free e h = cc
    token_step w (taken i) none_free e h = cc
    token_step w (cancelling i) none_free e h = cc
    token_step w finished none_free e h = cc

  -- No state that Run reaches is a deadlock: where the queue is not closed or a worker has not left, a
  -- worker or the producer can take a step, provided that executions answer.
  pub never_deadlocks :
      (s : SchedulerState) → Reach config jobs s → IsFinal config jobs s ⊎ CanStep s
  never_deadlocks s r = elim (find is_free s.workers) [
    | inr (w, pc, e, free) ↦ inr (free_step s w pc e free)
    | inl none_free ↦ elim (find has_token s.workers) [
      | inr (w, pc, e, held) ↦ inr (token_step s r w pc none_free e held)
      | inl none_held ↦ elim (find is_taken s.workers) [
        | inr (w, pc, e, took) ↦ inr (endpoint_step s r w pc none_held e took)
        | inl none_taken ↦ elim (find is_waiting s.workers) [
          | inr (w, pc, e, waits) ↦ inr (waiting_step s r w (e ∙ ap some (is_waiting-eq pc waits)))
          | inl none_waits ↦
              last_step s r (rest_finished s.workers none_free none_held none_taken none_waits)
        ]
      ]
    ]
  ]
