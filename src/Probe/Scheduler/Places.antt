-- ===== src/Probe/Scheduler/Places.antt =====
-- Where each job of internal/probe/scheduler.go is: not sent, queued, held by a worker, or answered.
use egressfox.Probe.Scheduler.Tokens.{count, bit-le-count, start-initial, no_holder}
use egressfox.Base.Counts.{bit, length-keep_if-set}
use egressfox.Base.{
  ℕ, List, Bool, length, Option, ◌++◌, ◌==◌, keep_if, false, ◌∷◌, not, set, [], ◌+◌, is_none, some,
  ◌≡◌, ◌<◌, suc, ◌||◌, ap, arith, leb, ◌≤◌, if◌then◌else◌, inl, ◌&&◌, zero, refl, ltb, true,
  length-set, get_elem?, Bool-cases, ◌∙◌, inr, sym, none, pos_part, subst,
}
use egressfox.Probe.Scheduler.{
  waiting, taken, has_endpoint, executing, recorded, released, cancelling, finished, take_job,
  leave, acquire_endpoint, give_up, acquire_target, give_back, record_cancelled, execute,
  release_target, release_endpoint, send, stop, close, act, cancel, work, feed, started, stepped,
  Pc, ScheduleConfig, Job, JobResult, Shared, cancel_from, Move, Feed, cancelled_job, ran,
  SchedulerState, Step, repeated, Reach, smaller,
}

abbrev pub holds_job : ℕ → Pc → Bool
holds_job i (taken j) = j == i
holds_job i (has_endpoint j) = j == i
holds_job i (executing j) = j == i
holds_job i (cancelling j) = j == i
holds_job i waiting = false
holds_job i (recorded j) = false
holds_job i (released j) = false
holds_job i finished = false

abbrev pub queued : ℕ → List ℕ → ℕ
queued i queue = length (keep_if (λ j. j == i) queue)

abbrev pub is_answered {ℓ} : {A : Type ℓ} → List (Option A) → ℕ → Bool
is_answered [] i = false
is_answered (r ∷ rs) zero = not (is_none r)
is_answered (r ∷ rs) (suc i) = is_answered rs i

is_answered-set :
    (rs : List (Option JobResult)) (j i : ℕ) (r : JobResult)
    → is_answered (set rs j (some r)) i
      ≡ (if j == i && ltb j (length rs) then true else is_answered rs i)
is_answered-set [] j i r = ground arith
is_answered-set (x ∷ xs) zero zero r = ground arith
is_answered-set (x ∷ xs) zero (suc i) r = ground arith
is_answered-set (x ∷ xs) (suc j) zero r = ground arith
is_answered-set (x ∷ xs) (suc j) (suc i) r = ground (arith, is_answered-set xs j i r)

is_answered-cancel_from :
    (n : ℕ) (rs : List (Option JobResult)) (i : ℕ)
    → is_answered (cancel_from n rs) i ≡ (is_answered rs i || (leb n i && ltb i (length rs)))
is_answered-cancel_from n [] i = ground arith
is_answered-cancel_from zero (r ∷ rs) zero = ground arith
is_answered-cancel_from zero (r ∷ rs) (suc i) = ground (arith, is_answered-cancel_from zero rs i)
is_answered-cancel_from (suc n) (r ∷ rs) zero = ground arith
is_answered-cancel_from (suc n) (r ∷ rs) (suc i) = ground (arith, is_answered-cancel_from n rs i)

length-cancel_from : (n : ℕ) (rs : List (Option JobResult)) → length (cancel_from n rs) ≡ length rs
length-cancel_from n [] = refl
length-cancel_from zero (r ∷ rs) = ap suc (length-cancel_from zero rs)
length-cancel_from (suc n) (r ∷ rs) = ap suc (length-cancel_from n rs)

queued-append :
    (i n : ℕ) (queue : List ℕ) → queued i (queue ++ n ∷ []) ≡ queued i queue + bit (n == i)
queued-append i n [] = ground arith
queued-append i n (j ∷ js) = ground (arith, queued-append i n js)

module _ (config : ScheduleConfig) (jobs : List Job) where
  -- Not sent, queued or answered.
  abbrev pub shared_places : ℕ → Shared → ℕ
  shared_places i m = queued i m.queue + bit (is_answered m.results i) + bit (leb m.next i)

  Move-places :
      {m n : Shared} {old new : Pc} (i : ℕ)
      → Move config jobs m old n new
      → i < length m.results
      → bit (holds_job i old) + bit (is_answered m.results i) ≤ 1
      → shared_places i n + bit (holds_job i new) ≡ shared_places i m + bit (holds_job i old)
  Move-places i (take_job e) h l = ground arith
  Move-places i (leave e f) h l = ground arith
  Move-places i (acquire_endpoint free) h l = ground arith
  Move-places i (give_up e) h l = ground arith
  Move-places i (acquire_target free) h l = ground arith
  Move-places i (give_back e) h l = ground arith
  Move-places {m} i (record_cancelled {i = j}) h l =
      ground (arith, is_answered-set m.results j i cancelled_job)
  Move-places {m} i (execute {i = j} answer) h l =
      ground (arith, is_answered-set m.results j i (ran answer))
  Move-places i release_target h l = ground arith
  Move-places i release_endpoint h l = ground arith

  Feed-places :
      {m n : Shared} (i : ℕ)
      → Feed config jobs m n
      → i < length jobs
      → length m.results ≡ length jobs
      → bit (is_answered m.results i) + bit (leb m.next i) ≤ 1
      → shared_places i n ≡ shared_places i m
  Feed-places {m} i (send e f g) h l one = ground (arith, queued-append i m.next m.queue)
  Feed-places {m} i (stop e f g) h l one =
      ground (arith, is_answered-cancel_from m.next m.results i)
  Feed-places i (close e f) h l one = refl

  abbrev pub is_finished : Pc → Bool
  is_finished finished = true
  is_finished other = false

  -- Every job is in one place; a worker leaves when the queue is closed and empty.
  pub record IsPlaced (s : SchedulerState) : Type 0 where
    pub sizes : length s.shared.results ≡ length jobs
    pub sent : s.shared.next ≤ length jobs
    pub all_sent : s.shared.closed ≡ true → s.shared.next ≡ length jobs
    pub left :
        (0 < count config jobs is_finished s.workers)
        → (s.shared.closed ≡ true) × (s.shared.queue ≡ [])
    pub once :
        (i : ℕ)
        → i < length jobs
        → shared_places i s.shared + count config jobs (holds_job i) s.workers ≡ 1

  -- What a move leaves alone.
  Move-frame :
      {m n : Shared} {old new : Pc}
      → Move config jobs m old n new
      → (length n.results ≡ length m.results)
        × (n.next ≡ m.next)
        × (n.closed ≡ m.closed)
        × (m.queue ≡ [] → n.queue ≡ [])
        × (is_finished old ≡ false)
        × (is_finished new ≡ true → (m.closed ≡ true) × (n.queue ≡ []))
  Move-frame (take_job e) =
      (refl, refl, refl, (λ h. absurd (ground arith)), refl, λ h. absurd (ground arith))
  Move-frame (leave e f) = (refl, refl, refl, (λ h. h), refl, λ h. (f, e))
  Move-frame (acquire_endpoint free) =
      (refl, refl, refl, (λ h. h), refl, λ h. absurd (ground arith))
  Move-frame (give_up e) = (refl, refl, refl, (λ h. h), refl, λ h. absurd (ground arith))
  Move-frame (acquire_target free) = (refl, refl, refl, (λ h. h), refl, λ h. absurd (ground arith))
  Move-frame (give_back e) = (refl, refl, refl, (λ h. h), refl, λ h. absurd (ground arith))
  Move-frame {m} (record_cancelled {i = j}) = (
    length-set m.results j (some cancelled_job),
    refl,
    refl,
    (λ h. h),
    refl,
    λ h. absurd (ground arith),
  )
  Move-frame {m} (execute {i = j} answer) = (
    length-set m.results j (some (ran answer)),
    refl,
    refl,
    (λ h. h),
    refl,
    λ h. absurd (ground arith),
  )
  Move-frame release_target = (refl, refl, refl, (λ h. h), refl, λ h. absurd (ground arith))
  Move-frame release_endpoint = (refl, refl, refl, (λ h. h), refl, λ h. absurd (ground arith))

  Step-once :
      {s : SchedulerState} {m : Shared} {old new : Pc} (w : ℕ)
      → IsPlaced s
      → get_elem? s.workers w ≡ some old
      → Move config jobs s.shared old m new
      → (i : ℕ) → i < length jobs
      → shared_places i m + count config jobs (holds_job i) (set s.workers w new) ≡ 1
  Step-once {s} {m} {old} {new} w p e mv i h = omega (
    arith,
    p.once i h,
    bit-le-count config jobs (holds_job i) s.workers w old e,
    length-keep_if-set (holds_job i) s.workers w old new e,
    Move-places i mv (omega (arith, p.sizes, h))
        (omega (arith, p.once i h, bit-le-count config jobs (holds_job i) s.workers w old e)),
  )

  Step-left :
      {s : SchedulerState} {m : Shared} {old new : Pc} (w : ℕ)
      → IsPlaced s
      → get_elem? s.workers w ≡ some old
      → Move config jobs s.shared old m new
      → 0 < count config jobs is_finished (set s.workers w new)
      → (m.closed ≡ true) × (m.queue ≡ [])
  Step-left {s} {m} {old} {new} w p e mv h =
      let frame = Move-frame mv in
      elim (Bool-cases (is_finished new)) [
        | inl last ↦ let now = frame.5 last in (frame.2 ∙ now.0, now.1)
        | inr more ↦
            let before = p.left (
              omega (
                arith,
                h,
                length-keep_if-set is_finished s.workers w old new e,
                ap bit more,
                ap bit frame.4,
              )) in
            (frame.2 ∙ before.0, frame.3 before.1)
      ]

  Feed-frame :
      {m n : Shared}
      → Feed config jobs m n
      → m.next ≤ length jobs
      → (length n.results ≡ length m.results)
        × (n.next ≤ length jobs)
        × (m.closed ≡ false → n.closed ≡ true → n.next ≡ length jobs)
        × (m.closed ≡ true → (n.closed ≡ true) × (n.queue ≡ m.queue) × (n.next ≡ m.next))
  Feed-frame (send e f g) h = (refl, omega arith, (λ a b. cc), λ a. cc)
  Feed-frame {m} (stop e f g) h =
      (length-cancel_from m.next m.results, omega arith, (λ a b. refl), λ a. cc)
  Feed-frame (close e f) h = (refl, h, (λ a b. e), λ a. cc)

  Step-IsPlaced : {s u : SchedulerState} → IsPlaced s → Step config jobs s u → IsPlaced u
  Step-IsPlaced {s} p (act (work w {old} {new} {m} e mv)) =
      let frame = Move-frame mv in
      record {
        sizes = frame.0 ∙ p.sizes;
        sent = omega (arith, p.sent, frame.1);
        all_sent = λ h. frame.1 ∙ p.all_sent (sym frame.2 ∙ h);
        left = λ h. Step-left w p e mv h;
        once = λ i h. Step-once w p e mv i h;
      }
  Step-IsPlaced {s} p cancel = record {
    sizes = p.sizes;
    sent = p.sent;
    all_sent = p.all_sent;
    left = p.left;
    once = p.once;
  }
  Step-IsPlaced {s} p (act (feed {m} f)) =
      let frame = Feed-frame f p.sent in
      record {
        sizes = frame.0 ∙ p.sizes;
        sent = frame.1;
        all_sent = λ h. elim (Bool-cases s.shared.closed) [
          | inr still ↦ frame.2 still h
          | inl shut ↦ (frame.3 shut).2 ∙ p.all_sent shut
        ];
        left = λ h.
            let before = p.left h in let after = frame.3 before.0 in (after.0, after.1 ∙ before.1);
        once =
            λ i h. omega (arith, p.once i h, Feed-places i f h p.sizes (omega (arith, p.once i h)));
      }

  initial-once : (i : ℕ) (n : ℕ) → is_answered (repeated {A = Option JobResult} n none) i ≡ false
  initial-once i zero = refl
  initial-once zero (suc n) = refl
  initial-once (suc i) (suc n) = initial-once i n

  length-repeated : (n : ℕ) → length (repeated {A = Option JobResult} n none) ≡ n
  length-repeated zero = refl
  length-repeated (suc n) = ap suc (length-repeated n)

  pub Reach-IsPlaced : {s : SchedulerState} → Reach config jobs s → IsPlaced s
  Reach-IsPlaced (started {s} h) =
      let crew = smaller (pos_part config.concurrency) (length jobs) in
      subst IsPlaced (start-initial config jobs s h) (record {
        sizes = length-repeated (length jobs);
        sent = omega arith;
        all_sent = λ h. cc;
        left = λ h. absurd (omega (arith, no_holder config jobs is_finished crew refl, h));
        once = λ i h.
            ground
              (arith, no_holder config jobs (holds_job i) crew refl, initial-once i (length jobs));
      })
  Reach-IsPlaced (stepped r st) = Step-IsPlaced (Reach-IsPlaced r) st
