-- ===== src/Probe/Scheduler/Tokens.antt =====
-- The semaphores of internal/probe/scheduler.go count the workers that hold them.
use egressfox.Base.Bytes.{eq_bytes_sound}
use egressfox.Base.Counts.{bit, length-keep_if-set}
use egressfox.Probe.Scheduler.{
  waiting, taken, has_endpoint, executing, recorded, released, cancelling, finished, take_job,
  leave, acquire_endpoint, give_up, acquire_target, give_back, record_cancelled, execute,
  release_target, release_endpoint, send, stop, close, act, cancel, work, feed, started, stepped,
  ScheduleConfig, Job, Bytes, Pc, SchedulerState, Shared, Move, eq_bytes, endpoint_key, target_key,
  Feed, Step, repeated, start, Reach, initial_state, config_valid, configuration, job_limit,
  all_jobs_valid, invalid_job, smaller,
}
use egressfox.Base.{
  ℕ, List, Bool, ◌≡◌, length, ◌≤◌, keep_if, pos_part, ◌+◌, false, arith, get_elem?, some, suc, ok,
  subst, ◌∷◌, ap, zero, ◌∙◌, >>-eq-ok, refl, [], not, ltb_ℤ, pos,
}

module _ (config : ScheduleConfig) (jobs : List Job) where
  abbrev pub is_job : (ℕ → Bytes) → Bytes → ℕ → Bool
  is_job key_of key i = eq_bytes (key_of i) key

  abbrev pub holds_endpoint : Bytes → Pc → Bool
  holds_endpoint key (has_endpoint i) = is_job (endpoint_key jobs) key i
  holds_endpoint key (executing i) = is_job (endpoint_key jobs) key i
  holds_endpoint key (recorded i) = is_job (endpoint_key jobs) key i
  holds_endpoint key (released i) = is_job (endpoint_key jobs) key i
  holds_endpoint key waiting = false
  holds_endpoint key (taken i) = false
  holds_endpoint key (cancelling i) = false
  holds_endpoint key finished = false

  abbrev pub holds_target : Bytes → Pc → Bool
  holds_target key (executing i) = is_job (target_key jobs) key i
  holds_target key (recorded i) = is_job (target_key jobs) key i
  holds_target key waiting = false
  holds_target key (taken i) = false
  holds_target key (has_endpoint i) = false
  holds_target key (released i) = false
  holds_target key (cancelling i) = false
  holds_target key finished = false

  abbrev pub count : (Pc → Bool) → List Pc → ℕ
  count p workers = length (keep_if p workers)

  -- The tokens of every key, and their limits.
  pub record IsCounted (s : SchedulerState) : Type 0 where
    pub endpoints :
        (key : Bytes) → s.shared.endpoint_tokens key ≡ count (holds_endpoint key) s.workers
    pub targets : (key : Bytes) → s.shared.target_tokens key ≡ count (holds_target key) s.workers
    pub endpoint_limit : (key : Bytes) → s.shared.endpoint_tokens key ≤ pos_part config.per_endpoint
    pub target_limit : (key : Bytes) → s.shared.target_tokens key ≤ pos_part config.per_target

  -- How a move changes the tokens of a key.
  Move-endpoints :
      {m n : Shared} {old new : Pc} (key : Bytes)
      → Move config jobs m old n new
      → bit (holds_endpoint key old) ≤ m.endpoint_tokens key
      → m.endpoint_tokens key ≤ pos_part config.per_endpoint
      → (n.endpoint_tokens key + bit (holds_endpoint key old)
          ≡ m.endpoint_tokens key + bit (holds_endpoint key new))
        × (n.endpoint_tokens key ≤ pos_part config.per_endpoint)
  Move-endpoints key (take_job e) h l = ground arith
  Move-endpoints key (leave e f) h l = ground arith
  Move-endpoints key (acquire_endpoint {i} free) h l =
      ground (arith, eq_bytes_sound (endpoint_key jobs i) key)
  Move-endpoints key (give_up e) h l = ground arith
  Move-endpoints key (acquire_target free) h l = ground arith
  Move-endpoints key (give_back {i} e) h l =
      ground (arith, eq_bytes_sound (endpoint_key jobs i) key)
  Move-endpoints key record_cancelled h l = ground arith
  Move-endpoints key (execute answer) h l = ground arith
  Move-endpoints key release_target h l = ground arith
  Move-endpoints key (release_endpoint {i}) h l =
      ground (arith, eq_bytes_sound (endpoint_key jobs i) key)

  Move-targets :
      {m n : Shared} {old new : Pc} (key : Bytes)
      → Move config jobs m old n new
      → bit (holds_target key old) ≤ m.target_tokens key
      → m.target_tokens key ≤ pos_part config.per_target
      → (n.target_tokens key + bit (holds_target key old)
          ≡ m.target_tokens key + bit (holds_target key new))
        × (n.target_tokens key ≤ pos_part config.per_target)
  Move-targets key (take_job e) h l = ground arith
  Move-targets key (leave e f) h l = ground arith
  Move-targets key (acquire_endpoint free) h l = ground arith
  Move-targets key (give_up e) h l = ground arith
  Move-targets key (acquire_target {i} free) h l =
      ground (arith, eq_bytes_sound (target_key jobs i) key)
  Move-targets key (give_back e) h l = ground arith
  Move-targets key record_cancelled h l = ground arith
  Move-targets key (execute answer) h l = ground arith
  Move-targets key (release_target {i}) h l = ground (arith, eq_bytes_sound (target_key jobs i) key)
  Move-targets key release_endpoint h l = ground arith

  Feed-tokens :
      {m n : Shared}
      → Feed config jobs m n
      → (n.endpoint_tokens ≡ m.endpoint_tokens) × (n.target_tokens ≡ m.target_tokens)
  Feed-tokens (send e f g) = (refl, refl)
  Feed-tokens (stop e f g) = (refl, refl)
  Feed-tokens (close e f) = (refl, refl)

  pub bit-le-count :
      (p : Pc → Bool) (workers : List Pc) (w : ℕ) (old : Pc)
      → get_elem? workers w ≡ some old
      → bit (p old) ≤ count p workers
  bit-le-count p [] w old h = cc
  bit-le-count p (x ∷ xs) zero old h = ground arith
  bit-le-count p (x ∷ xs) (suc w) old h = ground (arith, bit-le-count p xs w old h)

  Step-IsCounted : {s u : SchedulerState} → IsCounted s → Step config jobs s u → IsCounted u
  Step-IsCounted {s} c (act (work w {old} {new} {m} e mv)) =
      let ends = λ (key : Bytes).
        Move-endpoints key mv
          (omega (arith, c.endpoints key, bit-le-count (holds_endpoint key) s.workers w old e))
          (c.endpoint_limit key) in
      let aims = λ (key : Bytes).
        Move-targets key mv
          (omega (arith, c.targets key, bit-le-count (holds_target key) s.workers w old e))
          (c.target_limit key) in
      record {
        endpoints = λ key. omega (
          arith,
          (ends key).0,
          c.endpoints key,
          length-keep_if-set (holds_endpoint key) s.workers w old new e,
        );
        targets = λ key. omega (
          arith,
          (aims key).0,
          c.targets key,
          length-keep_if-set (holds_target key) s.workers w old new e,
        );
        endpoint_limit = λ key. (ends key).1;
        target_limit = λ key. (aims key).1;
      }
  Step-IsCounted c cancel = record {
    endpoints = c.endpoints;
    targets = c.targets;
    endpoint_limit = c.endpoint_limit;
    target_limit = c.target_limit;
  }
  Step-IsCounted c (act (feed f)) =
      let (same, same') = Feed-tokens f in
      record {
        endpoints = λ key. ap (λ t. t key) same ∙ c.endpoints key;
        targets = λ key. ap (λ t. t key) same' ∙ c.targets key;
        endpoint_limit = λ key. omega (arith, ap (λ t. t key) same, c.endpoint_limit key);
        target_limit = λ key. omega (arith, ap (λ t. t key) same', c.target_limit key);
      }

  pub no_holder : (p : Pc → Bool) (n : ℕ) → p waiting ≡ false → 0 ≡ count p (repeated n waiting)
  no_holder p zero h = refl
  no_holder p (suc n) h = rw h (no_holder p n h)

  pub start-initial :
      (s : SchedulerState) → start config jobs ≡ ok s → initial_state config jobs ≡ s
  unfolding start
  start-initial s h =
      let (a, h1) = >>-eq-ok (not (config_valid config)) configuration _ h in
      let (b, h2) = >>-eq-ok (ltb_ℤ config.max_jobs (pos (length jobs))) job_limit _ h1 in
      let (c, h3) = >>-eq-ok (not (all_jobs_valid jobs)) invalid_job _ h2 in ground arith

  -- In every state that Run reaches, whatever the interleaving: the tokens of an endpoint are the
  -- workers that hold it, and at most the limit for each endpoint; and the same for a target.
  pub Reach-IsCounted : {s : SchedulerState} → Reach config jobs s → IsCounted s
  Reach-IsCounted (started {s} h) = subst IsCounted (start-initial s h) (record {
    endpoints = λ key.
        no_holder (holds_endpoint key) (smaller (pos_part config.concurrency) (length jobs)) refl;
    targets = λ key.
        no_holder (holds_target key) (smaller (pos_part config.concurrency) (length jobs)) refl;
    endpoint_limit = λ key. omega arith;
    target_limit = λ key. omega arith;
  })
  Reach-IsCounted (stepped r st) = Step-IsCounted (Reach-IsCounted r) st
