-- ===== src/Probe/Scheduler.antt =====
-- internal/probe/scheduler.go: Scheduler.Run as a producer and workers over a queue, with a semaphore
-- for each endpoint and for each target, interleaved in any order. The statistics are left out.
pub mod Tokens
pub mod Places
pub mod Completion
pub mod Standing
pub mod Progress
pub mod Termination
use egressfox.Observation.{Observation}
use egressfox.Base.Bytes.{Bytes, eq_bytes}
use egressfox.Endpoint.{Record, id_string, identity_of, invalid_endpoint_id, is_empty}
use egressfox.Base.{
  ℕ, ℤ, Bool, Result, List, Option, if◌then◌else◌, leb_ℤ, pos, [], get_elem?, ◌∷◌, ltb, ◌≡◌, ◌<◌,
  ◌>>◌, ◌&&◌, some, true, suc, false, fail_if, length, ok, not, none, pos_part, set, zero, ltb_ℤ,
  ◌+◌, ◌++◌, ◌-◌,
}

pub record ScheduleConfig : Type 0 where
  pub concurrency : ℤ
  pub queue : ℤ
  pub per_endpoint : ℤ
  pub per_target : ℤ
  pub max_jobs : ℤ

abbrev pub within : ℕ → ℤ → ℤ → Bool
within low value high = leb_ℤ (pos low) value && leb_ℤ value high

-- ScheduleConfig.valid
unfoldable pub config_valid : ScheduleConfig → Bool
config_valid c =
    within 1 c.concurrency (pos 64)
    && within 1 c.queue (pos 4096)
    && within 1 c.per_endpoint c.concurrency
    && within 1 c.per_target c.concurrency
    && within 1 c.max_jobs (pos 10000)

-- A job, with the identifier of its target.
pub record Job : Type 0 where
  pub endpoint : Record
  pub target : Bytes

pub data ScheduleError : Type 0 where
  configuration job_limit invalid_job : ScheduleError

-- What Execute answers, or the failure of a job that a cancellation stopped.
pub data JobResult : Type 0 where
  cancelled_job : JobResult
  ran : Result Bytes Observation → JobResult

-- What the goroutines share.
pub record Shared : Type 0 where
  pub queue : List ℕ
  pub next : ℕ
  pub closed : Bool
  pub cancelled : Bool
  pub endpoint_tokens : Bytes → ℕ
  pub target_tokens : Bytes → ℕ
  pub results : List (Option JobResult)

-- Where a worker stands, with the index of its job.
pub data Pc : Type 0 where
  waiting : Pc
  taken : ℕ → Pc
  has_endpoint : ℕ → Pc
  executing : ℕ → Pc
  recorded : ℕ → Pc
  released : ℕ → Pc
  cancelling : ℕ → Pc
  finished : Pc

pub record SchedulerState : Type 0 where
  pub shared : Shared
  pub workers : List Pc

abbrev pub update : (Bytes → ℕ) → Bytes → ℕ → Bytes → ℕ
update f key n other = if eq_bytes key other then n else f other

abbrev pub endpoint_key_of : Option Job → Bytes
endpoint_key_of none = []
endpoint_key_of (some job) = id_string (identity_of job.endpoint).id

abbrev pub target_key_of : Option Job → Bytes
target_key_of none = []
target_key_of (some job) = job.target

abbrev pub endpoint_key : List Job → ℕ → Bytes
endpoint_key jobs i = endpoint_key_of (get_elem? jobs i)

abbrev pub target_key : List Job → ℕ → Bytes
target_key jobs i = target_key_of (get_elem? jobs i)

-- results[index:] fails.
abbrev pub cancel_from : ℕ → List (Option JobResult) → List (Option JobResult)
cancel_from n [] = []
cancel_from zero (r ∷ rs) = some cancelled_job ∷ cancel_from zero rs
cancel_from (suc n) (r ∷ rs) = r ∷ cancel_from n rs

-- A job whose keys the maps of semaphores accept.
unfoldable pub all_jobs_valid : List Job → Bool
unfolding id_string eq_bytes
all_jobs_valid [] = true
all_jobs_valid (job ∷ jobs) =
    not (eq_bytes (id_string (identity_of job.endpoint).id) invalid_endpoint_id)
    && not (is_empty job.target)
    && all_jobs_valid jobs

abbrev pub repeated {ℓ} : {A : Type ℓ} → ℕ → A → List A
repeated zero a = []
repeated (suc n) a = a ∷ repeated n a

abbrev pub smaller : ℕ → ℕ → ℕ
smaller a b = if ltb b a then b else a

abbrev pub initial_state : ScheduleConfig → List Job → SchedulerState
initial_state config jobs = record {
  shared = record {
    queue = [];
    next = 0;
    closed = false;
    cancelled = false;
    endpoint_tokens = λ key. 0;
    target_tokens = λ key. 0;
    results = repeated (length jobs) none;
  };
  workers = repeated (smaller (pos_part config.concurrency) (length jobs)) waiting;
}

-- NewScheduler and the checks of Run.
unfoldable pub start : ScheduleConfig → List Job → Result ScheduleError SchedulerState
unfolding config_valid all_jobs_valid
start config jobs = do
  fail_if (not (config_valid config)) configuration
  fail_if (ltb_ℤ config.max_jobs (pos (length jobs))) job_limit
  fail_if (not (all_jobs_valid jobs)) invalid_job
  ok (initial_state config jobs)

module _ (config : ScheduleConfig) (jobs : List Job) where
  -- One step of a worker.
  pub data Move (m : Shared) : Pc → Shared → Pc → Type 0 where
    take_job :
        {i : ℕ} {rest : List ℕ}
        → m.queue ≡ i ∷ rest
        → Move m waiting (record m { queue = rest }) (taken i)
    leave : m.queue ≡ [] → m.closed ≡ true → Move m waiting m finished
    acquire_endpoint :
        {i : ℕ}
        → m.endpoint_tokens (endpoint_key jobs i) < pos_part config.per_endpoint
        → Move m
            (taken i)
            (record m {
              endpoint_tokens =
                  update m.endpoint_tokens
                    (endpoint_key jobs i)
                    (m.endpoint_tokens (endpoint_key jobs i) + 1);
            })
            (has_endpoint i)
    give_up : {i : ℕ} → m.cancelled ≡ true → Move m (taken i) m (cancelling i)
    acquire_target :
        {i : ℕ}
        → m.target_tokens (target_key jobs i) < pos_part config.per_target
        → Move m
            (has_endpoint i)
            (record m {
              target_tokens =
                  update m.target_tokens
                    (target_key jobs i)
                    (m.target_tokens (target_key jobs i) + 1);
            })
            (executing i)
    give_back :
        {i : ℕ}
        → m.cancelled ≡ true
        → Move m
            (has_endpoint i)
            (record m {
              endpoint_tokens =
                  update m.endpoint_tokens
                    (endpoint_key jobs i)
                    (m.endpoint_tokens (endpoint_key jobs i) - 1);
            })
            (cancelling i)
    record_cancelled :
        {i : ℕ}
        → Move m
            (cancelling i)
            (record m { results = set m.results i (some cancelled_job) })
            waiting
    execute :
        {i : ℕ} (answer : Result Bytes Observation)
        → Move m
            (executing i)
            (record m { results = set m.results i (some (ran answer)) })
            (recorded i)
    release_target :
        {i : ℕ}
        → Move m
            (recorded i)
            (record m {
              target_tokens =
                  update m.target_tokens
                    (target_key jobs i)
                    (m.target_tokens (target_key jobs i) - 1);
            })
            (released i)
    release_endpoint :
        {i : ℕ}
        → Move m
            (released i)
            (record m {
              endpoint_tokens =
                  update m.endpoint_tokens
                    (endpoint_key jobs i)
                    (m.endpoint_tokens (endpoint_key jobs i) - 1);
            })
            waiting

  -- One step of the producer.
  pub data Feed (m : Shared) : Shared → Type 0 where
    send :
        m.next < length jobs
        → m.closed ≡ false
        → length m.queue < pos_part config.queue
        → Feed m (record m { queue = m.queue ++ m.next ∷ []; next = m.next + 1 })
    stop :
        m.next < length jobs
        → m.closed ≡ false
        → m.cancelled ≡ true
        → Feed m
            (record m { results = cancel_from m.next m.results; next = length jobs; closed = true })
    close : m.next ≡ length jobs → m.closed ≡ false → Feed m (record m { closed = true })

  -- One step of a goroutine.
  pub data Act (s : SchedulerState) : SchedulerState → Type 0 where
    work :
        (w : ℕ) {old new : Pc} {m : Shared}
        → get_elem? s.workers w ≡ some old
        → Move s.shared old m new
        → Act s (record { shared = m; workers = set s.workers w new })
    feed : {m : Shared} → Feed s.shared m → Act s (record { shared = m; workers = s.workers })

  -- A step of a goroutine, or the cancellation of the context.
  pub data Step (s : SchedulerState) : SchedulerState → Type 0 where
    act : {u : SchedulerState} → Act s u → Step s u
    cancel : Step s (record { shared = record s.shared { cancelled = true }; workers = s.workers })

  pub data Reach : SchedulerState → Type 0 where
    started : {s : SchedulerState} → start config jobs ≡ ok s → Reach s
    stepped : {s u : SchedulerState} → Reach s → Step s u → Reach u
