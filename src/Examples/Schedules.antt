-- ===== src/Examples/Schedules.antt =====
-- A run of the scheduler with one worker and one job.
use egressfox.Probe.Scheduler.Termination.{begins, acts, Took, run_terminates}
use egressfox.Probe.Scheduler.Progress.{CanStep}
use egressfox.Base.Bytes.{eq_bytes, ascii}
use egressfox.Endpoint.{id_string}
use egressfox.Probe.Scheduler.Completion.{IsFinal, final_answers, crew}
use egressfox.Probe.Scheduler.Places.{is_answered}
use egressfox.Probe.Scheduler.Tokens.{IsCounted, Reach-IsCounted}
use egressfox.Base.{
  List, pos, ◌∷◌, [], some, true, ◌≡◌, ◌⊎◌, arith, err, refl, ok, ◌≤◌, ◌*◌, length, ◌+◌,
}
use egressfox.Probe.Scheduler.{
  act, take_job, leave, acquire_endpoint, acquire_target, execute, release_target, release_endpoint,
  send, close, work, feed, started, stepped, waiting, taken, has_endpoint, executing, recorded,
  released, finished, ScheduleConfig, SchedulerState, start, Reach, Job, initial_state, update,
  config_valid, endpoint_key, target_key, ran, all_jobs_valid,
}
use egressfox.Examples.Samples.{endpoint_of, connection_a}

abbrev one_worker : ScheduleConfig
one_worker = record {
  concurrency = pos 1;
  queue = pos 1;
  per_endpoint = pos 1;
  per_target = pos 1;
  max_jobs = pos 10;
}

abbrev one_job : List Job
one_job = record { endpoint = endpoint_of connection_a; target = ascii "web" } ∷ []

abbrev begun : SchedulerState
begun = initial_state one_worker one_job

abbrev sent : SchedulerState
sent = record { shared = record begun.shared { queue = 0 ∷ []; next = 1 }; workers = begun.workers }

abbrev took : SchedulerState
took = record { shared = record sent.shared { queue = [] }; workers = taken 0 ∷ [] }

abbrev with_endpoint : SchedulerState
with_endpoint = record {
  shared = record took.shared {
    endpoint_tokens = update took.shared.endpoint_tokens (endpoint_key one_job 0) 1;
  };
  workers = has_endpoint 0 ∷ [];
}

abbrev with_both : SchedulerState
with_both = record {
  shared = record with_endpoint.shared {
    target_tokens = update with_endpoint.shared.target_tokens (target_key one_job 0) 1;
  };
  workers = executing 0 ∷ [];
}

abbrev answered : SchedulerState
answered = record {
  shared = record with_both.shared { results = some (ran (err (ascii "refused"))) ∷ [] };
  workers = recorded 0 ∷ [];
}

abbrev without_target : SchedulerState
without_target = record {
  shared = record answered.shared {
    target_tokens = update answered.shared.target_tokens (target_key one_job 0) 0;
  };
  workers = released 0 ∷ [];
}

abbrev idle : SchedulerState
idle = record {
  shared = record without_target.shared {
    endpoint_tokens = update without_target.shared.endpoint_tokens (endpoint_key one_job 0) 0;
  };
  workers = waiting ∷ [];
}

abbrev shut : SchedulerState
shut = record { shared = record idle.shared { closed = true }; workers = idle.workers }

abbrev done : SchedulerState
done = record { shared = shut.shared; workers = finished ∷ [] }

starts : start one_worker one_job ≡ ok begun
unfolding start config_valid all_jobs_valid id_string eq_bytes
starts = refl

at_execution : Reach one_worker one_job with_both
unfolding id_string eq_bytes
at_execution =
    stepped
      (stepped
        (stepped (stepped (started starts) (act (feed (send (omega arith) refl (omega arith)))))
          (act (work 0 refl (take_job refl))))
        (act (work 0 refl (acquire_endpoint (omega arith)))))
      (act (work 0 refl (acquire_target (omega arith))))

at_idle : Reach one_worker one_job idle
unfolding id_string eq_bytes
at_idle =
    stepped
      (stepped (stepped at_execution (act (work 0 refl (execute (err (ascii "refused"))))))
        (act (work 0 refl release_target)))
      (act (work 0 refl release_endpoint))

at_end : Reach one_worker one_job done
at_end =
    stepped (stepped at_idle (act (feed (close refl refl)))) (act (work 0 refl (leave refl refl)))

Reach-IsCounted_example : IsCounted one_worker one_job with_both
Reach-IsCounted_example = Reach-IsCounted one_worker one_job at_execution

final_answers_example : is_answered done.shared.results 0 ≡ true
final_answers_example = final_answers one_worker one_job at_end (refl, (refl, tt)) 0 (omega arith)

run_of_four : Took one_worker one_job 4 with_both
unfolding id_string eq_bytes
run_of_four =
    acts
      (acts
        (acts (acts (begins starts) (feed (send (omega arith) refl (omega arith))))
          (work 0 refl (take_job refl)))
        (work 0 refl (acquire_endpoint (omega arith))))
      (work 0 refl (acquire_target (omega arith)))

run_terminates_example :
    (4 ≤ 7 * length one_job + crew one_worker one_job + 1)
    × (IsFinal one_worker one_job with_both ⊎ CanStep one_worker one_job with_both)
run_terminates_example = run_terminates one_worker one_job 4 with_both run_of_four
