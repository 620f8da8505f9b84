-- ===== src/Examples/Failing.antt =====
-- A worker of internal/worker/pool.go at concrete inputs, over the in-memory store.
use distributed_task_queue_s.Base.{
  ◌+◌, ◌*◌, min, ℤ, pos, ◌<ℤ◌, true, false, ◌≡◌, refl, some, [], ◌∷◌, ok, arith, message,
  error_text, lookup, Dict,
}
use distributed_task_queue_s.Job.{priority_low, can_retry}
use distributed_task_queue_s.Job.Queue.{QueueConfig, RetryStrategy, exponential, second}
use distributed_task_queue_s.Manager.Storage.{memory_storage}
use distributed_task_queue_s.Manager.Enqueueing.{MemoryManager, SameWork}
use distributed_task_queue_s.Pool.Backoff.{calculate_retry_delay}
use distributed_task_queue_s.Pool.Delays.{
  described, calculate_retry_delay-described, calculate_retry_delay-overflows,
}
use distributed_task_queue_s.Pool.Running.{
  panicked, JobHandler, process_job, dead_letter, handle_job_failure,
}
use distributed_task_queue_s.Pool.Backend.{memory_storage-NoPanics}
use distributed_task_queue_s.Pool.Returning.{process_job-ok}
use distributed_task_queue_s.Pool.DeadLetter.{dead_letter_refused}
use distributed_task_queue_s.Pool.Failures.{Requeued, Buried, handle_job_failure_lem}
use distributed_task_queue_s.Examples.Store.{sample, empty_store, tick}

abbrev config : RetryStrategy → ℤ → QueueConfig
config strategy delay = record {
  name = "default";
  max_workers = pos 10;
  max_retries = pos 3;
  retry_strategy = strategy;
  default_timeout = pos 300;
  priority = pos 5;
  rate_limit = pos 0;
  weight = pos 1;
  is_paused = false;
  retry_delay = delay;
  max_retry_delay = pos 3600;
  dead_letter_queue = "dead";
}

abbrev running_store : MemoryManager
running_store = record {
  storage = record empty_store { jobs = ("a", sample "a" priority_low (pos 1)) ∷ [] };
  configs = ("default", config exponential (pos 60)) ∷ [];
}

is_stored : lookup "a" running_store.storage.jobs ≡ some (sample "a" priority_low (pos 1))
unfolding lookup
is_stored = refl

is_known : lookup "default" running_store.configs ≡ some (config exponential (pos 60))
unfolding lookup
is_known = refl

handle_job_failure_lem_example :
    (h : MemoryManager) × (handle_job_failure memory_storage "w"
        (sample "a" priority_low (pos 1))
        (message "boom")
        tick
        running_store
      ≡ (ok tt, h))
    × (can_retry (sample "a" priority_low (pos 1)) ≡ true
        → Requeued
            (sample "a" priority_low (pos 1))
            (config exponential (pos 60))
            tick
            running_store
            h)
    × (can_retry (sample "a" priority_low (pos 1)) ≡ false
        → Buried (sample "a" priority_low (pos 1)) (error_text (message "boom")) running_store h)
handle_job_failure_lem_example =
    handle_job_failure_lem "w" (sample "a" priority_low (pos 1)) (message "boom")
      (config exponential (pos 60)) tick running_store is_stored is_known

dead_letter_refused_example :
    (h : MemoryManager) × (dead_letter memory_storage "w"
        (sample "a" priority_low (pos 1))
        (config exponential (pos 60))
        tick
        running_store
      ≡ (ok tt, h))
    × SameWork running_store h
dead_letter_refused_example =
    dead_letter_refused "w" (sample "a" priority_low (pos 1)) (config exponential (pos 60)) tick
      running_store is_stored

calculate_retry_delay-described_example :
    calculate_retry_delay (pos (2 + 1)) (config exponential (pos 60))
    ≡ pos (min (described exponential (60 * second) 2) (3600 * second))
calculate_retry_delay-described_example =
    calculate_retry_delay-described (config exponential (pos 60)) 60 3600 2 refl refl (omega arith)
      (omega arith) (omega arith) (omega arith)

-- The manager's own defaults, 60 seconds doubled up to an hour, wrap at the 29th retry.
calculate_retry_delay-overflows_example :
    calculate_retry_delay (pos (28 + 1)) (config exponential (pos 60)) <ℤ pos 0
calculate_retry_delay-overflows_example =
    calculate_retry_delay-overflows (config exponential (pos 60)) 60 3600 28 refl refl refl
      (omega arith) (omega arith) (omega arith) (omega arith) (omega arith)

-- A handler that panics.
abbrev crashing : Dict JobHandler
crashing = ("email", λ j. (panicked "no mail", j)) ∷ []

process_job-ok_example :
    (process_job memory_storage "w" crashing (sample "a" priority_low (pos 1)) tick running_store).0
    ≡ ok tt
process_job-ok_example =
    process_job-ok memory_storage memory_storage-NoPanics "w" crashing
      (sample "a" priority_low (pos 1)) tick running_store
