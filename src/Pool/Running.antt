-- ===== src/Pool/Running.antt =====
-- fetchJobs, processJob and the handling of its result in internal/worker/pool.go. `now k` is the
-- (k + 1)-th reading of the clock within a call.
use Prim.Native.String.{◌++◌ as append}
use distributed_task_queue_s.Base.{
  ℕ, ◌+◌, pos, ◌+ℤ◌, ◌-ℤ◌, saturate64, String, ◌==◌, if◌then◌else◌, none, some, Dict, lookup,
  Method, Outcome, ok, err, panic, handle, give, or_log, ◌>>◌, Error, message, error_text,
}
use distributed_task_queue_s.Job.{
  Job, pending, running, success, failed, retrying, can_retry, Time, Duration,
}
use distributed_task_queue_s.Job.Queue.{QueueConfig}
use distributed_task_queue_s.Manager.{Manager, call}
use distributed_task_queue_s.Manager.Storage.{Storage}
use distributed_task_queue_s.Manager.Queues.{get_queue_config}
use distributed_task_queue_s.Manager.Jobs.{
  enqueue, requeue, update_job_status, update_job_progress, set_job_error,
}
use distributed_task_queue_s.Pool.Backoff.{calculate_retry_delay}

-- A handler is code of the program's user: how it ends, with the text of the value if it panics, and
-- the job as it leaves it. It is taken not to touch the store.
pub data HandlerResult : Type 0 where
  completed : HandlerResult
  errored : Error → HandlerResult
  panicked : String → HandlerResult

abbrev pub JobHandler : Type 0
JobHandler = Job → HandlerResult × Job

-- The clock from its (n + 1)-th reading on.
abbrev pub later : ℕ → (ℕ → Time) → ℕ → Time
later n now k = now (n + k)

-- `recover` turns a panic of the handler into an error.
unfoldable pub recovered : HandlerResult × Job → Outcome (Unit {0}) × Job
recovered (completed, j) = (ok tt, j)
recovered (errored e, j) = (err e, j)
recovered (panicked v, j) = (err (message (append "job panicked: " v)), j)

unfoldable pub execute_job : Dict JobHandler → Job → Outcome (Unit {0}) × Job
unfolding recovered
execute_job handlers j = elim (lookup j.type handlers) [
  | none ↦ (err (message (append "no handler registered for job type: " j.type)), j)
  | some h ↦ recovered (h j)
]

abbrev pub retried : Job → Job
retried j = record j { current_retry = j.current_retry +ℤ pos 1 }

module _ {S : Type 0} (st : Storage S) (worker_id : String) where
  unfoldable pub handle_job_success : Job → Duration → (ℕ → Time) → Method (Manager S) (Unit {0})
  handle_job_success j duration now = do
    or_log (update_job_status st j.id success now)
    or_log (update_job_progress st j.id (pos 100) (now 3))
    or_log (call (st.record_job_completed j.queue j.type duration))
    or_log (call (st.increment_processed worker_id))

  -- The job with its retry counted goes back into the queue.
  unfoldable pub retry_job : Job → QueueConfig → (ℕ → Time) → Method (Manager S) (Unit {0})
  retry_job j config now = do
    or_log (update_job_status st j.id retrying now)
    or_log (requeue st j (calculate_retry_delay j.current_retry config) (now 3))
    or_log (call (st.record_job_retried j.queue j.type))
    or_log (call (st.increment_failed worker_id))

  unfoldable pub dead_letter : Job → QueueConfig → (ℕ → Time) → Method (Manager S) (Unit {0})
  dead_letter j config now =
      if config.dead_letter_queue == ""
      then give tt
      else or_log (enqueue st (record j { queue = config.dead_letter_queue; status = pending }) now)

  unfoldable pub fail_job : Job → (ℕ → Time) → Method (Manager S) (Unit {0})
  fail_job j now = do
    or_log (update_job_status st j.id failed now)
    or_log (call (st.record_job_failed j.queue j.type))
    handle (get_queue_config st j.queue) (λ c. dead_letter j c (later 3 now)) (λ _. give tt)
    or_log (call (st.increment_failed worker_id))

  -- Without a configuration the method returns at once, and the worker counts no failure.
  unfoldable pub handle_job_failure : Job → Error → (ℕ → Time) → Method (Manager S) (Unit {0})
  handle_job_failure j e now = do
    or_log (set_job_error st j.id (error_text e) (now 0))
    let again = λ (c : QueueConfig). retry_job (retried j) c (later 1 now)
    let retry = handle (get_queue_config st j.queue) again (λ _. give tt)
    if can_retry j then retry else fail_job j (later 1 now)

  unfoldable pub handle_result :
      Outcome (Unit {0}) × Job → Duration → (ℕ → Time) → Method (Manager S) (Unit {0})
  handle_result (ok _, j) duration now = handle_job_success j duration now
  handle_result (err e, j) duration now = handle_job_failure j e now
  handle_result (panic, j) duration now = λ g. (panic, g)

  -- A job whose status cannot be written is dropped.
  unfoldable pub process_job : Dict JobHandler → Job → (ℕ → Time) → Method (Manager S) (Unit {0})
  process_job handlers j now =
      handle (update_job_status st j.id running (later 1 now))
        (λ _. do
          or_log (call (st.set_current_job worker_id j.id))
          let result = execute_job handlers j
          or_log (call (st.set_current_job worker_id ""))
          handle_result result (saturate64 (now 4 -ℤ now 0)) (later 5 now))
        (λ _. give tt)
