-- ===== src/Manager/Jobs.antt =====
-- The job methods of internal/queue/manager.go (Enqueue to RemoveJob, and GetJob to CancelJob).
-- `now k` is the (k + 1)-th reading of the clock within a call.
use distributed_task_queue_s.Base.{
  saturate64, ℕ, suc, ℤ, pos, ◌-ℤ◌, String, ◌==◌, if◌then◌else◌, Option, none, some, List, [], ◌∷◌,
  Method, handle, give, fail, annotate, or_log, ◌>>=◌, ◌>>◌, Error, empty_queue, queue_error,
  job_error, false,
}
use distributed_task_queue_s.Job.{
  Job, Status, StatusFilter, pending, cancelled, status_eq, is_terminal, Time, Duration, after,
  priority_normal,
}
use distributed_task_queue_s.Job.Queue.{QueueConfig, exponential}
use distributed_task_queue_s.Manager.{Manager, call}
use distributed_task_queue_s.Manager.Storage.{Storage}
use distributed_task_queue_s.Manager.Queues.{register_queue, get_queue_config, default_to}
use distributed_task_queue_s.Manager.Selection.{select_queue}

-- The configuration that Enqueue registers for an unknown queue.
abbrev pub fallback_config : String → QueueConfig
fallback_config name = record {
  name = name;
  max_workers = pos 10;
  max_retries = pos 3;
  retry_strategy = exponential;
  default_timeout = pos 300;
  priority = priority_normal;
  rate_limit = pos 0;
  weight = pos 1;
  is_paused = false;
  retry_delay = pos 60;
  max_retry_delay = pos 3600;
  dead_letter_queue = "";
}

abbrev pub with_queue : Job → Job
with_queue j = record j { queue = if j.queue == "" then "default" else j.queue }

abbrev pub with_job_defaults : QueueConfig → Job → Job
with_job_defaults c j = record j {
  max_retries = default_to c.max_retries j.max_retries;
  timeout = default_to c.default_timeout j.timeout;
}

-- A job with no scheduled time (the zero time) has none after any reading of the clock.
unfoldable pub enqueue_delay : Option Time → (ℕ → Time) → Duration
enqueue_delay none now = pos 0
enqueue_delay (some at) now = if after at (now 0) then saturate64 (at -ℤ now 1) else pos 0

module _ {S : Type 0} (st : Storage S) where
  unfoldable pub config_for : String → Method (Manager S) QueueConfig
  config_for queue =
      handle (get_queue_config st queue) give (λ _. register_queue st (fallback_config queue))

  -- The value is the job as the caller sees it afterwards.
  unfoldable pub enqueue : Job → (ℕ → Time) → Method (Manager S) Job
  enqueue job now = do
    config ← config_for (with_queue job).queue
    let j = with_job_defaults config (with_queue job)
    annotate "failed to create job" (call (st.create_job j))
    annotate "failed to enqueue job"
        (call (st.enqueue j.queue j.id j.priority (enqueue_delay j.scheduled_at now) (now 2)))
    or_log (call (st.record_job_created j.queue j.type))
    give j

  -- The other queues in their order, past the errors of each; the last error is returned.
  unfoldable pub try_others :
      String → List String → Error → ℕ → (ℕ → Time) → Method (Manager S) String
  try_others selected [] e k now = fail e
  try_others selected (q ∷ qs) e k now =
      let skip = try_others selected qs e k now in
      if q == selected
      then skip
      else handle (call (st.dequeue q (now k))) give (λ e'. try_others selected qs e' (suc k) now)

  unfoldable pub after_failure :
      String → List String → (ℕ → Time) → Error → Method (Manager S) String
  after_failure selected queues now e = elim e [
    | empty_queue ↦ try_others selected queues empty_queue 1 now
    | other ↦ fail other
  ]

  unfoldable pub dequeue_from : String → List String → (ℕ → Time) → Method (Manager S) Job
  dequeue_from selected queues now = if selected == "" then fail empty_queue else do
    id ← handle (call (st.dequeue selected (now 0))) give (after_failure selected queues now)
    annotate "failed to get job" (call (st.get_job id))

  unfoldable pub dequeue : (ℕ → ℕ) → List String → (ℕ → Time) → Method (Manager S) Job
  dequeue intn [] now = fail (queue_error "no queues specified" "")
  dequeue intn (q ∷ qs) now = do
    selected ← select_queue st intn (q ∷ qs)
    dequeue_from selected (q ∷ qs) now

  unfoldable pub requeue : Job → Duration → Time → Method (Manager S) (Unit {0})
  requeue j delay now = do
    annotate "failed to update job" (call (st.update_job j))
    annotate "failed to requeue job" (call (st.requeue j.queue j.id j.priority delay now))

  unfoldable pub remove_job : String → String → Method (Manager S) (Unit {0})
  remove_job queue id = annotate "failed to remove job" (call (st.remove queue id))

  unfoldable pub get_job : String → Method (Manager S) Job
  get_job id = call (st.get_job id)

  unfoldable pub update_job : Job → Method (Manager S) (Unit {0})
  update_job j = call (st.update_job j)

  unfoldable pub delete_job : String → Method (Manager S) (Unit {0})
  delete_job id = call (st.delete_job id)

  unfoldable pub list_jobs : String → StatusFilter → ℤ → ℤ → Method (Manager S) (List Job)
  list_jobs queue status limit offset = call (st.list_jobs queue status limit offset)

  unfoldable pub update_job_status : String → Status → (ℕ → Time) → Method (Manager S) (Unit {0})
  update_job_status id status now = call (st.update_status id status now)

  unfoldable pub update_job_progress : String → ℤ → Time → Method (Manager S) (Unit {0})
  update_job_progress id progress now = call (st.update_progress id progress now)

  unfoldable pub set_job_result : String → String → Time → Method (Manager S) (Unit {0})
  set_job_result id result now = call (st.set_result id result now)

  unfoldable pub set_job_error : String → String → Time → Method (Manager S) (Unit {0})
  set_job_error id text now = call (st.set_error id text now)

  unfoldable pub stop_job : String → Job → (ℕ → Time) → Method (Manager S) (Unit {0})
  stop_job id j now = do
    call (st.update_status id cancelled now)
    if status_eq j.status pending then or_log (call (st.remove j.queue id)) else give tt

  unfoldable pub cancel_job : String → (ℕ → Time) → Method (Manager S) (Unit {0})
  cancel_job id now = do
    j ← call (st.get_job id)
    if is_terminal j then fail (job_error "job is already in terminal state") else stop_job id j now
