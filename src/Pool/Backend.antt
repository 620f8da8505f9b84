-- ===== src/Pool/Backend.antt =====
-- The in-memory backend of internal/storage/memory/memory.go never panics where a worker calls it.
use distributed_task_queue_s.Base.{inl, inr, Option-cases, lookup, String}
use distributed_task_queue_s.Job.{Job, Time, Duration, Priority}
use distributed_task_queue_s.Job.Worker.{Worker}
use distributed_task_queue_s.Memory.Jobs.{
  create_job, update_job, change_job, update_status, update_progress, set_error,
}
use distributed_task_queue_s.Memory.Queues.{enqueue, requeue}
use distributed_task_queue_s.Memory.Workers.{
  change_worker, set_current_job, increment_processed, increment_failed,
}
use distributed_task_queue_s.Memory.Metrics.{
  record_job_created, record_job_completed, record_job_failed, record_job_retried,
}
use distributed_task_queue_s.Memory.Configs.{save_queue_config, get_queue_config}
use distributed_task_queue_s.Manager.Storage.{memory_storage}
use distributed_task_queue_s.Pool.Panics.{Safe, NoPanics}

create_job-Safe : (j : Job) → Safe (create_job j)
unfolding create_job
create_job-Safe j m = elim (Option-cases (lookup j.id m.jobs)) [
  | inl e ↦ rw (e, create_job) tt
  | inr (_, e) ↦ rw (e, create_job) tt
]

update_job-Safe : (j : Job) → Safe (update_job j)
unfolding update_job
update_job-Safe j m = elim (Option-cases (lookup j.id m.jobs)) [
  | inl e ↦ rw (e, update_job) tt
  | inr (_, e) ↦ rw (e, update_job) tt
]

change_job-Safe : (id : String) (f : Job → Job) → Safe (change_job id f)
unfolding change_job
change_job-Safe id f m = elim (Option-cases (lookup id m.jobs)) [
  | inl e ↦ rw (e, change_job) tt
  | inr (_, e) ↦ rw (e, change_job) tt
]

change_worker-Safe : (id : String) (f : Worker → Worker) → Safe (change_worker id f)
unfolding change_worker
change_worker-Safe id f m = elim (Option-cases (lookup id m.workers)) [
  | inl e ↦ rw (e, change_worker) tt
  | inr (_, e) ↦ rw (e, change_worker) tt
]

enqueue-Safe :
    (q id : String) (p : Priority) (d : Duration) (now : Time) → Safe (enqueue q id p d now)
unfolding enqueue
enqueue-Safe q id p d now m = elim (Option-cases (lookup id m.jobs)) [
  | inl e ↦ rw (e, enqueue) tt
  | inr (_, e) ↦ rw (e, enqueue) tt
]

get_queue_config-Safe : (q : String) → Safe (get_queue_config q)
unfolding get_queue_config
get_queue_config-Safe q m = elim (Option-cases (lookup q m.queue_configs)) [
  | inl e ↦ rw (e, get_queue_config) tt
  | inr (_, e) ↦ rw (e, get_queue_config) tt
]

pub memory_storage-NoPanics : NoPanics memory_storage
unfolding update_status update_progress set_error requeue set_current_job increment_processed
    increment_failed record_job_created record_job_completed record_job_failed record_job_retried
    save_queue_config
memory_storage-NoPanics = record {
  create_job = create_job-Safe;
  update_job = update_job-Safe;
  update_status = λ id s now. change_job-Safe id _;
  update_progress = λ id p now. change_job-Safe id _;
  set_error = λ id text now. change_job-Safe id _;
  enqueue = enqueue-Safe;
  requeue = enqueue-Safe;
  set_current_job = λ w id. change_worker-Safe w _;
  increment_processed = λ w. change_worker-Safe w _;
  increment_failed = λ w. change_worker-Safe w _;
  record_job_created = λ _ _ _. tt;
  record_job_completed = λ _ _ _ _. tt;
  record_job_failed = λ _ _ _. tt;
  record_job_retried = λ _ _ _. tt;
  save_queue_config = λ _ _. tt;
  get_queue_config = get_queue_config-Safe;
}
