-- ===== src/Manager/Storage.antt =====
-- The storage interface as internal/queue/manager.go and internal/worker/pool.go call it. The
-- interface file internal/storage/storage.go declares other names and arguments for some of these
-- methods; the in-memory backend has the ones below.
use distributed_task_queue_s.Base.{ℕ, ℤ, String, Bool, List, Dict, Method}
use distributed_task_queue_s.Job.{Job, Status, StatusFilter, Priority, Time, Duration}
use distributed_task_queue_s.Job.Queue.{QueueConfig, QueueStats}
use distributed_task_queue_s.Job.Worker.{Worker, WorkerStatus}
use distributed_task_queue_s.Memory.{MemoryStore}
use distributed_task_queue_s.Memory.Jobs
use distributed_task_queue_s.Memory.Queues
use distributed_task_queue_s.Memory.Workers
use distributed_task_queue_s.Memory.Metrics
use distributed_task_queue_s.Memory.Configs

pub record Storage (S : Type 0) : Type 0 where
  pub create_job : Job → Method S (Unit {0})
  pub get_job : String → Method S Job
  pub update_job : Job → Method S (Unit {0})
  pub delete_job : String → Method S (Unit {0})
  pub list_jobs : String → StatusFilter → ℤ → ℤ → Method S (List Job)
  pub update_status : String → Status → (ℕ → Time) → Method S (Unit {0})
  pub update_progress : String → ℤ → Time → Method S (Unit {0})
  pub set_result : String → String → Time → Method S (Unit {0})
  pub set_error : String → String → Time → Method S (Unit {0})
  pub enqueue : String → String → Priority → Duration → Time → Method S (Unit {0})
  pub dequeue : String → Time → Method S String
  pub requeue : String → String → Priority → Duration → Time → Method S (Unit {0})
  pub remove : String → String → Method S (Unit {0})
  pub queue_length : String → Method S ℕ
  pub peek : String → ℤ → Method S (List String)
  pub pause_queue : String → Method S (Unit {0})
  pub resume_queue : String → Method S (Unit {0})
  pub is_queue_paused : String → Method S Bool
  pub register_worker : Worker → Method S (Unit {0})
  pub unregister_worker : String → Method S (Unit {0})
  pub update_worker_status : String → WorkerStatus → Method S (Unit {0})
  pub update_heartbeat : String → Time → Method S (Unit {0})
  pub set_current_job : String → String → Method S (Unit {0})
  pub increment_processed : String → Method S (Unit {0})
  pub increment_failed : String → Method S (Unit {0})
  pub record_job_created : String → String → Method S (Unit {0})
  pub record_job_completed : String → String → Duration → Method S (Unit {0})
  pub record_job_failed : String → String → Method S (Unit {0})
  pub record_job_retried : String → String → Method S (Unit {0})
  pub get_queue_stats : String → Method S QueueStats
  pub get_queue_stats_all : Method S (Dict QueueStats)
  pub save_queue_config : QueueConfig → Method S (Unit {0})
  pub get_queue_config : String → Method S QueueConfig
  pub delete_queue_config : String → Method S (Unit {0})
  pub list_queue_configs : Method S (List QueueConfig)

-- The in-memory backend.
abbrev pub memory_storage : Storage MemoryStore
memory_storage = record {
  create_job = Jobs.create_job;
  get_job = Jobs.get_job;
  update_job = Jobs.update_job;
  delete_job = Jobs.delete_job;
  list_jobs = Jobs.list_jobs;
  update_status = Jobs.update_status;
  update_progress = Jobs.update_progress;
  set_result = Jobs.set_result;
  set_error = Jobs.set_error;
  enqueue = Queues.enqueue;
  dequeue = Queues.dequeue;
  requeue = Queues.requeue;
  remove = Queues.remove;
  queue_length = Queues.queue_length;
  peek = Queues.peek;
  pause_queue = Queues.pause_queue;
  resume_queue = Queues.resume_queue;
  is_queue_paused = Queues.is_queue_paused;
  register_worker = Workers.register_worker;
  unregister_worker = Workers.unregister_worker;
  update_worker_status = Workers.update_worker_status;
  update_heartbeat = Workers.update_heartbeat;
  set_current_job = Workers.set_current_job;
  increment_processed = Workers.increment_processed;
  increment_failed = Workers.increment_failed;
  record_job_created = Metrics.record_job_created;
  record_job_completed = Metrics.record_job_completed;
  record_job_failed = Metrics.record_job_failed;
  record_job_retried = Metrics.record_job_retried;
  get_queue_stats = Metrics.get_queue_stats;
  get_queue_stats_all = Metrics.get_queue_stats_all;
  save_queue_config = Configs.save_queue_config;
  get_queue_config = Configs.get_queue_config;
  delete_queue_config = Configs.delete_queue_config;
  list_queue_configs = Configs.list_queue_configs;
}
