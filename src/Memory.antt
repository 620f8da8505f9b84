-- ===== src/Memory.antt =====
-- internal/storage/memory/memory.go: the state of the in-memory store. Its methods are in the
-- children. A method runs under the store's lock, so each is one step on this state; the maps hold
-- copies, so no caller shares a job or a worker with the store.
pub mod Jobs
pub mod Queues
pub mod Workers
pub mod Metrics
pub mod Configs
pub mod Backing
use distributed_task_queue_s.Base.{ℕ, String, Bool, List, [], Dict}
use distributed_task_queue_s.Job.{Job, Priority, Time, Duration}
use distributed_task_queue_s.Job.Queue.{QueueConfig, QueueStats}
use distributed_task_queue_s.Job.Worker.{Worker}

pub record QueueEntry : Type 0 where
  pub job_id : String
  pub priority : Priority
  pub timestamp : Time

pub record JobTypeMetrics : Type 0 where
  pub count : ℕ
  pub total_duration : Duration
  pub min_duration : Duration
  pub max_duration : Duration

pub record MetricsData : Type 0 where
  pub jobs_created : ℕ
  pub jobs_completed : ℕ
  pub jobs_failed : ℕ
  pub jobs_retried : ℕ
  pub queue_stats : Dict QueueStats
  pub job_type_stats : Dict JobTypeMetrics
  pub last_update : Time

pub record MemoryStore : Type 0 where
  pub jobs : Dict Job
  pub queues : Dict (List QueueEntry)
  pub paused : Dict Bool
  pub workers : Dict Worker
  pub metrics : MetricsData
  pub queue_configs : Dict QueueConfig

unfoldable pub new_memory_store : Time → MemoryStore
new_memory_store now = record {
  jobs = [];
  queues = [];
  paused = [];
  workers = [];
  metrics = record {
    jobs_created = 0;
    jobs_completed = 0;
    jobs_failed = 0;
    jobs_retried = 0;
    queue_stats = [];
    job_type_stats = [];
    last_update = now;
  };
  queue_configs = [];
}
