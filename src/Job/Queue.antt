-- ===== src/Job/Queue.antt =====
-- pkg/job/queue.go: the configuration and the statistics of a queue. The `Timeout` that the manager
-- reads and writes is `DefaultTimeout`.
use distributed_task_queue_s.Base.{ℕ, ◌*◌, ◌^◌, ℤ, pos, String, Bool, false, Option}

-- `other` is any string that is none of the three constants, the empty one among them.
pub data RetryStrategy : Type 0 where
  fixed exponential linear : RetryStrategy
  other : String → RetryStrategy

pub record QueueConfig : Type 0 where
  pub name : String
  pub max_workers : ℤ
  pub max_retries : ℤ
  pub retry_strategy : RetryStrategy
  pub default_timeout : ℤ
  pub priority : ℤ
  pub rate_limit : ℤ
  pub weight : ℤ
  pub is_paused : Bool
  pub retry_delay : ℤ
  pub max_retry_delay : ℤ
  pub dead_letter_queue : String

pub record QueueStats : Type 0 where
  pub queue_name : String
  pub pending_count : ℕ
  pub running_count : ℕ
  pub success_count : ℕ
  pub failed_count : ℕ
  pub active_workers : ℤ
  pub avg_processing_time : ℤ
  pub last_job_at : Option ℤ

-- `time.Second`, in nanoseconds.
abbrev pub second : ℕ
second = 10 ^ 9

unfoldable pub default_queue_config : String → QueueConfig
default_queue_config name = record {
  name = name;
  max_workers = pos 10;
  max_retries = pos 3;
  retry_strategy = exponential;
  default_timeout = pos (300 * second);
  priority = pos 5;
  rate_limit = pos 0;
  weight = pos 1;
  is_paused = false;
  retry_delay = pos (5 * second);
  max_retry_delay = pos (3600 * second);
  dead_letter_queue = "";
}
