-- ===== src/Api.antt =====
-- internal/api/http/server.go: requests, responses and the state behind the handlers. The children hold
-- the handlers.
pub mod Paths
pub mod Jobs
pub mod Queues
pub mod Schedules
pub mod Routes
pub mod Replies
pub mod Answers
pub mod Reading
pub mod Creating
use distributed_task_queue_s.Base.{ℕ, ℤ, String, Option, List, Dict}
use distributed_task_queue_s.Job.{
  Job, Status, StatusFilter, any_status, of_status, unknown_status, Time,
}
use distributed_task_queue_s.Job.Queue.{QueueConfig, QueueStats}
use distributed_task_queue_s.Recurring.{Schedule, Scheduler}
use distributed_task_queue_s.Recurring.Cron.{Calendar}
use distributed_task_queue_s.Recurring.Schedules.{ScheduleStats}

pub data Verb : Type 0 where
  get post put delete other : Verb

-- What the packages net/http, encoding/json and strconv read from a request: the path, the parts of the
-- query (numbers are 0 where Atoi fails), and what decoding the body gives for each type that a handler asks for, or nothing where it fails.
pub record Request : Type 0 where
  pub verb : Verb
  pub path : String
  pub queue : String
  pub status : StatusFilter
  pub limit : ℤ
  pub offset : ℤ
  pub as_job : Option Job
  pub as_queue_config : Option QueueConfig
  pub as_schedule : Option Schedule

-- The readings of the clock within a request, the first one's nanoseconds as a text and one in the
-- format RFC 3339, the identifier drawn for a schedule, and the calendar.
pub record Ambient : Type 0 where
  pub now : ℕ → Time
  pub nanos : String
  pub rfc3339 : String
  pub uuid : String
  pub calendar : Calendar

-- What is written as JSON.
pub data Body : Type 0 where
  error_body message_body : String → Body
  health_body : String → String → Body
  job_body : Job → Body
  jobs_body : List Job → ℕ → ℤ → ℤ → Body
  config_body : QueueConfig → Body
  configs_body : List QueueConfig → ℕ → Body
  stats_body : QueueStats → Body
  schedule_body : Schedule → Body
  schedules_body : List Schedule → ℕ → Body
  metrics_body : Dict QueueStats → ScheduleStats → String → Body

pub record Response : Type 0 where
  pub status : ℕ
  pub body : Body

-- The queue manager and the scheduler of the server; the scheduler was made with the same manager, so
-- the state is one.
pub record Server (S : Type 0) : Type 0 where
  pub scheduler : Scheduler S
