-- ===== src/Batching.antt =====
-- internal/features/batching.go: jobs collected by type and handed to a processor in batches. The
-- timers and goroutines that the code starts are part of the state, and a list of events says in which
-- order they move.
pub mod Batches
pub mod Schedule
pub mod Accounting
pub mod Places
pub mod Waiting
pub mod Draining
pub mod Outcomes
use distributed_task_queue_s.Base.{ℕ, ℤ, String, Option, List, Dict, Error}
use distributed_task_queue_s.Job.{Job, Duration}
use distributed_task_queue_s.Manager.{Manager}

-- Code of the program's user: the error it returns, if any, and the jobs as it leaves them. It is
-- taken not to panic, which would end the program.
abbrev pub BatchHandler : Type 0
BatchHandler = List Job → Option Error × List Job

-- A timer is known by the batch's type and a number.
pub record Batch : Type 0 where
  pub jobs : List Job
  pub timer : Option ℕ
  pub processor : BatchHandler

pub record BatchProcessor (S : Type 0) : Type 0 where
  pub queue_manager : Manager S
  pub batch_size : ℤ
  pub batch_timeout : Duration
  pub batches : Dict Batch

-- A batch that has been taken, with the processor that it is for.
pub record Flight : Type 0 where
  pub jobs : List Job
  pub processor : BatchHandler

-- The processor with what runs beside it: the timers that are armed, the calls of processBatch that
-- have not looked at their batch yet, and the batches that are being processed. `accepted` and
-- `handed` record the jobs that came in and the batches that were taken, oldest first.
pub record World (S : Type 0) : Type 0 where
  pub bp : BatchProcessor S
  pub timers : List (String × ℕ)
  pub next_timer : ℕ
  pub starting : List String
  pub flying : List Flight
  pub accepted : List Job
  pub handed : List (String × List Job)
