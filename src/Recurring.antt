-- ===== src/Recurring.antt =====
-- internal/scheduler/scheduler.go: the recurring schedules. The calendar functions of the package
-- time are the parameter `Calendar`; the children hold the methods of Scheduler.
pub mod Cron
pub mod Schedules
pub mod Ticks
pub mod Runs
pub mod History
pub mod Rounds
use distributed_task_queue_s.Base.{[], ℤ, String, Bool, Option, Dict}
use distributed_task_queue_s.Job.{Time, Duration}
use distributed_task_queue_s.Manager.{Manager}

pub record Schedule : Type 0 where
  pub id : String
  pub name : String
  pub job_type : String
  pub queue : String
  pub payload : String
  pub cron_expr : String
  pub interval : Duration
  pub next_run : Time
  pub last_run : Option Time
  pub enabled : Bool
  pub max_runs : ℤ
  pub run_count : ℤ
  pub created_at : Time
  pub updated_at : Time
  pub metadata : Dict String

pub record Scheduler (S : Type 0) : Type 0 where
  pub manager : Manager S
  pub schedules : Dict Schedule

abbrev pub new_scheduler : {S : Type 0} → Manager S → Scheduler S
new_scheduler m = record { manager = m; schedules = [] }
