-- ===== src/Examples/Cycling.antt =====
-- The recurring schedules of internal/scheduler/scheduler.go at concrete inputs, over the in-memory
-- store.
use distributed_task_queue_s.Base.{
  ℕ, ◌+◌, pos, ◌+ℤ◌, String, true, ◌≡◌, refl, Option, none, some, List, [], ◌∷◌, All, ok,
  Everywhere, lookup, insert, arith,
}
use distributed_task_queue_s.Job.{Time}
use distributed_task_queue_s.Memory.{MemoryStore}
use distributed_task_queue_s.Manager.Storage.{memory_storage}
use distributed_task_queue_s.Recurring.{Schedule, Scheduler, new_scheduler}
use distributed_task_queue_s.Recurring.Cron.{Calendar}
use distributed_task_queue_s.Recurring.Ticks.{
  visit, visit_id, process_due_schedules, execute_schedule, job_of, merge, advance,
}
use distributed_task_queue_s.Recurring.Schedules.{add_schedule, first_run}
use distributed_task_queue_s.Manager.Jobs.{enqueue, config_for, enqueue_delay}
use distributed_task_queue_s.Manager.Queues.{
  get_queue_config, load_missing, register_queue, with_queue_defaults, remember,
}
use distributed_task_queue_s.Memory.Configs
use distributed_task_queue_s.Memory.Jobs
use distributed_task_queue_s.Memory.Queues
use distributed_task_queue_s.Memory.Metrics
use distributed_task_queue_s.Recurring.Runs.{Sound}
use distributed_task_queue_s.Recurring.History.{
  Event, add, tick, IsFresh, happen, happen_all, happen_all-Sound, process_due_schedules_early,
}
use distributed_task_queue_s.Recurring.Rounds.{Executed, visit-Executed}
use distributed_task_queue_s.Examples.Queueing.{fresh}

-- A calendar without days, for schedules that do not look at them.
abbrev pub plain : Calendar
plain = record {
  truncate = λ t d. t;
  add_date = λ t y m d. t;
  year = λ t. pos 0;
  month = λ t. pos 0;
  day = λ t. pos 0;
  date = λ y m d. pos 0;
}

abbrev every_ten : Option Time → Time → ℕ → Time → Schedule
every_ten last next count stamp = record {
  id = "s";
  name = "report";
  job_type = "report";
  queue = "default";
  payload = "{}";
  cron_expr = "";
  interval = pos 10;
  next_run = next;
  last_run = last;
  enabled = true;
  max_runs = pos 2;
  run_count = pos count;
  created_at = stamp;
  updated_at = stamp;
  metadata = [];
}

abbrev draw : String → String
draw id = "j"

abbrev clocks : String → ℕ → Time
clocks id k = pos (21 + k)

abbrev events : List Event
events =
    add "s" (pos 5) (every_ten none (pos 0) 0 (pos 0)) ∷ tick draw clocks (pos 20) ("s" ∷ []) ∷ []

events-IsFresh : All IsFresh events
events-IsFresh = ((refl, refl), (tt, tt))

happen_all-Sound_example :
    Everywhere Sound (happen_all memory_storage plain events (new_scheduler fresh)).schedules
happen_all-Sound_example = happen_all-Sound memory_storage plain fresh events events-IsFresh

has_run :
    lookup "s" (happen_all memory_storage plain events (new_scheduler fresh)).schedules
    ≡ some (record (every_ten (some (pos 20)) (pos 30) 1 (pos 20)) { created_at = pos 5 })
unfolding happen_all happen lookup insert ◌+ℤ◌ add_schedule first_run process_due_schedules visit_id
    visit execute_schedule job_of merge advance enqueue config_for get_queue_config load_missing
    register_queue with_queue_defaults remember enqueue_delay Configs.get_queue_config
    Configs.save_queue_config Jobs.create_job Queues.enqueue Metrics.record_job_created
has_run = refl

process_due_schedules_early_example :
    lookup "s"
      (process_due_schedules memory_storage plain draw clocks
        (pos 29)
        ("s" ∷ [])
        (happen_all memory_storage plain events (new_scheduler fresh))).1.schedules
    ≡ some (record (every_ten (some (pos 20)) (pos 30) 1 (pos 20)) { created_at = pos 5 })
unfolding ◌+ℤ◌
process_due_schedules_early_example =
    process_due_schedules_early memory_storage plain fresh events draw clocks (pos 29) ("s" ∷ [])
      "s" (record (every_ten (some (pos 20)) (pos 30) 1 (pos 20)) { created_at = pos 5 }) (pos 20)
      events-IsFresh has_run refl (omega arith) (omega arith)

visit-Executed_example :
    (h : Scheduler MemoryStore) × (visit memory_storage plain "j"
        (clocks "s")
        (pos 20)
        "s"
        (every_ten none (pos 15) 0 (pos 5))
        (new_scheduler fresh)
      ≡ (ok tt, h))
    × Executed plain "j"
        (clocks "s")
        (pos 20)
        "s"
        (every_ten none (pos 15) 0 (pos 5))
        (new_scheduler fresh)
        h
unfolding lookup
visit-Executed_example =
    visit-Executed plain "j" (clocks "s") (pos 20) "s" (every_ten none (pos 15) 0 (pos 5))
      (new_scheduler fresh) refl refl refl refl (omega arith)
