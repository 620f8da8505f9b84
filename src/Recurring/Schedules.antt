-- ===== src/Recurring/Schedules.antt =====
-- AddSchedule to DisableSchedule and GetScheduleStats of internal/scheduler/scheduler.go.
use Prim.Native.String.{◌++◌ as append}
use distributed_task_queue_s.Base.{
  ℕ, suc, ℤ, pos, ◌+ℤ◌, ltb_ℤ, ◌==◌, String, Bool, true, false, if◌then◌else◌, none, some, List, [],
  ◌∷◌, length, lookup, insert, delete, values, Outcome, ok, err, panic, Method, give, fail, reads,
  message, wrapped,
}
use distributed_task_queue_s.Job.{Time}
use distributed_task_queue_s.Recurring.{Schedule, Scheduler}
use distributed_task_queue_s.Recurring.Cron.{Calendar, parse_next_cron_time}

abbrev pub annotate_time : Outcome Time → Outcome Time
annotate_time (ok t) = ok t
annotate_time (err e) = err (wrapped "invalid cron expression" e)
annotate_time panic = panic

unfoldable pub first_run : Calendar → Schedule → Time → Outcome Time
first_run cal s now =
    if ltb_ℤ (pos 0) s.interval
    then ok (now +ℤ s.interval)
    else if s.cron_expr == ""
    then err (message "either interval or cron expression is required")
    else annotate_time (parse_next_cron_time cal s.cron_expr now)

-- The schedule with an identifier and a queue, and its two stamps.
abbrev pub with_schedule_defaults : String → Time → Schedule → Schedule
with_schedule_defaults uuid now s = record s {
  id = if s.id == "" then uuid else s.id;
  queue = if s.queue == "" then "default" else s.queue;
  created_at = now;
  updated_at = now;
}

abbrev pub not_found : String → String
not_found id = append "schedule not found: " id

module _ {S : Type 0} where
  abbrev pub put : Schedule → Scheduler S → Scheduler S
  put s g = record g { schedules = insert s.id s g.schedules }

  abbrev pub add_first : Schedule → Outcome Time → Method (Scheduler S) (Unit {0})
  add_first s (ok t) g = (ok tt, put (record s { next_run = t; enabled = true }) g)
  add_first s (err e) g = (err e, g)
  add_first s panic g = (panic, g)

  -- `uuid` is the identifier that is drawn for a schedule without one.
  unfoldable pub add_schedule :
      Calendar → String → Time → Schedule → Method (Scheduler S) (Unit {0})
  add_schedule cal uuid now s =
      if s.job_type == ""
      then fail (message "job type is required")
      else add_first (with_schedule_defaults uuid now s) (first_run cal s now)

  unfoldable pub remove_schedule : String → Method (Scheduler S) (Unit {0})
  remove_schedule id g = elim (lookup id g.schedules) [
    | none ↦ (err (message (not_found id)), g)
    | some _ ↦ (ok tt, record g { schedules = delete id g.schedules })
  ]

  unfoldable pub get_schedule : String → Method (Scheduler S) Schedule
  get_schedule id g = elim (lookup id g.schedules) [
    | none ↦ (err (message (not_found id)), g)
    | some s ↦ (ok s, g)
  ]

  unfoldable pub list_schedules : Method (Scheduler S) (List Schedule)
  list_schedules = reads (λ g. values g.schedules)

  unfoldable pub set_enabled : Bool → String → Time → Method (Scheduler S) (Unit {0})
  set_enabled b id now g = elim (lookup id g.schedules) [
    | none ↦ (err (message (not_found id)), g)
    | some s ↦ (
      ok tt,
      record g { schedules = insert id (record s { enabled = b; updated_at = now }) g.schedules },
    )
  ]

  unfoldable pub enable_schedule : String → Time → Method (Scheduler S) (Unit {0})
  enable_schedule = set_enabled true

  unfoldable pub disable_schedule : String → Time → Method (Scheduler S) (Unit {0})
  disable_schedule = set_enabled false

pub record ScheduleStats : Type 0 where
  pub total_schedules : ℕ
  pub enabled_schedules : ℕ
  pub disabled_schedules : ℕ
  pub total_runs : ℤ

unfoldable pub count_schedules : List Schedule → ScheduleStats → ScheduleStats
count_schedules [] t = t
count_schedules (s ∷ ss) t =
    let u = record t { total_runs = t.total_runs +ℤ s.run_count } in
    count_schedules ss (
      if s.enabled
      then record u { enabled_schedules = suc t.enabled_schedules }
      else record u { disabled_schedules = suc t.disabled_schedules })

unfoldable pub get_schedule_stats : {S : Type 0} → Method (Scheduler S) ScheduleStats
get_schedule_stats g =
    give
      (count_schedules (values g.schedules) (record {
        total_schedules = length g.schedules;
        enabled_schedules = 0;
        disabled_schedules = 0;
        total_runs = pos 0;
      }))
      g
