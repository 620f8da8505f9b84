-- ===== src/Recurring/Cron.antt =====
-- parseNextCronTime of internal/scheduler/scheduler.go.
use Prim.Native.String.{◌++◌ as append}
use distributed_task_queue_s.Base.{
  ℤ, pos, ◌+ℤ◌, ◌==◌, String, if◌then◌else◌, Outcome, ok, err, message,
}
use distributed_task_queue_s.Job.{Time, Duration}

-- The methods of a time that the source calls, in the time's own location; `date y m d` is midnight
-- of that day.
pub record Calendar : Type 0 where
  pub truncate : Time → Duration → Time
  pub add_date : Time → ℤ → ℤ → ℤ → Time
  pub year : Time → ℤ
  pub month : Time → ℤ
  pub day : Time → ℤ
  pub date : ℤ → ℤ → ℤ → Time

abbrev pub minute : Duration
minute = pos 60000000000

abbrev pub hour : Duration
hour = pos 3600000000000

module _ (cal : Calendar) where
  abbrev pub midnight : Time → Time
  midnight t = cal.date (cal.year t) (cal.month t) (cal.day t)

  abbrev pub month_start : Time → Time
  month_start t = cal.date (cal.year t) (cal.month t) (pos 1)

  unfoldable pub parse_next_cron_time : String → Time → Outcome Time
  parse_next_cron_time expr from =
      if expr == "@minutely"
      then ok (cal.truncate (from +ℤ minute) minute)
      else if expr == "@hourly"
      then ok (cal.truncate (from +ℤ hour) hour)
      else if expr == "@daily"
      then ok (midnight (cal.add_date from (pos 0) (pos 0) (pos 1)))
      else if expr == "@weekly"
      then ok (midnight (cal.add_date from (pos 0) (pos 0) (pos 7)))
      else if expr == "@monthly"
      then ok (month_start (cal.add_date from (pos 0) (pos 1) (pos 0)))
      else err (message (append "unsupported cron expression: " expr))
