-- ===== src/Recurring/Ticks.antt =====
-- processDueSchedules and executeSchedule of internal/scheduler/scheduler.go.
use distributed_task_queue_s.Base.{
  ℕ, suc, pos, ◌+ℤ◌, ltb_ℤ, ◌==◌, String, Bool, false, not, ◌&&◌, if◌then◌else◌, none, some, List,
  [], ◌∷◌, Dict, lookup, insert, Outcome, ok, Method, handle, give, ◌>>◌,
}
use distributed_task_queue_s.Job.{Job, Time, pending, priority_normal, after}
use distributed_task_queue_s.Manager.{Manager}
use distributed_task_queue_s.Manager.Storage.{Storage}
use distributed_task_queue_s.Manager.Jobs.{enqueue}
use distributed_task_queue_s.Recurring.{Schedule, Scheduler}
use distributed_task_queue_s.Recurring.Cron.{Calendar, parse_next_cron_time}

-- `for k, v := range schedule.Metadata { j.Metadata[k] = v }`.
unfoldable pub merge : Dict String → Dict String → Dict String
merge [] d = d
merge ((k, v) ∷ rest) d = merge rest (insert k v d)

-- The job of a run, stamped by the first three readings of the clock.
unfoldable pub job_of : String → (ℕ → Time) → Schedule → Job
job_of uuid clock s = record {
  id = uuid;
  type = s.job_type;
  payload = s.payload;
  priority = priority_normal;
  status = pending;
  max_retries = pos 0;
  current_retry = pos 0;
  timeout = pos 0;
  scheduled_at = some (clock 2);
  created_at = clock 0;
  started_at = none;
  completed_at = none;
  error = "";
  result = "";
  metadata = merge s.metadata (("schedule_id", s.id) ∷ ("schedule_name", s.name) ∷ []);
  queue = s.queue;
  progress = pos 0;
  worker_id = "";
  updated_at = clock 1;
}

abbrev pub renew_cron : Schedule → Outcome Time → Schedule
renew_cron s (ok t) = record s { next_run = t }
renew_cron s _ = record s { enabled = false }

-- The schedule after a run at `now`, with its next run.
unfoldable pub advance : Calendar → Time → Schedule → Schedule
advance cal now s =
    let t = record s { last_run = some now; run_count = s.run_count +ℤ pos 1; updated_at = now } in
    if ltb_ℤ (pos 0) s.interval
    then record t { next_run = now +ℤ s.interval }
    else if s.cron_expr == ""
    then t
    else renew_cron t (parse_next_cron_time cal s.cron_expr now)

abbrev pub exhausted : Schedule → Bool
exhausted s = ltb_ℤ (pos 0) s.max_runs && not (ltb_ℤ s.run_count s.max_runs)

module _ {S : Type 0} (st : Storage S) (cal : Calendar) where
  abbrev pub manager_back : Scheduler S → Outcome Job × Manager S → Outcome Job × Scheduler S
  manager_back g (o, m) = (o, record g { manager = m })

  unfoldable pub execute_schedule : String → (ℕ → Time) → Schedule → Method (Scheduler S) Job
  execute_schedule uuid clock s g =
      manager_back g (enqueue st (job_of uuid clock s) (λ k. clock (suc (suc (suc k)))) g.manager)

  abbrev pub replace : String → Schedule → Method (Scheduler S) (Unit {0})
  replace id s g = (ok tt, record g { schedules = insert id s g.schedules })

  -- One round of the loop, for the schedule that stands under `id`. A run that cannot be queued leaves
  -- the schedule due.
  unfoldable pub visit :
      String → (ℕ → Time) → Time → String → Schedule → Method (Scheduler S) (Unit {0})
  visit uuid clock now id s =
      if not s.enabled
      then give tt
      else if after s.next_run now
      then give tt
      else if exhausted s
      then replace id (record s { enabled = false })
      else handle (execute_schedule uuid clock s) (λ _. replace id (advance cal now s))
          (λ _. give tt)

  unfoldable pub visit_id : String → (ℕ → Time) → Time → String → Method (Scheduler S) (Unit {0})
  visit_id uuid clock now id g = elim (lookup id g.schedules) [
    | none ↦ (ok tt, g)
    | some s ↦ visit uuid clock now id s g
  ]

  -- `ids` is the order in which the map is walked; `uuids id` and `clocks id` are the identifier that
  -- is drawn and the readings of the clock that are made in the round of the schedule `id`.
  unfoldable pub process_due_schedules :
      (String → String) → (String → ℕ → Time) → Time → List String → Method (Scheduler S) (Unit {0})
  process_due_schedules uuids clocks now [] = give tt
  process_due_schedules uuids clocks now (id ∷ ids) =
      visit_id (uuids id) (clocks id) now id >> process_due_schedules uuids clocks now ids
