-- ===== src/Recurring/History.antt =====
-- Histories of calls of the scheduler of internal/scheduler/scheduler.go.
use distributed_task_queue_s.Base.{
  ℕ, pos, ◌+ℤ◌, ◌<ℤ◌, ◌==◌, String, Bool, true, false, lt→ltb_ℤ, ◌≡◌, sym, subst, inl, inr, none,
  some, List, [], ◌∷◌, All, Bool-cases, Option-cases, lookup, Everywhere, insert-Everywhere,
  delete-Everywhere, Outcome, ok, err, panic, arith,
}
use distributed_task_queue_s.Job.{Time}
use distributed_task_queue_s.Manager.{Manager}
use distributed_task_queue_s.Manager.Storage.{Storage}
use distributed_task_queue_s.Recurring.{Schedule, Scheduler, new_scheduler}
use distributed_task_queue_s.Recurring.Cron.{Calendar}
use distributed_task_queue_s.Recurring.Schedules.{
  add_schedule, remove_schedule, enable_schedule, disable_schedule, set_enabled, first_run,
  add_first, with_schedule_defaults,
}
use distributed_task_queue_s.Recurring.Ticks.{process_due_schedules}
use distributed_task_queue_s.Recurring.Runs.{
  Sound, process_due_schedules-Sound, process_due_schedules-keeps,
}

pub data Event : Type 0 where
  add : String → Time → Schedule → Event
  remove : String → Event
  enable disable : String → Time → Event
  tick : (String → String) → (String → ℕ → Time) → Time → List String → Event

-- A schedule that is added has not run yet.
abbrev pub IsFresh : Event → Type 0
IsFresh (add uuid now s) = (s.run_count ≡ pos 0) × (s.last_run ≡ none)
IsFresh _ = Unit

module _ {S : Type 0} (st : Storage S) (cal : Calendar) where
  unfoldable pub happen : Event → Scheduler S → Scheduler S
  happen (add uuid now s) g = (add_schedule cal uuid now s g).1
  happen (remove id) g = (remove_schedule id g).1
  happen (enable id now) g = (enable_schedule id now g).1
  happen (disable id now) g = (disable_schedule id now g).1
  happen (tick uuids clocks now ids) g = (process_due_schedules st cal uuids clocks now ids g).1

  unfoldable pub happen_all : List Event → Scheduler S → Scheduler S
  happen_all [] g = g
  happen_all (e ∷ es) g = happen_all es (happen e g)

  add_first-Sound :
      (s : Schedule) (o : Outcome Time) (g : Scheduler S)
      → (s.run_count ≡ pos 0) × (s.last_run ≡ none)
      → Everywhere Sound g.schedules
      → Everywhere Sound (add_first s o g).1.schedules
  add_first-Sound s (ok t) g (count, last) all =
      insert-Everywhere Sound s.id (record s { next_run = t; enabled = true }) g.schedules all
        (record { within = λ h. ground (arith, count); paced = λ u e h. absurd (never u e) })
    where
      never : (u : Time) → s.last_run ≡ some u → ⊥
      never u e = absurd (cc)
  add_first-Sound s (err _) g fresh all = all
  add_first-Sound s panic g fresh all = all

  set_enabled-Sound :
      (b : Bool) (id : String) (now : Time) (g : Scheduler S)
      → Everywhere Sound g.schedules
      → Everywhere Sound (set_enabled b id now g).1.schedules
  unfolding set_enabled
  set_enabled-Sound b id now g all = elim (Option-cases (lookup id g.schedules)) [
    | inl e ↦ rw (e, set_enabled) all
    | inr (s, e) ↦
        rw (e, set_enabled)
          (insert-Everywhere Sound id (record s { enabled = b; updated_at = now }) g.schedules all
            (record { within = (all id s e).within; paced = (all id s e).paced }))
  ]

  happen-Sound :
      (e : Event) (g : Scheduler S)
      → IsFresh e
      → Everywhere Sound g.schedules
      → Everywhere Sound (happen e g).schedules
  unfolding happen add_schedule remove_schedule enable_schedule disable_schedule
  happen-Sound (add uuid now s) g fresh all = elim (Bool-cases (s.job_type == "")) [
    | inl e ↦ rw (e, happen, add_schedule) all
    | inr e ↦
        rw (e, happen, add_schedule)
          (add_first-Sound (with_schedule_defaults uuid now s) (first_run cal s now) g fresh all)
  ]
  happen-Sound (remove id) g fresh all = elim (Option-cases (lookup id g.schedules)) [
    | inl e ↦ rw (e, happen, remove_schedule) all
    | inr (s, e) ↦ rw (e, happen, remove_schedule) (delete-Everywhere Sound id g.schedules all)
  ]
  happen-Sound (enable id now) g fresh all = set_enabled-Sound true id now g all
  happen-Sound (disable id now) g fresh all = set_enabled-Sound false id now g all
  happen-Sound (tick uuids clocks now ids) g fresh all =
      process_due_schedules-Sound st cal uuids clocks now ids g all

  happen_all-keeps :
      (es : List Event) (g : Scheduler S)
      → All IsFresh es
      → Everywhere Sound g.schedules
      → Everywhere Sound (happen_all es g).schedules
  unfolding happen_all
  happen_all-keeps [] g fresh all = all
  happen_all-keeps (e ∷ es) g fresh all =
      happen_all-keeps es (happen e g) fresh.1 (happen-Sound e g fresh.0 all)

  -- After any calls in any order on a new scheduler, where every added
  -- schedule counts no runs and has no last run, no schedule with a positive limit has run more often
  -- than the limit, and every schedule with an interval that has run is next due one interval after
  -- its last run.
  pub happen_all-Sound :
      (m : Manager S) (es : List Event)
      → All IsFresh es
      → Everywhere Sound (happen_all es (new_scheduler m)).schedules
  unfolding lookup
  happen_all-Sound m es fresh = happen_all-keeps es (new_scheduler m) fresh (λ id s e. absurd (cc))

  -- After such calls a tick that comes sooner than one interval after a schedule's last run leaves the
  -- schedule as it is, whatever the other schedules do.
  pub process_due_schedules_early :
      (m : Manager S) (es : List Event) (uuids : String → String) (clocks : String → ℕ → Time)
      (now : Time) (ids : List String) (id : String) (s : Schedule) (t : Time)
      → All IsFresh es
      → lookup id (happen_all es (new_scheduler m)).schedules ≡ some s
      → s.last_run ≡ some t
      → pos 0 <ℤ s.interval
      → now <ℤ t +ℤ s.interval
      → lookup id
          (process_due_schedules st cal uuids clocks now ids
            (happen_all es (new_scheduler m))).1.schedules
        ≡ some s
  process_due_schedules_early m es uuids clocks now ids id s t fresh here last positive early =
      process_due_schedules-keeps st cal uuids clocks now ids id s (happen_all es (new_scheduler m))
        here
        (lt→ltb_ℤ now s.next_run (
          subst (λ x. now <ℤ x)
            (sym ((happen_all-Sound m es fresh id s here).paced t last positive)) early))
