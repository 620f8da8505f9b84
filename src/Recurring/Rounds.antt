-- ===== src/Recurring/Rounds.antt =====
-- What the run of a due schedule of internal/scheduler/scheduler.go leaves in the in-memory backend.
use distributed_task_queue_s.Base.{
  ℕ, pos, ◌+ℤ◌, ltb_ℤ, ◌≤ℤ◌, String, true, false, +ℤ_parts, eq_of_parts, arith, suc, ◌≡◌, refl, sym,
  ap, subst, ◌∙◌, none, some, [], ◌∷◌, ◌++◌, lookup, insert, lookup-insert_self, Outcome, ok,
  handle,
}
use distributed_task_queue_s.Job.{Job, Time, after, priority_normal}
use distributed_task_queue_s.Memory.{MemoryStore}
use distributed_task_queue_s.Memory.Queues.{entries, new_entry}
use distributed_task_queue_s.Manager.Storage.{memory_storage}
use distributed_task_queue_s.Manager.Jobs.{enqueue, enqueue_delay, with_queue}
use distributed_task_queue_s.Manager.Enqueueing.{
  MemoryManager, Enqueued, duplicate, accepted, enqueue-Enqueued,
}
use distributed_task_queue_s.Recurring.{Schedule, Scheduler}
use distributed_task_queue_s.Recurring.Cron.{Calendar}
use distributed_task_queue_s.Recurring.Ticks.{
  advance, exhausted, execute_schedule, job_of, manager_back, replace, visit,
}

abbrev pub shifted : (ℕ → Time) → ℕ → Time
shifted clock k = clock (suc (suc (suc k)))

-- The state after a run: the schedule is advanced, and one job of it stands in the store and behind the others of
-- its queue, due at once.
pub record Executed (cal : Calendar) (uuid : String) (clock : ℕ → Time) (now : Time) (id : String)
    (s : Schedule) (g h : Scheduler MemoryStore) : Type 0 where
  pub job : Job
  pub stored : lookup uuid h.manager.storage.jobs ≡ some job
  pub typed : job.type ≡ s.job_type
  pub placed : job.queue ≡ (with_queue (job_of uuid clock s)).queue
  pub queued :
      h.manager.storage.queues
      ≡ insert job.queue
          (entries g.manager.storage job.queue ++ new_entry uuid priority_normal (clock 5) ∷ [])
          g.manager.storage.queues
  pub advanced : h.schedules ≡ insert id (advance cal now s) g.schedules

not_delayed :
    (clock : ℕ → Time)
    → clock 2 ≤ℤ clock 3
    → clock 5 +ℤ enqueue_delay (some (clock 2)) (shifted clock) ≡ clock 5
unfolding enqueue_delay
not_delayed clock h =
    rw passed (eq_of_parts (clock 5 +ℤ pos 0) (clock 5) (omega (arith, +ℤ_parts (clock 5) (pos 0))))
  where
    passed : ltb_ℤ (clock 3) (clock 2) ≡ false
    passed = ground arith

-- The round of a schedule that is enabled, due and below its limit, with a new identifier for its job
-- and a clock that does not go back: the run succeeds, one job of the schedule's type is stored and
-- put behind the others of its queue, due at once, and the schedule is advanced.
pub visit-Executed :
    (cal : Calendar) (uuid : String) (clock : ℕ → Time) (now : Time) (id : String) (s : Schedule)
    (g : Scheduler MemoryStore)
    → s.enabled ≡ true
    → after s.next_run now ≡ false
    → exhausted s ≡ false
    → lookup uuid g.manager.storage.jobs ≡ none
    → clock 2 ≤ℤ clock 3
    → (h : Scheduler MemoryStore) × (visit memory_storage cal uuid clock now id s g ≡ (ok tt, h))
      × Executed cal uuid clock now id s g h
unfolding visit execute_schedule job_of
visit-Executed cal uuid clock now id s g on due room new rising =
    simp (on, due, room)
      (ran (enqueue memory_storage (job_of uuid clock s) (shifted clock) g.manager)
        (enqueue-Enqueued (job_of uuid clock s) (shifted clock) g.manager))
  where
    stored_already : {old : Job} → none ≡ some old → ⊥
    stored_already f = absurd (cc)

    ran :
        (r : Outcome Job × MemoryManager)
        → Enqueued (job_of uuid clock s) (shifted clock) g.manager r
        → (h : Scheduler MemoryStore) × (handle
              (λ h. manager_back memory_storage cal h r)
              (λ _. replace memory_storage cal id (advance cal now s))
              (λ _ h. (ok tt, h))
              g
            ≡ (ok tt, h))
          × Executed cal uuid clock now id s g h
    ran r (duplicate old h found e same) = absurd (stored_already (sym new ∙ found))
    ran r (accepted c j h fresh e shape known jobs queues paused) = rw e (
      record { manager = h; schedules = insert id (advance cal now s) g.schedules },
      refl,
      record {
        job = j;
        stored = ap (lookup uuid) jobs ∙ lookup-insert_self uuid j g.manager.storage.jobs;
        typed = ap (λ x. x.type) shape;
        placed = ap (λ x. x.queue) shape;
        queued =
            subst
              (λ t.
                h.storage.queues
                ≡ insert j.queue
                    (entries g.manager.storage j.queue ++ new_entry uuid priority_normal t ∷ [])
                    g.manager.storage.queues)
              (not_delayed clock rising) queues;
        advanced = refl;
      },
    )
