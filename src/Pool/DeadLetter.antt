-- ===== src/Pool/DeadLetter.antt =====
-- The dead-letter branch of handleJobFailure in internal/worker/pool.go, over the in-memory backend.
use distributed_task_queue_s.Base.{
  ℕ, pos, ◌+ℤ◌, String, ◌==◌, ◌≡◌, refl, inl, inr, some, Option-cases, Bool-cases, lookup, insert,
  ok, or_log,
}
use distributed_task_queue_s.Job.{Job, Time, pending}
use distributed_task_queue_s.Job.Queue.{QueueConfig}
use distributed_task_queue_s.Memory.Workers
use distributed_task_queue_s.Manager.{call}
use distributed_task_queue_s.Manager.Storage.{memory_storage}
use distributed_task_queue_s.Manager.Jobs.{enqueue}
use distributed_task_queue_s.Manager.Enqueueing.{
  MemoryManager, SameWork, Enqueued, duplicate, accepted, enqueue-Enqueued,
}
use distributed_task_queue_s.Pool.Running.{dead_letter}

-- Sending a stored job to the dead-letter queue is always refused, as the job is stored already:
-- whatever the configuration names, no queue changes.
pub dead_letter_refused :
    (worker : String) (j : Job) (c : QueueConfig) (now : ℕ → Time) (g : MemoryManager) {old : Job}
    → lookup j.id g.storage.jobs ≡ some old
    → (h : MemoryManager) × (dead_letter memory_storage worker j c now g ≡ (ok tt, h))
      × SameWork g h
unfolding dead_letter
dead_letter_refused worker j c now g stored = elim (Bool-cases (c.dead_letter_queue == "")) [
  | inl e ↦ (g, rw e, record { jobs = refl; queues = refl; paused = refl })
  | inr e ↦ rw e (read (enqueue-Enqueued moved now g))
]
  where
    moved : Job
    moved = record j { queue = c.dead_letter_queue; status = pending }

    read :
        Enqueued moved now g (enqueue memory_storage moved now g)
        → (h : MemoryManager) × (or_log (enqueue memory_storage moved now) g ≡ (ok tt, h))
          × SameWork g h
    read (duplicate _ h _ e same) = (h, rw e, same)
    read (accepted _ _ _ new _ _ _ _ _ _) = absurd (cc)

-- Counting a worker's failure touches workers only, and a missing worker is only logged.
pub increment_failed_lem :
    (id : String) (g : MemoryManager)
    → (h : MemoryManager) × (or_log (call (Workers.increment_failed id)) g ≡ (ok tt, h))
      × SameWork g h
unfolding Workers.increment_failed Workers.change_worker
increment_failed_lem id g = elim (Option-cases (lookup id g.storage.workers)) [
  | inl e ↦ (g, rw (e, Workers.change_worker), record { jobs = refl; queues = refl; paused = refl })
  | inr (w, e) ↦ (
    record g {
      storage = record g.storage {
        workers = insert id (record w { failed_count = w.failed_count +ℤ pos 1 }) g.storage.workers;
      };
    },
    rw (e, Workers.change_worker),
    record { jobs = refl; queues = refl; paused = refl },
  )
]
