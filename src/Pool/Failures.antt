-- ===== src/Pool/Failures.antt =====
-- What handleJobFailure of internal/worker/pool.go leaves in the in-memory backend.
use distributed_task_queue_s.Base.{
  ℕ, pos, ◌+ℤ◌, String, true, false, ◌≡◌, ap, ◌∙◌, inl, inr, some, Bool-cases, [], ◌∷◌, ◌++◌,
  lookup, insert, lookup-insert_self, ok, or_log, ◌>>◌, Error, error_text,
}
use distributed_task_queue_s.Job.{Job, Time, retrying, failed, can_retry}
use distributed_task_queue_s.Job.Queue.{QueueConfig}
use distributed_task_queue_s.Memory.{MemoryStore}
use distributed_task_queue_s.Memory.Jobs
use distributed_task_queue_s.Memory.Jobs.Stamps.{enter_status-Stamped}
use distributed_task_queue_s.Memory.Queues.{entries, new_entry}
use distributed_task_queue_s.Memory.Queues
use distributed_task_queue_s.Memory.Workers
use distributed_task_queue_s.Memory.Metrics
use distributed_task_queue_s.Manager.{call}
use distributed_task_queue_s.Manager.Storage.{memory_storage}
use distributed_task_queue_s.Manager.Jobs.{requeue, update_job_status, set_job_error}
use distributed_task_queue_s.Manager.Enqueueing.{MemoryManager, SameWork, get_queue_config_cached}
use distributed_task_queue_s.Pool.Backoff.{calculate_retry_delay}
use distributed_task_queue_s.Pool.Running.{
  dead_letter, retry_job, fail_job, handle_job_failure, retried, later,
}
use distributed_task_queue_s.Pool.DeadLetter.{dead_letter_refused, increment_failed_lem}

-- The job as it is put back stands in the store just as the worker holds it: the status RETRYING and
-- the error text that were written before are gone.
pub retry_job_overwrites :
    (worker : String) (j : Job) (c : QueueConfig) (now : ℕ → Time) (g : MemoryManager) {old : Job}
    → lookup j.id g.storage.jobs ≡ some old
    → (h : MemoryManager) × (retry_job memory_storage worker j c now g ≡ (ok tt, h))
      × (lookup j.id h.storage.jobs ≡ some j)
      × (h.storage.queues
          ≡ insert j.queue
              (entries g.storage j.queue
                ++ new_entry j.id j.priority (now 3 +ℤ calculate_retry_delay j.current_retry c)
                  ∷ [])
              g.storage.queues)
unfolding retry_job requeue update_job_status Jobs.update_status Jobs.change_job Jobs.update_job
    Queues.requeue Queues.enqueue Metrics.record_job_retried
retry_job_overwrites worker j c now g {old} stored =
    rw (stored, Jobs.change_job)
      (rw (lookup-insert_self j.id, Jobs.update_job)
        (rw (lookup-insert_self j.id, Queues.enqueue) (last (increment_failed_lem worker counted))))
  where
    put_back : MemoryStore
    put_back = record g.storage {
      jobs = insert j.id j (insert j.id (Jobs.enter_status retrying now old) g.storage.jobs);
      queues =
          insert j.queue
            (entries g.storage j.queue
              ++ new_entry j.id j.priority (now 3 +ℤ calculate_retry_delay j.current_retry c) ∷ [])
            g.storage.queues;
    }

    counted : MemoryManager
    counted = record g { storage = (Metrics.record_job_retried j.queue j.type put_back).1 }

    last :
        (h : MemoryManager) × (or_log (call (Workers.increment_failed worker)) counted ≡ (ok tt, h))
          × SameWork counted h
        → (h : MemoryManager) × (or_log (call (Workers.increment_failed worker)) counted
            ≡ (ok tt, h))
          × (lookup j.id h.storage.jobs ≡ some j)
          × (h.storage.queues ≡ put_back.queues)
    last (h, e, same) =
        (h, e, ap (lookup j.id) same.jobs ∙ lookup-insert_self j.id j _, same.queues)

-- A job out of retries is stored as FAILED, and the queues stay as they are, dead-letter queue
-- included.
fail_job_lem :
    (worker : String) (j : Job) (c : QueueConfig) (now : ℕ → Time) (g : MemoryManager) {old : Job}
    → lookup j.id g.storage.jobs ≡ some old
    → lookup j.queue g.configs ≡ some c
    → (h : MemoryManager) × (fail_job memory_storage worker j now g ≡ (ok tt, h))
      × (lookup j.id h.storage.jobs ≡ some (Jobs.enter_status failed now old))
      × (h.storage.queues ≡ g.storage.queues)
unfolding fail_job update_job_status Jobs.update_status Metrics.record_job_failed
fail_job_lem worker j c now g {old} stored known =
    rw (stored, Jobs.change_job)
      (rw (get_queue_config_cached j.queue counted known) (
        settle (
          dead_letter_refused worker j c (later 3 now) counted
            (lookup-insert_self j.id _ g.storage.jobs))))
  where
    counted : MemoryManager
    counted = record g {
      storage =
          (Metrics.record_job_failed j.queue j.type (record g.storage {
            jobs = insert j.id (Jobs.enter_status failed now old) g.storage.jobs;
          })).1;
    }

    settle :
        (h : MemoryManager) × (dead_letter memory_storage worker j c (later 3 now) counted
            ≡ (ok tt, h))
          × SameWork counted h
        → (h : MemoryManager) × ((dead_letter memory_storage worker j c (later 3 now)
                >> or_log (call (Workers.increment_failed worker)))
              counted
            ≡ (ok tt, h))
          × (lookup j.id h.storage.jobs ≡ some (Jobs.enter_status failed now old))
          × (h.storage.queues ≡ g.storage.queues)
    settle (h, e, same) = rw e (last (increment_failed_lem worker h))
      where
        last :
            (k : MemoryManager) × (or_log (call (Workers.increment_failed worker)) h ≡ (ok tt, k))
              × SameWork h k
            → (k : MemoryManager) × (or_log (call (Workers.increment_failed worker)) h ≡ (ok tt, k))
              × (lookup j.id k.storage.jobs ≡ some (Jobs.enter_status failed now old))
              × (k.storage.queues ≡ g.storage.queues)
        last (k, e', same') = (
          k,
          e',
          ap (lookup j.id) (same'.jobs ∙ same.jobs) ∙ lookup-insert_self j.id _ g.storage.jobs,
          same'.queues ∙ same.queues,
        )

set_error_lem :
    (id text : String) (now : Time) (g : MemoryManager) {old : Job}
    → lookup id g.storage.jobs ≡ some old
    → set_job_error memory_storage id text now g ≡ (
      ok tt,
      record g {
        storage = record g.storage {
          jobs = insert id (record old { error = text; updated_at = now }) g.storage.jobs;
        };
      },
    )
unfolding set_job_error Jobs.set_error
set_error_lem id text now g stored = rw (stored, Jobs.change_job)

-- What a failed job leaves behind.
pub record Requeued (j : Job) (c : QueueConfig) (now : ℕ → Time) (g h : MemoryManager)
    : Type 0 where
  pub job : lookup j.id h.storage.jobs ≡ some (retried j)
  pub queued :
      h.storage.queues
      ≡ insert j.queue
          (entries g.storage j.queue
            ++ new_entry j.id j.priority
                (now 4 +ℤ calculate_retry_delay (j.current_retry +ℤ pos 1) c)
              ∷ [])
          g.storage.queues

pub record Buried (j : Job) (text : String) (g h : MemoryManager) : Type 0 where
  pub job : Job
  pub stored : lookup j.id h.storage.jobs ≡ some job
  pub marked : job.status ≡ failed
  pub explained : job.error ≡ text
  pub queues : h.storage.queues ≡ g.storage.queues

-- The failure of a stored job of a known queue: with retries left it goes back into its queue, due
-- after the delay of the retry number, and the store holds the worker's copy of the job, without the
-- error text; out of retries it is stored as FAILED with the error text, and no queue changes, even
-- if a dead-letter queue is configured.
pub handle_job_failure_lem :
    (worker : String) (j : Job) (e : Error) (c : QueueConfig) (now : ℕ → Time) (g : MemoryManager)
    {old : Job}
    → lookup j.id g.storage.jobs ≡ some old
    → lookup j.queue g.configs ≡ some c
    → (h : MemoryManager) × (handle_job_failure memory_storage worker j e now g ≡ (ok tt, h))
      × (can_retry j ≡ true → Requeued j c now g h)
      × (can_retry j ≡ false → Buried j (error_text e) g h)
unfolding handle_job_failure
handle_job_failure_lem worker j e c now g {old} stored known = elim (Bool-cases (can_retry j)) [
  | inl more ↦ rw (set_error_lem j.id (error_text e) (now 0) g stored) (
      rw more (
        rw (get_queue_config_cached j.queue marked known)
          (again more (retry_job_overwrites worker (retried j) c (later 1 now) marked here))))
  | inr none_left ↦
      rw (set_error_lem j.id (error_text e) (now 0) g stored)
        (rw none_left (bury none_left (fail_job_lem worker j c (later 1 now) marked here known)))
]
  where
    marked : MemoryManager
    marked = record g {
      storage = record g.storage {
        jobs = insert j.id (record old { error = error_text e; updated_at = now 0 }) g.storage.jobs;
      };
    }

    here :
        lookup j.id marked.storage.jobs
        ≡ some (record old { error = error_text e; updated_at = now 0 })
    here = lookup-insert_self j.id _ g.storage.jobs

    again :
        can_retry j ≡ true
        → (h : MemoryManager) × (retry_job memory_storage worker (retried j) c (later 1 now) marked
            ≡ (ok tt, h))
          × (lookup j.id h.storage.jobs ≡ some (retried j))
          × (h.storage.queues
              ≡ insert j.queue
                  (entries g.storage j.queue
                    ++ new_entry j.id j.priority
                        (later 1 now 3 +ℤ calculate_retry_delay (j.current_retry +ℤ pos 1) c)
                      ∷ [])
                  g.storage.queues)
        → (h : MemoryManager) × (retry_job memory_storage worker (retried j) c (later 1 now) marked
            ≡ (ok tt, h))
          × (true ≡ true → Requeued j c now g h)
          × (true ≡ false → Buried j (error_text e) g h)
    again more (h, r, job, queued) =
        (h, r, λ _. record { job = job; queued = queued }, λ f. absurd (cc))

    bury :
        can_retry j ≡ false
        → (h : MemoryManager) × (fail_job memory_storage worker j (later 1 now) marked ≡ (ok tt, h))
          × (lookup j.id h.storage.jobs
              ≡ some (
                  Jobs.enter_status failed
                    (later 1 now)
                    (record old { error = error_text e; updated_at = now 0 })))
          × (h.storage.queues ≡ g.storage.queues)
        → (h : MemoryManager) × (fail_job memory_storage worker j (later 1 now) marked ≡ (ok tt, h))
          × (false ≡ true → Requeued j c now g h)
          × (false ≡ false → Buried j (error_text e) g h)
    bury out (h, r, job, queues) =
        let stamp =
          enter_status-Stamped failed (later 1 now)
            (record old { error = error_text e; updated_at = now 0 }) in
        (
          h,
          r,
          λ f. absurd (cc),
          λ _. record {
            job = _;
            stored = job;
            marked = stamp.entered;
            explained = stamp.error_kept;
            queues = queues;
          },
        )
