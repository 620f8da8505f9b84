-- ===== src/Manager/Cancelling.antt =====
-- CancelJob and Dequeue of internal/queue/manager.go over the in-memory backend.
use distributed_task_queue_s.Base.{
  ℕ, String, true, false, ◌==◌, ◌≡◌, refl, ◌∙◌, inl, inr, none, some, Option-cases, Bool-cases,
  List, ◌∷◌, ◌++◌, All, lookup, insert, Outcome, ok, err, job_not_found, job_error, or_log,
}
use distributed_task_queue_s.Job.{Job, Time, cancelled, pending, status_eq, is_terminal}
use distributed_task_queue_s.Memory.{QueueEntry}
use distributed_task_queue_s.Memory.Jobs.{get_job, change_job, update_status, enter_status}
use distributed_task_queue_s.Memory.Queues.{entries, remove, with_entries}
use distributed_task_queue_s.Memory.Queues.Taking.{Removed, absent, removes, remove-Removed}
use distributed_task_queue_s.Manager.{call}
use distributed_task_queue_s.Manager.Storage.{memory_storage}
use distributed_task_queue_s.Manager.Jobs.{cancel_job, stop_job}
use distributed_task_queue_s.Manager.Enqueueing.{MemoryManager}

-- The queues after a stored job has been cancelled: those of a job that was not waiting stay, and a
-- waiting job loses its first entry, if it has one.
pub data Withdrawn (id : String) (j : Job) (g h : MemoryManager) : Type 0 where
  untouched :
      status_eq j.status pending ≡ false → h.storage.queues ≡ g.storage.queues → Withdrawn id j g h
  no_entry :
      status_eq j.status pending ≡ true
      → All (λ x. (x.job_id == id) ≡ false) (entries g.storage j.queue)
      → h.storage.queues ≡ g.storage.queues
      → Withdrawn id j g h
  taken :
      status_eq j.status pending ≡ true
      → (before : List QueueEntry) (e : QueueEntry) (behind : List QueueEntry)
      → entries g.storage j.queue ≡ before ++ e ∷ behind
      → e.job_id ≡ id
      → All (λ x. (x.job_id == id) ≡ false) before
      → h.storage.queues ≡ insert j.queue (before ++ behind) g.storage.queues
      → Withdrawn id j g h

-- How a call of CancelJob ends.
pub data Cancelled (id : String) (now : ℕ → Time) (g : MemoryManager)
    (r : Outcome (Unit {0}) × MemoryManager) : Type 0 where
  missing : lookup id g.storage.jobs ≡ none → r ≡ (err job_not_found, g) → Cancelled id now g r
  finished :
      (j : Job)
      → lookup id g.storage.jobs ≡ some j
      → is_terminal j ≡ true
      → r ≡ (err (job_error "job is already in terminal state"), g)
      → Cancelled id now g r
  stopped :
      (j : Job) (h : MemoryManager)
      → lookup id g.storage.jobs ≡ some j
      → is_terminal j ≡ false
      → r ≡ (ok tt, h)
      → h.storage.jobs ≡ insert id (enter_status cancelled now j) g.storage.jobs
      → Withdrawn id j g h
      → Cancelled id now g r

abbrev marked : String → Job → (ℕ → Time) → MemoryManager → MemoryManager
marked id j now g = record g {
  storage = record g.storage { jobs = insert id (enter_status cancelled now j) g.storage.jobs };
}

stop_waiting :
    (id : String) (j : Job) (now : ℕ → Time) (g : MemoryManager)
    → lookup id g.storage.jobs ≡ some j
    → status_eq j.status pending ≡ true
    → stop_job memory_storage id j now g ≡ or_log (call (remove j.queue id)) (marked id j now g)
unfolding stop_job update_status change_job
stop_waiting id j now g stored waiting = rw (stored, change_job) (rw waiting refl)

stop_other :
    (id : String) (j : Job) (now : ℕ → Time) (g : MemoryManager)
    → lookup id g.storage.jobs ≡ some j
    → status_eq j.status pending ≡ false
    → stop_job memory_storage id j now g ≡ (ok tt, marked id j now g)
unfolding stop_job update_status change_job
stop_other id j now g stored other = rw (stored, change_job) (rw other refl)

refused :
    (id : String) (now : ℕ → Time) (g : MemoryManager) (j : Job)
    → lookup id g.storage.jobs ≡ some j
    → is_terminal j ≡ true
    → cancel_job memory_storage id now g ≡ (err (job_error "job is already in terminal state"), g)
unfolding cancel_job get_job
refused id now g j stored done = rw (stored, get_job) (rw done refl)

accepted :
    (id : String) (now : ℕ → Time) (g : MemoryManager) (j : Job)
    → lookup id g.storage.jobs ≡ some j
    → is_terminal j ≡ false
    → cancel_job memory_storage id now g ≡ stop_job memory_storage id j now g
unfolding cancel_job get_job
accepted id now g j stored live = rw (stored, get_job) (rw live refl)

unknown :
    (id : String) (now : ℕ → Time) (g : MemoryManager)
    → lookup id g.storage.jobs ≡ none
    → cancel_job memory_storage id now g ≡ (err job_not_found, g)
unfolding cancel_job get_job
unknown id now g e = rw (e, get_job) refl

withdraw :
    (id : String) (j : Job) (now : ℕ → Time) (g : MemoryManager)
    → status_eq j.status pending ≡ true
    → Removed j.queue id (marked id j now g).storage (remove j.queue id (marked id j now g).storage)
    → (h : MemoryManager) × (or_log (call (remove j.queue id)) (marked id j now g) ≡ (ok tt, h))
      × (h.storage.jobs ≡ insert id (enter_status cancelled now j) g.storage.jobs)
      × Withdrawn id j g h
withdraw id j now g waiting (absent all e) =
    rw e (marked id j now g, refl, refl, no_entry waiting all refl)
withdraw id j now g waiting (removes before entry behind s h all e) = rw e (
  record g { storage = with_entries (marked id j now g).storage j.queue (before ++ behind) },
  refl,
  refl,
  taken waiting before entry behind s h all refl,
)

-- Cancelling a job that is not stored or is finished fails and changes nothing. Any other job is
-- stored as CANCELLED, and the call succeeds; a job that was PENDING loses the first entry that its
-- queue holds for it, and every other job keeps its entries.
pub cancel_job-Cancelled :
    (id : String) (now : ℕ → Time) (g : MemoryManager)
    → Cancelled id now g (cancel_job memory_storage id now g)
cancel_job-Cancelled id now g = elim (Option-cases (lookup id g.storage.jobs)) [
  | inl e ↦ missing e (unknown id now g e)
  | inr (j, e) ↦ elim (Bool-cases (is_terminal j)) [
    | inl done ↦ finished j e done (refused id now g j e done)
    | inr live ↦ elim (Bool-cases (status_eq j.status pending)) [
      | inl waiting ↦
          let (h, r, jobs, queues) =
            withdraw id j now g waiting (remove-Removed j.queue id (marked id j now g).storage) in
          stopped j h e live (accepted id now g j e live ∙ stop_waiting id j now g e waiting ∙ r)
            jobs queues
      | inr other ↦
          stopped j (marked id j now g) e live
            (accepted id now g j e live ∙ stop_other id j now g e other) refl (untouched other refl)
    ]
  ]
]
