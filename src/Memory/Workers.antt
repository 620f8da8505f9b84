-- ===== src/Memory/Workers.antt =====
-- The worker methods of internal/storage/memory/memory.go (RegisterWorker to GetStaleWorkers).
use distributed_task_queue_s.Base.{
  pos, ◌+ℤ◌, ◌-ℤ◌, ltb_ℤ, String, Bool, false, ◌||◌, ◌==◌, if◌then◌else◌, none, some, List, [], ◌∷◌,
  select, lookup, insert, delete, values, Method, ok, err, worker_not_found,
}
use distributed_task_queue_s.Job.{Time, Duration}
use distributed_task_queue_s.Job.Worker.{Worker, WorkerStatus}
use distributed_task_queue_s.Memory.{MemoryStore}

unfoldable pub register_worker : Worker → Method MemoryStore (Unit {0})
register_worker w m = (ok tt, record m { workers = insert w.id w m.workers })

unfoldable pub unregister_worker : String → Method MemoryStore (Unit {0})
unregister_worker id m = elim (lookup id m.workers) [
  | none ↦ (err worker_not_found, m)
  | some _ ↦ (ok tt, record m { workers = delete id m.workers })
]

unfoldable pub get_worker : String → Method MemoryStore Worker
get_worker id m = elim (lookup id m.workers) [
  | none ↦ (err worker_not_found, m)
  | some w ↦ (ok w, m)
]

unfoldable pub contains : String → List String → Bool
contains q [] = false
contains q (x ∷ xs) = x == q || contains q xs

unfoldable pub list_workers : String → Method MemoryStore (List Worker)
unfolding contains
list_workers queue m =
    (ok (select (λ w. queue == "" || contains queue w.queues) (values m.workers)), m)

-- The setters change the stored worker in place.
unfoldable pub change_worker : String → (Worker → Worker) → Method MemoryStore (Unit {0})
change_worker id f m = elim (lookup id m.workers) [
  | none ↦ (err worker_not_found, m)
  | some w ↦ (ok tt, record m { workers = insert id (f w) m.workers })
]

unfoldable pub update_heartbeat : String → Time → Method MemoryStore (Unit {0})
unfolding change_worker
update_heartbeat id now = change_worker id (λ w. record w { last_heartbeat = some now })

unfoldable pub update_worker_status : String → WorkerStatus → Method MemoryStore (Unit {0})
unfolding change_worker
update_worker_status id status = change_worker id (λ w. record w { status = status })

unfoldable pub set_current_job : String → String → Method MemoryStore (Unit {0})
unfolding change_worker
set_current_job id job_id =
    change_worker id (λ w. record w { current_job_id = if job_id == "" then none else some job_id })

unfoldable pub increment_processed : String → Method MemoryStore (Unit {0})
unfolding change_worker
increment_processed id =
    change_worker id (λ w. record w { processed_count = w.processed_count +ℤ pos 1 })

unfoldable pub increment_failed : String → Method MemoryStore (Unit {0})
unfolding change_worker
increment_failed id = change_worker id (λ w. record w { failed_count = w.failed_count +ℤ pos 1 })

-- A worker with no heartbeat is never stale.
abbrev pub is_stale : Time → Worker → Bool
is_stale cutoff w = elim w.last_heartbeat [ none ↦ false | some at ↦ ltb_ℤ at cutoff ]

unfoldable pub get_stale_workers : Duration → Time → Method MemoryStore (List Worker)
get_stale_workers threshold now m =
    (ok (select (is_stale (now -ℤ threshold)) (values m.workers)), m)
