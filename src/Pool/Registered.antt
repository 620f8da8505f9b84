-- ===== src/Pool/Registered.antt =====
-- What Start and Stop of internal/worker/pool.go leave in the in-memory backend.
use distributed_task_queue_s.Base.{
  String, ◌==◌, if◌then◌else◌, ◌≡◌, refl, ◌∙◌, eq_refl, none, some, lookup, insert, delete,
  lookup-insert, lookup-delete, Dict, ok, arith,
}
use distributed_task_queue_s.Job.Worker.{Worker, WorkerStatus, processing, stopped}
use distributed_task_queue_s.Memory.{MemoryStore}
use distributed_task_queue_s.Memory.Workers.{
  register_worker, unregister_worker, update_worker_status, change_worker,
}
use distributed_task_queue_s.Manager.Storage.{memory_storage}
use distributed_task_queue_s.Pool.Setup.{Pool, start, stop, with_status}

abbrev pub workers_of : Pool MemoryStore → Dict Worker
workers_of p = p.queue_manager.storage.workers

abbrev pub with_workers : Dict Worker → Pool MemoryStore → Pool MemoryStore
with_workers ws p = record p {
  queue_manager = record p.queue_manager {
    storage = record p.queue_manager.storage { workers = ws };
  };
}

-- The worker as Start registers it, and as it is then marked.
abbrev pub marked : Pool MemoryStore → Dict Worker
marked p =
    insert p.worker.id (record p.worker { status = processing })
      (insert p.worker.id p.worker (workers_of p))

found :
    (p : Pool MemoryStore) (v : Worker) (ws : Dict Worker)
    → lookup p.worker.id (insert p.worker.id v ws) ≡ some v
found p v ws = lookup-insert p.worker.id p.worker.id v ws ∙ rw (eq_refl p.worker.id) refl

update_worker_status_lem :
    (id : String) (status : WorkerStatus) (v : Worker) (m : MemoryStore)
    → lookup id m.workers ≡ some v
    → update_worker_status id status m
      ≡ (ok tt, record m { workers = insert id (record v { status = status }) m.workers })
unfolding update_worker_status change_worker
update_worker_status_lem id status v m e = rw (e, change_worker) refl

start_lem :
    (p : Pool MemoryStore)
    → start memory_storage p ≡ (ok tt, with_workers (marked p) (with_status processing p))
unfolding start register_worker
start_lem p =
    rw
      (update_worker_status_lem p.worker.id processing p.worker
        (record p.queue_manager.storage { workers = insert p.worker.id p.worker (workers_of p) })
        (found p p.worker (workers_of p)))
      refl

unregister_worker_lem :
    (id : String) (v : Worker) (m : MemoryStore)
    → lookup id m.workers ≡ some v
    → unregister_worker id m ≡ (ok tt, record m { workers = delete id m.workers })
unfolding unregister_worker
unregister_worker_lem id v m e = rw (e, unregister_worker) refl

-- Stop, when the backend knows the worker.
stop_lem :
    (p : Pool MemoryStore) (v : Worker)
    → lookup p.worker.id (workers_of p) ≡ some v
    → stop memory_storage p ≡ (
      ok tt,
      with_workers
          (delete p.worker.id (insert p.worker.id (record v { status = stopped }) (workers_of p)))
          (with_status stopped p),
    )
unfolding stop
stop_lem p v e = rw (update_worker_status_lem p.worker.id stopped v p.queue_manager.storage e) (
    rw
      (unregister_worker_lem p.worker.id (record v { status = stopped })
        (record p.queue_manager.storage {
          workers = insert p.worker.id (record v { status = stopped }) (workers_of p);
        })
        (found p (record v { status = stopped }) (workers_of p)))
      refl)

lookup-marked :
    (p : Pool MemoryStore) (other : String)
    → lookup other (marked p) ≡ (
        if p.worker.id == other
        then some (record p.worker { status = processing })
        else lookup other (workers_of p))
lookup-marked p other = ground (
  arith,
  lookup-insert p.worker.id other (record p.worker { status = processing })
      (insert p.worker.id p.worker (workers_of p)),
  lookup-insert p.worker.id other p.worker (workers_of p),
)

-- Start succeeds and registers the pool's worker as processing; when it is then stopped, the backend
-- knows no worker of that identifier, and any other worker is as it was before the start.
pub start-stop :
    (p : Pool MemoryStore) (other : String)
    → ((start memory_storage p).0 ≡ ok tt)
      × (lookup p.worker.id (workers_of (start memory_storage p).1)
          ≡ some (record p.worker { status = processing }))
      × ((stop memory_storage (start memory_storage p).1).0 ≡ ok tt)
      × (lookup other (workers_of (stop memory_storage (start memory_storage p).1).1)
          ≡ (if p.worker.id == other then none else lookup other (workers_of p)))
start-stop p other =
    let v : Worker = record p.worker { status = processing } in
    let q : Pool MemoryStore = with_workers (marked p) (with_status processing p) in
    let here : lookup p.worker.id (marked p) ≡ some v =
      lookup-marked p p.worker.id ∙ rw (eq_refl p.worker.id) refl in
    let last = lookup-insert p.worker.id other (record v { status = stopped }) (marked p) in
    let after =
      lookup-delete p.worker.id other
        (insert p.worker.id (record v { status = stopped }) (marked p)) in
    rw (start_lem p) (
      rw (stop_lem q v here) (refl, here, refl, ground (arith, after, last, lookup-marked p other)))
