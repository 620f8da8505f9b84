-- ===== src/Examples/Operating.antt =====
-- The goroutines of a worker pool of internal/worker/pool.go at concrete inputs, over the in-memory
-- store.
use distributed_task_queue_s.Base.{
  ◌+◌, ◌*◌, ◌≤◌, pos, ◌==◌, true, false, ◌≡◌, refl, if◌then◌else◌, none, some, List, [], ◌∷◌,
  length, lookup, ok,
}
use distributed_task_queue_s.Job.{priority_low}
use distributed_task_queue_s.Job.Worker.{processing}
use distributed_task_queue_s.Memory.{MemoryStore}
use distributed_task_queue_s.Manager.Storage.{memory_storage}
use distributed_task_queue_s.Manager.Jobs.{enqueue, dequeue, dequeue_from}
use distributed_task_queue_s.Manager.Selection.{select_queue, gather, candidate, ask, choose}
use distributed_task_queue_s.Pool.Backend.{memory_storage-NoPanics}
use distributed_task_queue_s.Pool.Setup.{
  Config, Host, Pool, new_pool, pool_of, with_defaults, start, stop,
}
use distributed_task_queue_s.Pool.Loops.{
  Run, Event, close_stop, give_back, poll, send, fetch, receive, process, returned, started, moves,
}
use distributed_task_queue_s.Pool.Custody.{Kept}
use distributed_task_queue_s.Pool.Conservation.{AllRecorded, moves-Kept}
use distributed_task_queue_s.Pool.Holding.{moves-le, started-Kept}
use distributed_task_queue_s.Pool.Shutdown.{Reaches, all_gone}
use distributed_task_queue_s.Pool.Stopping.{moves-stops}
use distributed_task_queue_s.Pool.Registered.{workers_of, start-stop}
use distributed_task_queue_s.Examples.Store.{sample, tick}
use distributed_task_queue_s.Examples.Queueing.{fresh, zeros}

abbrev machine : Host
machine = record { hostname = "box"; unix = "1700000000"; cpus = pos 4; now = pos 9 }

abbrev small : Config
small = record {
  id = "";
  queues = [];
  concurrency = pos 1;
  poll_interval = pos 0;
  heartbeat_interval = pos 0;
  shutdown_timeout = pos 0;
  tags = [];
}

-- A pool over a store in which two jobs wait.
abbrev two_wait : Pool MemoryStore
two_wait =
    pool_of
      (enqueue memory_storage (sample "b" priority_low (pos 1)) tick
        (enqueue memory_storage (sample "a" priority_low (pos 1)) tick fresh).1).1
      machine (with_defaults machine small)

named : new_pool fresh machine small ≡ ok (pool_of fresh machine (with_defaults machine small))
unfolding new_pool
named = refl

its_name : (pool_of fresh machine (with_defaults machine small)).id ≡ "box-1700000000"
its_name = refl

-- The fetch loop takes both jobs; a worker starts with the first.
abbrev working : List Event
working = poll ∷ fetch zeros tick ∷ send ∷ fetch zeros tick ∷ receive 0 ∷ process 0 tick ∷ []

-- Stop is called while the second job waits for a place in the channel.
abbrev giving : List Event
giving =
    poll
    ∷ fetch zeros tick
    ∷ send
    ∷ receive 0
    ∷ fetch zeros tick
    ∷ close_stop
    ∷ give_back (pos 9)
    ∷ process 0 tick
    ∷ []

moves-Kept_example :
    Kept (λ j. j.id == "a") (moves memory_storage giving (started two_wait 1))
    × AllRecorded giving (started two_wait 1)
moves-Kept_example =
    moves-Kept (λ j. j.id == "a") giving (started two_wait 1)
      (started-Kept (λ j. j.id == "a") two_wait 1)

moves-le_example :
    length (moves memory_storage working (started two_wait 1)).fetched
    ≤ length (moves memory_storage working (started two_wait 1)).finished
      + (length (moves memory_storage working (started two_wait 1)).returned_jobs
          + (length (moves memory_storage working (started two_wait 1)).lost_jobs + (2 * 1 + 1)))
moves-le_example = moves-le memory_storage 1 two_wait working refl

-- Stop has been called while the channel holds a job that no worker has received.
abbrev stopping_run : Run MemoryStore
unfolding started
stopping_run = record (started (pool_of fresh machine (with_defaults machine small)) 1) {
  stopping = true;
  job_ch = sample "a" priority_low (pos 1) ∷ [];
}

moves-stops_example :
    (t : Run MemoryStore) × Reaches memory_storage stopping_run t
    × (t.fetcher ≡ returned)
    × (t.hands ≡ all_gone stopping_run.hands)
    × (t.beating ≡ false)
    × (t.ended ≡ false)
    × (t.job_ch ≡ sample "a" priority_low (pos 1) ∷ [])
unfolding stopping_run started dequeue dequeue_from select_queue gather candidate ask choose lookup
moves-stops_example =
    moves-stops memory_storage memory_storage-NoPanics tick zeros stopping_run
      (record { stopping = refl; running = refl }) tt

start-stop_example :
    ((start memory_storage two_wait).0 ≡ ok tt)
    × (lookup two_wait.worker.id (workers_of (start memory_storage two_wait).1)
        ≡ some (record two_wait.worker { status = processing }))
    × ((stop memory_storage (start memory_storage two_wait).1).0 ≡ ok tt)
    × (lookup "other" (workers_of (stop memory_storage (start memory_storage two_wait).1).1)
        ≡ (if two_wait.worker.id == "other" then none else lookup "other" (workers_of two_wait)))
start-stop_example = start-stop two_wait "other"
