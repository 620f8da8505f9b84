-- ===== src/Pool/Setup.antt =====
-- NewPool, the registration of handlers, and what Start, Stop and the heartbeat ask of the backend, in
-- internal/worker/pool.go.
use Prim.Native.String.{◌++◌ as append}
use distributed_task_queue_s.Base.{
  ℤ, pos, ltb_ℤ, String, ◌==◌, if◌then◌else◌, none, some, List, [], ◌∷◌, Dict, insert, Method,
  Outcome, ok, panic, annotate, or_log, ◌>>◌,
}
use distributed_task_queue_s.Job.{Time, Duration}
use distributed_task_queue_s.Job.Worker.{Worker, WorkerStatus, idle, processing, stopped}
use distributed_task_queue_s.Manager.{Manager, call}
use distributed_task_queue_s.Manager.Storage.{Storage}
use distributed_task_queue_s.Manager.Queues.{default_to}
use distributed_task_queue_s.Pool.Running.{JobHandler}

pub record Config : Type 0 where
  pub id : String
  pub queues : List String
  pub concurrency : ℤ
  pub poll_interval : Duration
  pub heartbeat_interval : Duration
  pub shutdown_timeout : Duration
  pub tags : Dict String

-- The machine: its name, the clock's seconds as a text, its number of processors, and the clock.
pub record Host : Type 0 where
  pub hostname : String
  pub unix : String
  pub cpus : ℤ
  pub now : Time

pub record Pool (S : Type 0) : Type 0 where
  pub id : String
  pub queue_manager : Manager S
  pub handlers : Dict JobHandler
  pub queues : List String
  pub concurrency : ℤ
  pub poll_interval : Duration
  pub heartbeat_interval : Duration
  pub shutdown_timeout : Duration
  pub worker : Worker

abbrev pub queues_or_default : List String → List String
queues_or_default [] = "default" ∷ []
queues_or_default (q ∷ qs) = q ∷ qs

abbrev pub with_defaults : Host → Config → Config
with_defaults host c = record {
  id = if c.id == "" then append host.hostname (append "-" host.unix) else c.id;
  queues = queues_or_default c.queues;
  concurrency = default_to host.cpus c.concurrency;
  poll_interval = default_to (pos 1000000000) c.poll_interval;
  heartbeat_interval = default_to (pos 30000000000) c.heartbeat_interval;
  shutdown_timeout = default_to (pos 30000000000) c.shutdown_timeout;
  tags = c.tags;
}

abbrev pub worker_of : Host → Config → Worker
worker_of host c = record {
  id = c.id;
  hostname = host.hostname;
  started_at = host.now;
  last_heartbeat = some host.now;
  current_job_id = none;
  processed_count = pos 0;
  failed_count = pos 0;
  status = idle;
  queues = c.queues;
  concurrency = c.concurrency;
  tags = c.tags;
  version = "1.0.0";
}

module _ {S : Type 0} where
  abbrev pub pool_of : Manager S → Host → Config → Pool S
  pool_of m host c = record {
    id = c.id;
    queue_manager = m;
    handlers = [];
    queues = c.queues;
    concurrency = c.concurrency;
    poll_interval = c.poll_interval;
    heartbeat_interval = c.heartbeat_interval;
    shutdown_timeout = c.shutdown_timeout;
    worker = worker_of host c;
  }

  -- `make` panics when the capacity of the channel is negative.
  unfoldable pub new_pool : Manager S → Host → Config → Outcome (Pool S)
  new_pool m host config =
      let c = with_defaults host config in
      if ltb_ℤ c.concurrency (pos 0) then panic else ok (pool_of m host c)

  unfoldable pub register_handler : String → JobHandler → Pool S → Pool S
  register_handler type h p = record p { handlers = insert type h p.handlers }

  unfoldable pub register_handlers : Dict JobHandler → Pool S → Pool S
  register_handlers [] p = p
  register_handlers ((type, h) ∷ rest) p = register_handlers rest (register_handler type h p)

  abbrev pub manage_back : {A : Type 0} → Pool S → Outcome A × Manager S → Outcome A × Pool S
  manage_back p (o, m) = (o, record p { queue_manager = m })

  -- A method of the manager, called by the pool.
  abbrev pub manage : {A : Type 0} → Method (Manager S) A → Method (Pool S) A
  manage op p = manage_back p (op p.queue_manager)

  abbrev pub with_status : WorkerStatus → Pool S → Pool S
  with_status status p = record p { worker = record p.worker { status = status } }

module _ {S : Type 0} (st : Storage S) where
  -- `p.worker.Status = status`, and the same in the backend.
  abbrev pub enter_status : WorkerStatus → Method (Pool S) (Unit {0})
  enter_status status p =
      manage (call (st.update_worker_status p.worker.id status)) (with_status status p)

  -- Start, up to the goroutines that it starts.
  unfoldable pub start : Method (Pool S) (Unit {0})
  start p =
      (annotate "failed to register worker" (manage (call (st.register_worker p.worker)))
          >> annotate "failed to update worker status" (enter_status processing))
        p

  -- Stop, once all goroutines have ended.
  unfoldable pub stop : Method (Pool S) (Unit {0})
  stop p =
      (or_log (enter_status stopped) >> or_log (manage (call (st.unregister_worker p.worker.id)))) p

  unfoldable pub beat : Time → Method (Pool S) (Unit {0})
  beat now p = or_log (manage (call (st.update_heartbeat p.worker.id now))) p
