-- ===== src/Manager.antt =====
-- internal/queue/manager.go: the queue manager. It keeps a copy of every queue configuration that it
-- has seen beside the storage backend, which is the interface `Storage`; the children hold its
-- methods.
pub mod Storage
pub mod Queues
pub mod Selection
pub mod Jobs
pub mod Enqueueing
pub mod Ranking
pub mod Choosing
pub mod Cancelling
pub mod Asking
pub mod Dequeueing
pub mod Coherence
use distributed_task_queue_s.Base.{Dict, Method, Outcome}
use distributed_task_queue_s.Job.Queue.{QueueConfig}

-- The manager together with the backend that it owns.
pub record Manager (S : Type 0) : Type 0 where
  pub storage : S
  pub configs : Dict QueueConfig

abbrev pub store_back : {S A : Type 0} → Manager S → Outcome A × S → Outcome A × Manager S
store_back g (o, s) = (o, record g { storage = s })

-- A call of the backend.
abbrev pub call : {S A : Type 0} → Method S A → Method (Manager S) A
call op g = store_back g (op g.storage)
