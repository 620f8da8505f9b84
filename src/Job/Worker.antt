-- ===== src/Job/Worker.antt =====
-- pkg/job/worker.go: a worker as the stores keep it. `LastHeartbeat` and `CurrentJobID` are
-- pointers, as in every use of them.
use distributed_task_queue_s.Base.{
  ℤ, ltb_ℤ, ◌-ℤ◌, saturate64, String, Bool, false, Option, none, some, List, Dict,
}

pub data WorkerStatus : Type 0 where
  idle processing stopped failed : WorkerStatus

pub record Worker : Type 0 where
  pub id : String
  pub hostname : String
  pub started_at : ℤ
  pub last_heartbeat : Option ℤ
  pub current_job_id : Option String
  pub processed_count : ℤ
  pub failed_count : ℤ
  pub status : WorkerStatus
  pub queues : List String
  pub concurrency : ℤ
  pub tags : Dict String
  pub version : String

-- `time.Since(*w.LastHeartbeat) < timeout`; a worker that never sent a heartbeat is not alive.
unfoldable pub is_alive : Worker → ℤ → ℤ → Bool
unfolding saturate64 ◌-ℤ◌
is_alive w timeout now = elim w.last_heartbeat [
  | none ↦ false
  | some at ↦ ltb_ℤ (saturate64 (now -ℤ at)) timeout
]

unfoldable pub uptime : Worker → ℤ → ℤ
unfolding saturate64 ◌-ℤ◌
uptime w now = saturate64 (now -ℤ w.started_at)
