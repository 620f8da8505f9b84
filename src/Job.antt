-- ===== src/Job.antt =====
-- pkg/job/job.go: the job, its statuses and its tests. `UpdatedAt`, which the stores and the
-- scheduler write, stands among the fields though the struct does not declare it; `RetryCount` and
-- `TimeoutSeconds` of the callers are `CurrentRetry` and `Timeout`.
pub mod Queue
pub mod Worker
use distributed_task_queue_s.Base.{
  ℤ, pos, negsuc, ltb_ℤ, ◌-ℤ◌, saturate64, String, Bool, true, false, not, ◌&&◌, ◌||◌, Option, none,
  some, List, Dict,
}

-- Nanoseconds since a fixed origin; `time.Duration` is the same type.
abbrev pub Time : Type 0
Time = ℤ

abbrev pub Duration : Type 0
Duration = ℤ

-- `a.After(b)`.
abbrev pub after : Time → Time → Bool
after a b = ltb_ℤ b a

pub data Status : Type 0 where
  pending running success failed retrying cancelled expired : Status

-- The statuses that a listing asks for: all of them (the empty text), one of them, or a text that is
-- none of them.
pub data StatusFilter : Type 0 where
  any_status : StatusFilter
  of_status : Status → StatusFilter
  unknown_status : StatusFilter

unfoldable pub status_eq : Status → Status → Bool
status_eq pending pending = true
status_eq running running = true
status_eq success success = true
status_eq failed failed = true
status_eq retrying retrying = true
status_eq cancelled cancelled = true
status_eq expired expired = true
status_eq _ _ = false

abbrev pub Priority : Type 0
Priority = ℤ

abbrev pub priority_low : Priority
priority_low = pos 0

abbrev pub priority_normal : Priority
priority_normal = pos 5

abbrev pub priority_high : Priority
priority_high = pos 10

-- A payload and a result are kept as the text of their JSON.
pub record Job : Type 0 where
  pub id : String
  pub type : String
  pub payload : String
  pub priority : Priority
  pub status : Status
  pub max_retries : ℤ
  pub current_retry : ℤ
  pub timeout : Duration
  pub scheduled_at : Option Time
  pub created_at : Time
  pub started_at : Option Time
  pub completed_at : Option Time
  pub error : String
  pub result : String
  pub metadata : Dict String
  pub queue : String
  pub progress : ℤ
  pub worker_id : String
  pub updated_at : Time

unfoldable pub is_terminal : Job → Bool
unfolding status_eq
is_terminal j =
    status_eq j.status success
    || status_eq j.status failed
    || status_eq j.status cancelled
    || status_eq j.status expired

unfoldable pub can_retry : Job → Bool
unfolding is_terminal
can_retry j = ltb_ℤ j.current_retry j.max_retries && not (is_terminal j)

-- `now` is the reading of the clock.
unfoldable pub is_ready : Job → Time → Bool
is_ready j now = elim j.scheduled_at [ none ↦ true | some at ↦ after now at ]

unfoldable pub duration : Job → Duration
unfolding saturate64 ◌-ℤ◌
duration j = elim j.started_at [
  | none ↦ pos 0
  | some from ↦ elim j.completed_at [ none ↦ pos 0 | some to ↦ saturate64 (to -ℤ from) ]
]
