-- ===== src/Memory/Jobs/Stamps.antt =====
-- The start and completion times that UpdateStatus of internal/storage/memory/memory.go writes.
use distributed_task_queue_s.Base.{
  ℕ, Bool, true, false, ◌≡◌, refl, ap, ◌∙◌, Option, none, some, is_some, List, [], ◌∷◌,
  if◌then◌else◌, arith,
}
use distributed_task_queue_s.Job.{
  Job, Status, running, success, failed, cancelled, expired, status_eq, is_terminal, Time,
}
use distributed_task_queue_s.Memory.Jobs.{enter_status}

-- What one call does to the stored job.
pub record Stamped (status : Status) (now : ℕ → Time) (j j' : Job) : Type 0 where
  pub entered : j'.status ≡ status
  pub updated : j'.updated_at ≡ now 0
  pub start_kept : is_some j.started_at ≡ true → j'.started_at ≡ j.started_at
  pub start_set : status ≡ running → j.started_at ≡ none → j'.started_at ≡ some (now 1)
  pub end_kept : is_some j.completed_at ≡ true → j'.completed_at ≡ j.completed_at
  pub end_set : is_terminal j' ≡ true → j.completed_at ≡ none → j'.completed_at ≡ some (now 2)
  pub end_only : is_terminal j' ≡ false → j'.completed_at ≡ j.completed_at
  pub retries_kept : j'.current_retry ≡ j.current_retry
  pub error_kept : j'.error ≡ j.error

pub enter_status-Stamped :
    (status : Status) (now : ℕ → Time) (j : Job) → Stamped status now j (enter_status status now j)
unfolding enter_status is_terminal
enter_status-Stamped status now j = ground arith

pub data Change : Type 0 where
  change : Status → (ℕ → Time) → Change

abbrev pub apply : Change → Job → Job
apply (change status now) j = enter_status status now j

unfoldable pub apply_all : List Change → Job → Job
apply_all [] j = j
apply_all (c ∷ cs) j = apply_all cs (apply c j)

-- Which statuses are terminal, said of the status alone.
abbrev pub ends : Status → Bool
ends success = true
ends failed = true
ends cancelled = true
ends expired = true
ends _ = false

abbrev pub or_else : Option Time → Option Time → Option Time
or_else none b = b
or_else (some a) b = some a

or_else-none : (a : Option Time) → a ≡ or_else a none
or_else-none none = refl
or_else-none (some a) = refl

-- The time of the first change of a kind in a history.
abbrev pub first_time : (Change → Option Time) → List Change → Option Time
first_time f [] = none
first_time f (c ∷ cs) = or_else (f c) (first_time f cs)

abbrev pub start_time : Change → Option Time
start_time (change status now) = if status_eq status running then some (now 1) else none

abbrev pub end_time : Change → Option Time
end_time (change status now) = if ends status then some (now 2) else none

or_else_assoc : (a b c : Option Time) → or_else (or_else a b) c ≡ or_else a (or_else b c)
or_else_assoc none b c = refl
or_else_assoc (some a) b c = refl

apply-started :
    (c : Change) (j : Job) → (apply c j).started_at ≡ or_else j.started_at (start_time c)
unfolding enter_status is_terminal
apply-started (change status now) j = ground arith

apply-completed :
    (c : Change) (j : Job) → (apply c j).completed_at ≡ or_else j.completed_at (end_time c)
unfolding enter_status is_terminal
apply-completed (change status now) j = ground arith

-- Over any history of status changes a job starts at its first change to RUNNING and completes at
-- its first change to a terminal status, unless these times were set before; later changes, even
-- back out of a terminal status, move neither.
pub apply_all-times :
    (cs : List Change) (j : Job)
    → ((apply_all cs j).started_at ≡ or_else j.started_at (first_time start_time cs))
      × ((apply_all cs j).completed_at ≡ or_else j.completed_at (first_time end_time cs))
unfolding apply_all
apply_all-times [] j = (or_else-none j.started_at, or_else-none j.completed_at)
apply_all-times (c ∷ cs) j =
    let (s, e) = apply_all-times cs (apply c j) in
    (
      s
          ∙ ap (λ o. or_else o (first_time start_time cs)) (apply-started c j)
          ∙ or_else_assoc j.started_at (start_time c) (first_time start_time cs),
      e
          ∙ ap (λ o. or_else o (first_time end_time cs)) (apply-completed c j)
          ∙ or_else_assoc j.completed_at (end_time c) (first_time end_time cs),
    )
