-- ===== src/Memory/Jobs.antt =====
-- The job methods of internal/storage/memory/memory.go (CreateJob to SetError). `now k` is the
-- (k + 1)-th reading of the clock within a call.
pub mod Access
pub mod Stamps
pub mod Listing
pub mod Paging
use distributed_task_queue_s.Base.{
  false, ℕ, ℤ, pos, negsuc, leb, ltb, String, Bool, true, ◌&&◌, ◌||◌, ◌==◌, if◌then◌else◌, is_some,
  not, Option, none, some, List, [], ◌∷◌, length, take, drop, select, lookup, insert, delete,
  values, Method, Outcome, ok, err, panic, job_already_exists, job_not_found,
}
use distributed_task_queue_s.Job.{
  Job, Status, StatusFilter, any_status, of_status, unknown_status, running, Time, after, status_eq,
  is_terminal,
}
use distributed_task_queue_s.Memory.{MemoryStore}

unfoldable pub create_job : Job → Method MemoryStore (Unit {0})
create_job j m = elim (lookup j.id m.jobs) [
  | some _ ↦ (err job_already_exists, m)
  | none ↦ (ok tt, record m { jobs = insert j.id j m.jobs })
]

unfoldable pub get_job : String → Method MemoryStore Job
get_job id m = elim (lookup id m.jobs) [ none ↦ (err job_not_found, m) | some j ↦ (ok j, m) ]

unfoldable pub update_job : Job → Method MemoryStore (Unit {0})
update_job j m = elim (lookup j.id m.jobs) [
  | none ↦ (err job_not_found, m)
  | some _ ↦ (ok tt, record m { jobs = insert j.id j m.jobs })
]

unfoldable pub delete_job : String → Method MemoryStore (Unit {0})
delete_job id m = elim (lookup id m.jobs) [
  | none ↦ (err job_not_found, m)
  | some _ ↦ (ok tt, record m { jobs = delete id m.jobs })
]

-- The setters change the stored job in place.
unfoldable pub change_job : String → (Job → Job) → Method MemoryStore (Unit {0})
change_job id f m = elim (lookup id m.jobs) [
  | none ↦ (err job_not_found, m)
  | some j ↦ (ok tt, record m { jobs = insert id (f j) m.jobs })
]

mark_started : Status → Time → Job → Job
mark_started status now j =
    if status_eq status running && not (is_some j.started_at)
    then record j { started_at = some now }
    else j

mark_completed : Time → Job → Job
mark_completed now j =
    if is_terminal j && not (is_some j.completed_at)
    then record j { completed_at = some now }
    else j

unfoldable pub enter_status : Status → (ℕ → Time) → Job → Job
unfolding mark_started mark_completed
enter_status status now j =
    mark_completed (now 2)
      (mark_started status (now 1) (record j { status = status; updated_at = now 0 }))

unfoldable pub update_status : String → Status → (ℕ → Time) → Method MemoryStore (Unit {0})
unfolding change_job
update_status id status now = change_job id (enter_status status now)

unfoldable pub update_progress : String → ℤ → Time → Method MemoryStore (Unit {0})
unfolding change_job
update_progress id progress now =
    change_job id (λ j. record j { progress = progress; updated_at = now })

unfoldable pub set_result : String → String → Time → Method MemoryStore (Unit {0})
unfolding change_job
set_result id result now = change_job id (λ j. record j { result = result; updated_at = now })

unfoldable pub set_error : String → String → Time → Method MemoryStore (Unit {0})
unfolding change_job
set_error id text now = change_job id (λ j. record j { error = text; updated_at = now })

-- The empty status matches every job.
abbrev pub has_status : StatusFilter → Job → Bool
has_status any_status j = true
has_status (of_status s) j = status_eq j.status s
has_status unknown_status j = false

-- The empty queue name matches every job.
abbrev pub job_matches : String → StatusFilter → Job → Bool
job_matches queue status j = (queue == "" || j.queue == queue) && has_status status j

-- `sort.Slice` by creation time, newest first. This sort keeps the order of equal times, and the loop
-- over the map takes it in the order of the model's list of entries; Go promises neither order, so of
-- jobs that were created at one time only the theorems that hold for every order speak.
unfoldable pub place_newest : Job → List Job → List Job
place_newest j [] = j ∷ []
place_newest j (k ∷ ks) =
    if after k.created_at j.created_at then k ∷ place_newest j ks else j ∷ k ∷ ks

unfoldable pub newest_first : List Job → List Job
unfolding place_newest
newest_first [] = []
newest_first (j ∷ js) = place_newest j (newest_first js)

abbrev pub limit_page : ℤ → List Job → List Job
limit_page (pos n) jobs = if ltb 0 n && ltb n (length jobs) then take n jobs else jobs
limit_page (negsuc n) jobs = jobs

-- Slicing from a negative offset panics.
unfoldable pub paginate : ℤ → ℤ → List Job → Outcome (List Job)
paginate limit (negsuc n) jobs = panic
paginate limit (pos n) jobs =
    if leb (length jobs) n then ok [] else ok (limit_page limit (drop n jobs))

unfoldable pub list_jobs : String → StatusFilter → ℤ → ℤ → Method MemoryStore (List Job)
unfolding newest_first paginate
list_jobs queue status limit offset m =
    (paginate limit offset (newest_first (select (job_matches queue status) (values m.jobs))), m)
