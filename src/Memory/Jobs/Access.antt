-- ===== src/Memory/Jobs/Access.antt =====
-- What the job methods of a storage backend (create, get, update, delete and the setters) mean for one
-- finite map from identifiers to jobs, and CreateJob, GetJob, UpdateJob and DeleteJob of
-- internal/storage/memory/memory.go against it.
use distributed_task_queue_s.Base.{
  String, ◌≡◌, inl, inr, Option, none, some, Option-cases, is_some, if◌then◌else◌, ◌==◌, lookup,
  lookup-insert, lookup-delete, Outcome, ok, err, job_not_found, job_already_exists,
}
use distributed_task_queue_s.Job.{Job}
use distributed_task_queue_s.Memory.{MemoryStore}
use distributed_task_queue_s.Memory.Jobs.{create_job, get_job, update_job, delete_job}

-- The abstract store: which job an identifier has, if any.
abbrev pub JobMap : Type 0
JobMap = String → Option Job

abbrev pub view : MemoryStore → JobMap
view m id = lookup id m.jobs

abbrev pub put : String → Option Job → JobMap → JobMap
put k v f id = if k == id then v else f id

-- What each method promises of the map: its outcome and the map after it.
abbrev pub create_spec : Job → JobMap → Outcome (Unit {0}) × JobMap
create_spec j f =
    if is_some (f j.id) then (err job_already_exists, f) else (ok tt, put j.id (some j) f)

abbrev pub found {ℓ} : {A : Type ℓ} → Option Job → (Job → A) → A → A
found none g d = d
found (some j) g d = g j

abbrev pub get_spec : String → JobMap → Outcome Job × JobMap
get_spec id f = found (f id) (λ j. (ok j, f)) (err job_not_found, f)

abbrev pub update_spec : Job → JobMap → Outcome (Unit {0}) × JobMap
update_spec j f = found (f j.id) (λ _. (ok tt, put j.id (some j) f)) (err job_not_found, f)

abbrev pub delete_spec : String → JobMap → Outcome (Unit {0}) × JobMap
delete_spec id f = found (f id) (λ _. (ok tt, put id none f)) (err job_not_found, f)

abbrev pub change_spec : String → (Job → Job) → JobMap → Outcome (Unit {0}) × JobMap
change_spec id g f = found (f id) (λ j. (ok tt, put id (some (g j)) f)) (err job_not_found, f)

-- A method on the store implements one on the map.
abbrev pub Implements {ℓ} :
    {A : Type ℓ} → (MemoryStore → Outcome A × MemoryStore) → (JobMap → Outcome A × JobMap) → Type ℓ
Implements op spec =
    (m : MemoryStore)
    → ((op m).0 ≡ (spec (view m)).0) × ((id : String) → view (op m).1 id ≡ (spec (view m)).1 id)

pub create_job-Implements : (j : Job) → Implements (create_job j) (create_spec j)
unfolding create_job
create_job-Implements j m = elim (Option-cases (lookup j.id m.jobs)) [
  | inl e ↦ (rw (e, create_job), λ id. rw (e, create_job) (lookup-insert j.id id j m.jobs))
  | inr (_, e) ↦ (rw (e, create_job), λ id. rw (e, create_job))
]

pub get_job-Implements : (id : String) → Implements (get_job id) (get_spec id)
unfolding get_job
get_job-Implements id m = elim (Option-cases (lookup id m.jobs)) [
  | inl e ↦ (rw (e, get_job), λ k. rw (e, get_job))
  | inr (_, e) ↦ (rw (e, get_job), λ k. rw (e, get_job))
]

pub update_job-Implements : (j : Job) → Implements (update_job j) (update_spec j)
unfolding update_job
update_job-Implements j m = elim (Option-cases (lookup j.id m.jobs)) [
  | inl e ↦ (rw (e, update_job), λ id. rw (e, update_job))
  | inr (_, e) ↦ (rw (e, update_job), λ id. rw (e, update_job) (lookup-insert j.id id j m.jobs))
]

pub delete_job-Implements : (id : String) → Implements (delete_job id) (delete_spec id)
unfolding delete_job
delete_job-Implements id m = elim (Option-cases (lookup id m.jobs)) [
  | inl e ↦ (rw (e, delete_job), λ k. rw (e, delete_job))
  | inr (_, e) ↦ (rw (e, delete_job), λ k. rw (e, delete_job) (lookup-delete id k m.jobs))
]
