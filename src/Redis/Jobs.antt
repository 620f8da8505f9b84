-- ===== src/Redis/Jobs.antt =====
-- Create to SetError and Health of internal/storage/redis/redis.go. List, which scans all keys, is left
-- out.
use Prim.Native.String.{◌++◌ as append}
use distributed_task_queue_s.Base.{
  ℕ, zero, suc, ℤ, String, ◌==◌, ◌&&◌, if◌then◌else◌, not, is_some, Option, none, some, Method,
  give, fail, annotate, ◌>>=◌, job_not_found, job_already_exists, invalid_value,
}
use distributed_task_queue_s.Job.{Job, Status, Time, running, status_eq, is_terminal}
use distributed_task_queue_s.Redis.{Client, Codec, pure}

abbrev pub job_key : String → String
job_key id = append "job:" id

abbrev pub mark_started : Status → Time → Job → Job
mark_started status now j =
    if status_eq status running && not (is_some j.started_at)
    then record j { started_at = some now }
    else j

abbrev pub mark_completed : Time → Job → Job
mark_completed now j =
    if is_terminal j && not (is_some j.completed_at)
    then record j { completed_at = some now }
    else j

-- Unlike the in-memory store, this one leaves the stamp of the last change alone.
unfoldable pub enter_status : Status → (ℕ → Time) → Job → Job
enter_status status now j =
    mark_completed (now 1) (mark_started status (now 0) (record j { status = status }))

module _ {R D F : Type 0} (c : Client R D F) (json : Codec D Job) where
  unfoldable pub create : Job → Method R (Unit {0})
  create j = if j.id == "" then fail invalid_value else do
    text ← annotate "failed to marshal job" (pure (json.marshal j))
    is_new ← annotate "failed to create job" (c.set_nx (job_key j.id) text)
    if is_new then give tt else fail job_already_exists

  abbrev pub decoded : Option D → Method R Job
  decoded none = fail job_not_found
  decoded (some text) = annotate "failed to unmarshal job" (pure (json.unmarshal text))

  unfoldable pub get : String → Method R Job
  get id =
      if id == ""
      then fail invalid_value
      else annotate "failed to get job" (c.get (job_key id)) >>= decoded

  abbrev pub store_known : Job → ℕ → Method R (Unit {0})
  store_known j zero = fail job_not_found
  store_known j (suc n) = do
    text ← annotate "failed to marshal job" (pure (json.marshal j))
    annotate "failed to update job" (c.set (job_key j.id) text)

  unfoldable pub update : Job → Method R (Unit {0})
  update j =
      if j.id == ""
      then fail invalid_value
      else annotate "failed to check job existence" (c.exists (job_key j.id)) >>= store_known j

  abbrev pub was_there : ℕ → Method R (Unit {0})
  was_there zero = fail job_not_found
  was_there (suc n) = give tt

  unfoldable pub delete : String → Method R (Unit {0})
  delete id =
      if id == ""
      then fail invalid_value
      else annotate "failed to delete job" (c.del (job_key id)) >>= was_there

  -- The setters read the job, change it and write it back, in separate commands.
  unfoldable pub change : String → (Job → Job) → Method R (Unit {0})
  change id f = get id >>= (λ j. update (f j))

  unfoldable pub update_status : String → Status → (ℕ → Time) → Method R (Unit {0})
  update_status id status now = change id (enter_status status now)

  unfoldable pub update_progress : String → ℤ → Method R (Unit {0})
  update_progress id progress = change id (λ j. record j { progress = progress })

  unfoldable pub set_result : String → String → Method R (Unit {0})
  set_result id result = change id (λ j. record j { result = result })

  unfoldable pub set_error : String → String → Method R (Unit {0})
  set_error id text = change id (λ j. record j { error = text })

  unfoldable pub health : Method R (Unit {0})
  health = c.ping
