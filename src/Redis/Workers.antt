-- ===== src/Redis/Workers.antt =====
-- internal/storage/redis/worker.go. A worker without a current job has none, where the code writes an
-- empty text.
use Prim.Native.String.{◌++◌ as append}
use distributed_task_queue_s.Base.{
  pos, ◌+ℤ◌, String, ◌==◌, not, if◌then◌else◌, Option, none, some, List, [], ◌∷◌, select, Method,
  give, fail, annotate, handle, ◌>>=◌, ◌>>◌, worker_not_found, invalid_value,
}
use distributed_task_queue_s.Job.{Time, Duration}
use distributed_task_queue_s.Job.Worker.{Worker, WorkerStatus, idle, processing, is_alive}
use distributed_task_queue_s.Redis.{Client, Codec, pure}

abbrev pub worker_key : String → String
worker_key id = append "worker:" id

abbrev pub worker_set : String
worker_set = "worker:set"

-- A worker with a job processes, and one without is idle.
abbrev pub with_current_job : String → Worker → Worker
with_current_job job_id w = record w {
  current_job_id = if job_id == "" then none else some job_id;
  status = if job_id == "" then idle else processing;
}

module _ {R D F : Type 0} (c : Client R D F) (json : Codec D Worker) where
  unfoldable pub register : Worker → Method R (Unit {0})
  register w = if w.id == "" then fail invalid_value else do
    text ← annotate "failed to marshal worker" (pure (json.marshal w))
    annotate "failed to register worker" (c.set (worker_key w.id) text)
    annotate "failed to add worker to set" (c.s_add worker_set w.id)

  unfoldable pub unregister : String → Method R (Unit {0})
  unregister id = if id == "" then fail invalid_value else do
    _ ← annotate "failed to unregister worker" (c.del (worker_key id))
    annotate "failed to remove worker from set" (c.s_rem worker_set id)

  abbrev pub decoded_worker : Option D → Method R Worker
  decoded_worker none = fail worker_not_found
  decoded_worker (some text) = annotate "failed to unmarshal worker" (pure (json.unmarshal text))

  unfoldable pub get_worker : String → Method R Worker
  get_worker id =
      if id == ""
      then fail invalid_value
      else annotate "failed to get worker" (c.get (worker_key id)) >>= decoded_worker

  -- A worker that cannot be read is left out.
  unfoldable pub collect_workers : List String → Method R (List Worker)
  collect_workers [] = give []
  collect_workers (id ∷ ids) =
      let rest = collect_workers ids in
      handle (get_worker id) (λ w. handle rest (λ ws. give (w ∷ ws)) fail) (λ _. rest)

  unfoldable pub list_workers : Method R (List Worker)
  list_workers = annotate "failed to list workers" (c.s_members worker_set) >>= collect_workers

  abbrev pub write_back : String → Worker → Method R (Unit {0})
  write_back id w = do
    text ← annotate "failed to marshal worker" (pure (json.marshal w))
    c.set (worker_key id) text

  -- The setters read the worker, change it and write it back, in separate commands.
  unfoldable pub change_worker : String → (Worker → Worker) → Method R (Unit {0})
  change_worker id f = get_worker id >>= (λ w. write_back id (f w))

  unfoldable pub update_heartbeat : String → Time → Method R (Unit {0})
  update_heartbeat id now = change_worker id (λ w. record w { last_heartbeat = some now })

  unfoldable pub update_worker_status : String → WorkerStatus → Method R (Unit {0})
  update_worker_status id status = change_worker id (λ w. record w { status = status })

  unfoldable pub set_current_job : String → String → Method R (Unit {0})
  set_current_job id job_id = change_worker id (with_current_job job_id)

  unfoldable pub increment_processed : String → Method R (Unit {0})
  increment_processed id =
      change_worker id (λ w. record w { processed_count = w.processed_count +ℤ pos 1 })

  unfoldable pub increment_failed : String → Method R (Unit {0})
  increment_failed id = change_worker id (λ w. record w { failed_count = w.failed_count +ℤ pos 1 })

  unfoldable pub get_stale_workers : Duration → Time → Method R (List Worker)
  get_stale_workers timeout now = do
    ws ← list_workers
    give (select (λ w. not (is_alive w timeout now)) ws)
