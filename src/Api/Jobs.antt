-- ===== src/Api/Jobs.antt =====
-- handleJobs, handleJob and handleCancelJob of internal/api/http/server.go.
use Prim.Native.String.{◌++◌ as append}
use distributed_task_queue_s.Base.{
  pos, String, ◌==◌, if◌then◌else◌, Option, none, some, length, Method, handle, error_text,
}
use distributed_task_queue_s.Job.{Job, Time, pending}
use distributed_task_queue_s.Manager.Storage.{Storage}
use distributed_task_queue_s.Manager.Jobs.{enqueue, get_job, delete_job, list_jobs, cancel_job}
use distributed_task_queue_s.Manager.Queues.{default_to}
use distributed_task_queue_s.Pool.Running.{later}
use distributed_task_queue_s.Api.{
  Request, Ambient, Server, Response, Verb, get, post, put, delete, other, job_body, jobs_body,
  message_body,
}
use distributed_task_queue_s.Api.Paths.{
  managed, write_json, write_error, with_name, after_prefix, between,
}

abbrev pub or_now : Time → Option Time → Option Time
or_now now none = some now
or_now now (some t) = some t

-- The first reading of the clock makes the identifier.
unfoldable pub as_new : Ambient → Job → Job
as_new a j = record j {
  id = if j.id == "" then append "job_" a.nanos else j.id;
  status = pending;
  created_at = a.now 1;
  updated_at = a.now 2;
  scheduled_at = or_now (a.now 3) j.scheduled_at;
}

module _ {S : Type 0} (st : Storage S) where
  unfoldable pub list_of_jobs : Request → Method (Server S) Response
  list_of_jobs r =
      let limit = default_to (pos 50) r.limit in
      handle (managed (list_jobs st r.queue r.status limit r.offset))
        (λ jobs. write_json 200 (jobs_body jobs (length jobs) limit r.offset))
        (λ e. write_error 500 (error_text e))

  unfoldable pub create_job : Ambient → Option Job → Method (Server S) Response
  create_job a none = write_error 400 "invalid request body"
  create_job a (some j) =
      handle (managed (enqueue st (as_new a j) (later 4 a.now))) (λ j. write_json 201 (job_body j))
        (λ e. write_error 500 (error_text e))

  unfoldable pub handle_jobs : Ambient → Verb → Request → Method (Server S) Response
  handle_jobs a get r = list_of_jobs r
  handle_jobs a post r = create_job a r.as_job
  handle_jobs a put r = write_error 405 "method not allowed"
  handle_jobs a delete r = write_error 405 "method not allowed"
  handle_jobs a other r = write_error 405 "method not allowed"

  unfoldable pub job_of : String → Method (Server S) Response
  job_of id =
      handle (managed (get_job st id)) (λ j. write_json 200 (job_body j))
        (λ _. write_error 404 "job not found")

  unfoldable pub drop_job : String → Method (Server S) Response
  drop_job id =
      handle (managed (delete_job st id)) (λ _. write_json 200 (message_body "job deleted"))
        (λ e. write_error 500 (error_text e))

  unfoldable pub handle_job : Verb → Request → Method (Server S) Response
  handle_job get r = with_name (after_prefix "/api/v1/jobs/" r.path) job_of
  handle_job delete r = with_name (after_prefix "/api/v1/jobs/" r.path) drop_job
  handle_job post r =
      with_name (after_prefix "/api/v1/jobs/" r.path) (λ _. write_error 405 "method not allowed")
  handle_job put r =
      with_name (after_prefix "/api/v1/jobs/" r.path) (λ _. write_error 405 "method not allowed")
  handle_job other r =
      with_name (after_prefix "/api/v1/jobs/" r.path) (λ _. write_error 405 "method not allowed")

  unfoldable pub cancel : Ambient → String → Method (Server S) Response
  cancel a id =
      handle (managed (cancel_job st id a.now)) (λ _. write_json 200 (message_body "job cancelled"))
        (λ e. write_error 500 (error_text e))

  unfoldable pub handle_cancel_job : Ambient → Verb → Request → Method (Server S) Response
  handle_cancel_job a post r = with_name (between "/api/v1/jobs/" "/cancel" r.path) (cancel a)
  handle_cancel_job a get r = write_error 405 "method not allowed"
  handle_cancel_job a put r = write_error 405 "method not allowed"
  handle_cancel_job a delete r = write_error 405 "method not allowed"
  handle_cancel_job a other r = write_error 405 "method not allowed"
