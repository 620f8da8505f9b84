-- ===== src/Api/Schedules.antt =====
-- handleSchedules, handleSchedule and handleMetrics of internal/api/http/server.go.
use distributed_task_queue_s.Base.{
  String, Option, none, some, length, Method, handle, fail, error_text, lookup_or, ◌==◌,
  if◌then◌else◌,
}
use distributed_task_queue_s.Manager.Storage.{Storage}
use distributed_task_queue_s.Manager.Queues.{get_all_queue_stats}
use distributed_task_queue_s.Recurring.{Schedule}
use distributed_task_queue_s.Recurring.Schedules
use distributed_task_queue_s.Api.{
  Request, Ambient, Server, Response, Verb, get, post, put, delete, other, schedule_body,
  schedules_body, metrics_body, message_body,
}
use distributed_task_queue_s.Api.Paths.{
  managed, scheduled, write_json, write_error, with_name, after_prefix,
}

abbrev pub id_or : String → Schedule → String
id_or uuid s = if s.id == "" then uuid else s.id

module _ {S : Type 0} where
  unfoldable pub list_of_schedules : Method (Server S) Response
  list_of_schedules =
      handle (scheduled Schedules.list_schedules)
        (λ ss. write_json 200 (schedules_body ss (length ss))) fail

  -- The schedule that is answered is the one that AddSchedule has changed and stored.
  unfoldable pub created : String → Schedule → Method (Server S) Response
  created id s g = write_json 201 (schedule_body (lookup_or s id g.scheduler.schedules)) g

  unfoldable pub create_schedule : Ambient → Option Schedule → Method (Server S) Response
  create_schedule a none = write_error 400 "invalid request body"
  create_schedule a (some s) =
      handle (scheduled (Schedules.add_schedule a.calendar a.uuid (a.now 0) s))
        (λ _. created (id_or a.uuid s) s) (λ e. write_error 500 (error_text e))

  unfoldable pub handle_schedules : Ambient → Verb → Request → Method (Server S) Response
  handle_schedules a get r = list_of_schedules
  handle_schedules a post r = create_schedule a r.as_schedule
  handle_schedules a put r = write_error 405 "method not allowed"
  handle_schedules a delete r = write_error 405 "method not allowed"
  handle_schedules a other r = write_error 405 "method not allowed"

  unfoldable pub schedule_of : String → Method (Server S) Response
  schedule_of id =
      handle (scheduled (Schedules.get_schedule id)) (λ s. write_json 200 (schedule_body s))
        (λ _. write_error 404 "schedule not found")

  unfoldable pub drop_schedule : String → Method (Server S) Response
  drop_schedule id =
      handle (scheduled (Schedules.remove_schedule id))
        (λ _. write_json 200 (message_body "schedule deleted"))
        (λ e. write_error 500 (error_text e))

  unfoldable pub handle_schedule : Verb → Request → Method (Server S) Response
  handle_schedule get r = with_name (after_prefix "/api/v1/schedules/" r.path) schedule_of
  handle_schedule delete r = with_name (after_prefix "/api/v1/schedules/" r.path) drop_schedule
  handle_schedule post r =
      with_name (after_prefix "/api/v1/schedules/" r.path)
        (λ _. write_error 405 "method not allowed")
  handle_schedule put r =
      with_name (after_prefix "/api/v1/schedules/" r.path)
        (λ _. write_error 405 "method not allowed")
  handle_schedule other r =
      with_name (after_prefix "/api/v1/schedules/" r.path)
        (λ _. write_error 405 "method not allowed")

module _ {S : Type 0} (st : Storage S) where
  unfoldable pub metrics : Ambient → Method (Server S) Response
  metrics a =
      handle (managed (get_all_queue_stats st))
        (λ all.
          handle (scheduled Schedules.get_schedule_stats)
            (λ s. write_json 200 (metrics_body all s a.rfc3339)) fail)
        (λ e. write_error 500 (error_text e))

  unfoldable pub handle_metrics : Ambient → Verb → Method (Server S) Response
  handle_metrics a get = metrics a
  handle_metrics a post = write_error 405 "method not allowed"
  handle_metrics a put = write_error 405 "method not allowed"
  handle_metrics a delete = write_error 405 "method not allowed"
  handle_metrics a other = write_error 405 "method not allowed"
