-- ===== src/Api/Routes.antt =====
-- handleHealth, handleReady and the routes of setupRoutes in internal/api/http/server.go. The package
-- net/http finds the route of a path; the files of the web console are left out.
use distributed_task_queue_s.Base.{Method}
use distributed_task_queue_s.Manager.Storage.{Storage}
use distributed_task_queue_s.Api.{Request, Ambient, Server, Response, Verb, health_body}
use distributed_task_queue_s.Api.Paths.{write_json}
use distributed_task_queue_s.Api.Jobs.{handle_jobs, handle_job, handle_cancel_job}
use distributed_task_queue_s.Api.Queues.{
  handle_queues, handle_queue, handle_pause_queue, handle_resume_queue, handle_queue_stats,
}
use distributed_task_queue_s.Api.Schedules.{handle_schedules, handle_schedule, handle_metrics}

pub data Route : Type 0 where
  health ready jobs job cancel_job queues queue pause_queue resume_queue queue_stats : Route
  schedules schedule metrics : Route

module _ {S : Type 0} where
  unfoldable pub handle_health : Ambient → Method (Server S) Response
  handle_health a = write_json 200 (health_body "healthy" a.rfc3339)

  unfoldable pub handle_ready : Ambient → Method (Server S) Response
  handle_ready a = write_json 200 (health_body "ready" a.rfc3339)

module _ {S : Type 0} (st : Storage S) where
  unfoldable pub handle_route : Route → Ambient → Verb → Request → Method (Server S) Response
  handle_route health a v r = handle_health a
  handle_route ready a v r = handle_ready a
  handle_route jobs a v r = handle_jobs st a v r
  handle_route job a v r = handle_job st v r
  handle_route cancel_job a v r = handle_cancel_job st a v r
  handle_route queues a v r = handle_queues st v r
  handle_route queue a v r = handle_queue st v r
  handle_route pause_queue a v r = handle_pause_queue st v r
  handle_route resume_queue a v r = handle_resume_queue st v r
  handle_route queue_stats a v r = handle_queue_stats st v r
  handle_route schedules a v r = handle_schedules a v r
  handle_route schedule a v r = handle_schedule v r
  handle_route metrics a v r = handle_metrics st a v

  abbrev pub serve : Route → Ambient → Request → Method (Server S) Response
  serve route a r = handle_route route a r.verb r
