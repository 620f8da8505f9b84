-- ===== src/Examples/Serving.antt =====
-- Requests to internal/api/http/server.go at concrete inputs, over the in-memory store.
use distributed_task_queue_s.Base.{pos, String, ◌≡◌, refl, Option, none, some, ok}
use distributed_task_queue_s.Job.{any_status, Job, priority_low}
use distributed_task_queue_s.Memory.{MemoryStore}
use distributed_task_queue_s.Manager.Storage.{memory_storage}
use distributed_task_queue_s.Recurring.{new_scheduler}
use distributed_task_queue_s.Api.{Request, Ambient, Server, Verb, get, post, put}
use distributed_task_queue_s.Api.Paths.{after_prefix, between}
use distributed_task_queue_s.Api.Jobs.{handle_jobs}
use distributed_task_queue_s.Api.Routes.{job, queue, handle_route}
use distributed_task_queue_s.Api.Replies.{Answered}
use distributed_task_queue_s.Api.Answers.{supports, handle_route-Answered}
use distributed_task_queue_s.Api.Reading.{SameData, get-SameData}
use distributed_task_queue_s.Api.Creating.{Posted, handle_jobs-Posted}
use distributed_task_queue_s.Examples.Store.{sample, tick}
use distributed_task_queue_s.Examples.Queueing.{fresh}
use distributed_task_queue_s.Examples.Cycling.{plain}

abbrev server : Server MemoryStore
server = record { scheduler = new_scheduler fresh }

abbrev around : Ambient
around = record {
  now = tick;
  nanos = "1700000000000000000";
  rfc3339 = "2023-11-14T22:13:20Z";
  uuid = "u";
  calendar = plain;
}

abbrev request : Verb → String → Option Job → Request
request v path j = record {
  verb = v;
  path = path;
  queue = "";
  status = any_status;
  limit = pos 0;
  offset = pos 0;
  as_job = j;
  as_queue_config = none;
  as_schedule = none;
}

cut : between "/api/v1/queues/" "/pause" "/api/v1/queues/mail/pause" ≡ ok "mail"
unfolding between after_prefix
cut = refl

-- A queue cannot be changed without a configuration in the body.
handle_route-Answered_example :
    Answered
      (supports queue put)
      server
      (handle_route memory_storage queue around put (request put "/api/v1/queues/mail" none) server)
handle_route-Answered_example =
    handle_route-Answered memory_storage queue around put (request put "/api/v1/queues/mail" none)
      server

get-SameData_example :
    SameData server
      (handle_route memory_storage job around get (request get "/api/v1/jobs/a" none) server).1
get-SameData_example = get-SameData job around (request get "/api/v1/jobs/a" none) server

handle_jobs-Posted_example : Posted around (sample "" priority_low (pos 1)) server (
    handle_jobs memory_storage around post
      (request post "/api/v1/jobs" (some (sample "" priority_low (pos 1))))
      server)
handle_jobs-Posted_example =
    handle_jobs-Posted around (sample "" priority_low (pos 1))
      (request post "/api/v1/jobs" (some (sample "" priority_low (pos 1)))) server refl
