-- ===== src/Api/Queues.antt =====
-- handleQueues to handleQueueStats of internal/api/http/server.go.
use distributed_task_queue_s.Base.{String, Option, none, some, length, Method, handle, error_text}
use distributed_task_queue_s.Job.Queue.{QueueConfig}
use distributed_task_queue_s.Manager.Storage.{Storage}
use distributed_task_queue_s.Manager.Queues
use distributed_task_queue_s.Api.{
  Request, Server, Response, Verb, get, post, put, delete, other, config_body, configs_body,
  stats_body, message_body,
}
use distributed_task_queue_s.Api.Paths.{
  managed, write_json, write_error, with_name, after_prefix, between,
}

module _ {S : Type 0} (st : Storage S) where
  unfoldable pub list_of_queues : Method (Server S) Response
  list_of_queues =
      handle (managed (Queues.list_queues st)) (λ cs. write_json 200 (configs_body cs (length cs)))
        (λ e. write_error 500 (error_text e))

  unfoldable pub create_queue : Option QueueConfig → Method (Server S) Response
  create_queue none = write_error 400 "invalid request body"
  create_queue (some c) =
      handle (managed (Queues.register_queue st c)) (λ d. write_json 201 (config_body d))
        (λ e. write_error 500 (error_text e))

  unfoldable pub handle_queues : Verb → Request → Method (Server S) Response
  handle_queues get r = list_of_queues
  handle_queues post r = create_queue r.as_queue_config
  handle_queues put r = write_error 405 "method not allowed"
  handle_queues delete r = write_error 405 "method not allowed"
  handle_queues other r = write_error 405 "method not allowed"

  unfoldable pub queue_of : String → Method (Server S) Response
  queue_of name =
      handle (managed (Queues.get_queue_config st name)) (λ c. write_json 200 (config_body c))
        (λ _. write_error 404 "queue not found")

  unfoldable pub update_queue : Option QueueConfig → String → Method (Server S) Response
  update_queue none name = write_error 400 "invalid request body"
  update_queue (some c) name =
      let d = record c { name = name } in
      handle (managed (Queues.update_queue_config st d)) (λ _. write_json 200 (config_body d))
        (λ e. write_error 500 (error_text e))

  unfoldable pub drop_queue : String → Method (Server S) Response
  drop_queue name =
      handle (managed (Queues.delete_queue st name))
        (λ _. write_json 200 (message_body "queue deleted")) (λ e. write_error 500 (error_text e))

  unfoldable pub handle_queue : Verb → Request → Method (Server S) Response
  handle_queue get r = with_name (after_prefix "/api/v1/queues/" r.path) queue_of
  handle_queue put r =
      with_name (after_prefix "/api/v1/queues/" r.path) (update_queue r.as_queue_config)
  handle_queue delete r = with_name (after_prefix "/api/v1/queues/" r.path) drop_queue
  handle_queue post r =
      with_name (after_prefix "/api/v1/queues/" r.path) (λ _. write_error 405 "method not allowed")
  handle_queue other r =
      with_name (after_prefix "/api/v1/queues/" r.path) (λ _. write_error 405 "method not allowed")

  unfoldable pub pause : String → Method (Server S) Response
  pause name =
      handle (managed (Queues.pause_queue st name))
        (λ _. write_json 200 (message_body "queue paused")) (λ e. write_error 500 (error_text e))

  unfoldable pub handle_pause_queue : Verb → Request → Method (Server S) Response
  handle_pause_queue post r = with_name (between "/api/v1/queues/" "/pause" r.path) pause
  handle_pause_queue get r = write_error 405 "method not allowed"
  handle_pause_queue put r = write_error 405 "method not allowed"
  handle_pause_queue delete r = write_error 405 "method not allowed"
  handle_pause_queue other r = write_error 405 "method not allowed"

  unfoldable pub wake : String → Method (Server S) Response
  wake name =
      handle (managed (Queues.resume_queue st name))
        (λ _. write_json 200 (message_body "queue resumed")) (λ e. write_error 500 (error_text e))

  unfoldable pub handle_resume_queue : Verb → Request → Method (Server S) Response
  handle_resume_queue post r = with_name (between "/api/v1/queues/" "/resume" r.path) wake
  handle_resume_queue get r = write_error 405 "method not allowed"
  handle_resume_queue put r = write_error 405 "method not allowed"
  handle_resume_queue delete r = write_error 405 "method not allowed"
  handle_resume_queue other r = write_error 405 "method not allowed"

  unfoldable pub stats_of : String → Method (Server S) Response
  stats_of name =
      handle (managed (Queues.get_queue_stats st name)) (λ s. write_json 200 (stats_body s))
        (λ e. write_error 500 (error_text e))

  unfoldable pub handle_queue_stats : Verb → Request → Method (Server S) Response
  handle_queue_stats get r = with_name (between "/api/v1/queues/" "/stats" r.path) stats_of
  handle_queue_stats post r = write_error 405 "method not allowed"
  handle_queue_stats put r = write_error 405 "method not allowed"
  handle_queue_stats delete r = write_error 405 "method not allowed"
  handle_queue_stats other r = write_error 405 "method not allowed"
