-- ===== src/Api/Answers.antt =====
-- What internal/api/http/server.go answers to each method on each route.
use distributed_task_queue_s.Base.{
  String, Bool, true, false, refl, inl, Method, Outcome, ok, err, panic, ltb, if_both,
}
use Prim.Native.String.{len}
use distributed_task_queue_s.Manager.Storage.{Storage}
use distributed_task_queue_s.Api.{
  Request, Ambient, Server, Response, Verb, get, post, put, delete, other,
}
use distributed_task_queue_s.Api.Paths.{write_error, with_name, after_prefix, between, then_cut}
use distributed_task_queue_s.Api.Jobs.{
  handle_jobs, job_of, drop_job, handle_job, cancel, handle_cancel_job,
}
use distributed_task_queue_s.Api.Queues.{
  queue_of, update_queue, drop_queue, pause, wake, stats_of, handle_queues, handle_queue,
  handle_pause_queue, handle_resume_queue, handle_queue_stats,
}
use distributed_task_queue_s.Api.Schedules.{
  schedule_of, drop_schedule, handle_schedules, handle_schedule, handle_metrics,
}
use distributed_task_queue_s.Api.Routes.{
  Route, health, ready, jobs, job, cancel_job, queues, queue, pause_queue, resume_queue,
  queue_stats, schedules, schedule, metrics, handle_health, handle_ready, handle_route,
}
use distributed_task_queue_s.Api.Replies.{
  Answered, list_of_jobs-Answered, create_job-Answered, job_of-Answered, drop_job-Answered,
  cancel-Answered, list_of_queues-Answered, create_queue-Answered, queue_of-Answered,
  update_queue-Answered, drop_queue-Answered, pause-Answered, wake-Answered, stats_of-Answered,
  list_of_schedules-Answered, create_schedule-Answered, schedule_of-Answered,
  drop_schedule-Answered, metrics-Answered,
}

-- The methods that each route is for.
abbrev pub one_of : Bool → Bool → Bool → Bool → Verb → Bool
one_of g p u d get = g
one_of g p u d post = p
one_of g p u d put = u
one_of g p u d delete = d
one_of g p u d other = false

abbrev pub supports : Route → Verb → Bool
supports health v = true
supports ready v = true
supports jobs v = one_of true true false false v
supports job v = one_of true false false true v
supports cancel_job v = one_of false true false false v
supports queues v = one_of true true false false v
supports queue v = one_of true false true true v
supports pause_queue v = one_of false true false false v
supports resume_queue v = one_of false true false false v
supports queue_stats v = one_of true false false false v
supports schedules v = one_of true true false false v
supports schedule v = one_of true false false true v
supports metrics v = one_of true false false false v

-- Slices of a path give a text or panic.
abbrev NoError : Outcome String → Type 0
NoError (ok s) = Unit
NoError (err e) = ⊥
NoError panic = Unit

after_prefix_ok : (p s : String) → NoError (after_prefix p s)
unfolding after_prefix
after_prefix_ok p s = if_both NoError (ltb (len s) (len p)) panic (ok _) tt tt

between_ok : (p t s : String) → NoError (between p t s)
unfolding between
between_ok p t s = cut (after_prefix p s) (after_prefix_ok p s)
  where
    cut : (o : Outcome String) → NoError o → NoError (then_cut (len t) o)
    cut (ok u) h = if_both NoError (ltb (len u) (len t)) panic (ok _) tt tt
    cut (err e) h = h
    cut panic h = tt

module _ {S : Type 0} where
  with_name-Answered :
      (b : Bool) (o : Outcome String) (f : String → Method (Server S) Response) (g : Server S)
      → NoError o
      → ((s : String) → Answered b g (f s g))
      → Answered b g (with_name o f g)
  with_name-Answered true (ok s) f g n h = h s
  with_name-Answered false (ok s) f g n h = h s
  with_name-Answered true (err e) f g n h = n
  with_name-Answered false (err e) f g n h = n
  with_name-Answered true panic f g n h = tt
  with_name-Answered false panic f g n h = tt

  refused :
      (o : Outcome String) (g : Server S)
      → NoError o
      → Answered false g (with_name o (λ _. write_error 405 "method not allowed") g)
  refused o g n = with_name-Answered false o _ g n (λ s. (refl, refl))

module _ {S : Type 0} (st : Storage S) where
  handle_jobs-Answered :
      (a : Ambient) (v : Verb) (r : Request) (g : Server S)
      → Answered (supports jobs v) g (handle_jobs st a v r g)
  unfolding handle_jobs
  handle_jobs-Answered a get r g = list_of_jobs-Answered st r g
  handle_jobs-Answered a post r g = create_job-Answered st a r.as_job g
  handle_jobs-Answered a put r g = (refl, refl)
  handle_jobs-Answered a delete r g = (refl, refl)
  handle_jobs-Answered a other r g = (refl, refl)

  handle_job-Answered :
      (v : Verb) (r : Request) (g : Server S) → Answered (supports job v) g (handle_job st v r g)
  unfolding handle_job
  handle_job-Answered get r g =
      with_name-Answered true _ (job_of st) g (after_prefix_ok "/api/v1/jobs/" r.path)
        (λ id. job_of-Answered st id g)
  handle_job-Answered delete r g =
      with_name-Answered true _ (drop_job st) g (after_prefix_ok "/api/v1/jobs/" r.path)
        (λ id. drop_job-Answered st id g)
  handle_job-Answered post r g = refused _ g (after_prefix_ok "/api/v1/jobs/" r.path)
  handle_job-Answered put r g = refused _ g (after_prefix_ok "/api/v1/jobs/" r.path)
  handle_job-Answered other r g = refused _ g (after_prefix_ok "/api/v1/jobs/" r.path)

  handle_cancel_job-Answered :
      (a : Ambient) (v : Verb) (r : Request) (g : Server S)
      → Answered (supports cancel_job v) g (handle_cancel_job st a v r g)
  unfolding handle_cancel_job
  handle_cancel_job-Answered a post r g =
      with_name-Answered true _ (cancel st a) g (between_ok "/api/v1/jobs/" "/cancel" r.path)
        (λ id. cancel-Answered st a id g)
  handle_cancel_job-Answered a get r g = (refl, refl)
  handle_cancel_job-Answered a put r g = (refl, refl)
  handle_cancel_job-Answered a delete r g = (refl, refl)
  handle_cancel_job-Answered a other r g = (refl, refl)

  handle_queues-Answered :
      (v : Verb) (r : Request) (g : Server S)
      → Answered (supports queues v) g (handle_queues st v r g)
  unfolding handle_queues
  handle_queues-Answered get r g = list_of_queues-Answered st g
  handle_queues-Answered post r g = create_queue-Answered st r.as_queue_config g
  handle_queues-Answered put r g = (refl, refl)
  handle_queues-Answered delete r g = (refl, refl)
  handle_queues-Answered other r g = (refl, refl)

  handle_queue-Answered :
      (v : Verb) (r : Request) (g : Server S)
      → Answered (supports queue v) g (handle_queue st v r g)
  unfolding handle_queue
  handle_queue-Answered get r g =
      with_name-Answered true _ (queue_of st) g (after_prefix_ok "/api/v1/queues/" r.path)
        (λ name. queue_of-Answered st name g)
  handle_queue-Answered put r g =
      with_name-Answered true _ (update_queue st r.as_queue_config) g
        (after_prefix_ok "/api/v1/queues/" r.path)
        (λ name. update_queue-Answered st r.as_queue_config name g)
  handle_queue-Answered delete r g =
      with_name-Answered true _ (drop_queue st) g (after_prefix_ok "/api/v1/queues/" r.path)
        (λ name. drop_queue-Answered st name g)
  handle_queue-Answered post r g = refused _ g (after_prefix_ok "/api/v1/queues/" r.path)
  handle_queue-Answered other r g = refused _ g (after_prefix_ok "/api/v1/queues/" r.path)

  handle_pause_queue-Answered :
      (v : Verb) (r : Request) (g : Server S)
      → Answered (supports pause_queue v) g (handle_pause_queue st v r g)
  unfolding handle_pause_queue
  handle_pause_queue-Answered post r g =
      with_name-Answered true _ (pause st) g (between_ok "/api/v1/queues/" "/pause" r.path)
        (λ name. pause-Answered st name g)
  handle_pause_queue-Answered get r g = (refl, refl)
  handle_pause_queue-Answered put r g = (refl, refl)
  handle_pause_queue-Answered delete r g = (refl, refl)
  handle_pause_queue-Answered other r g = (refl, refl)

  handle_resume_queue-Answered :
      (v : Verb) (r : Request) (g : Server S)
      → Answered (supports resume_queue v) g (handle_resume_queue st v r g)
  unfolding handle_resume_queue
  handle_resume_queue-Answered post r g =
      with_name-Answered true _ (wake st) g (between_ok "/api/v1/queues/" "/resume" r.path)
        (λ name. wake-Answered st name g)
  handle_resume_queue-Answered get r g = (refl, refl)
  handle_resume_queue-Answered put r g = (refl, refl)
  handle_resume_queue-Answered delete r g = (refl, refl)
  handle_resume_queue-Answered other r g = (refl, refl)

  handle_queue_stats-Answered :
      (v : Verb) (r : Request) (g : Server S)
      → Answered (supports queue_stats v) g (handle_queue_stats st v r g)
  unfolding handle_queue_stats
  handle_queue_stats-Answered get r g =
      with_name-Answered true _ (stats_of st) g (between_ok "/api/v1/queues/" "/stats" r.path)
        (λ name. stats_of-Answered st name g)
  handle_queue_stats-Answered post r g = (refl, refl)
  handle_queue_stats-Answered put r g = (refl, refl)
  handle_queue_stats-Answered delete r g = (refl, refl)
  handle_queue_stats-Answered other r g = (refl, refl)

  handle_schedules-Answered :
      (a : Ambient) (v : Verb) (r : Request) (g : Server S)
      → Answered (supports schedules v) g (handle_schedules a v r g)
  unfolding handle_schedules
  handle_schedules-Answered a get r g = list_of_schedules-Answered g
  handle_schedules-Answered a post r g = create_schedule-Answered a r.as_schedule g
  handle_schedules-Answered a put r g = (refl, refl)
  handle_schedules-Answered a delete r g = (refl, refl)
  handle_schedules-Answered a other r g = (refl, refl)

  handle_schedule-Answered :
      (v : Verb) (r : Request) (g : Server S)
      → Answered (supports schedule v) g (handle_schedule v r g)
  unfolding handle_schedule
  handle_schedule-Answered get r g =
      with_name-Answered true _ schedule_of g (after_prefix_ok "/api/v1/schedules/" r.path)
        (λ id. schedule_of-Answered id g)
  handle_schedule-Answered delete r g =
      with_name-Answered true _ drop_schedule g (after_prefix_ok "/api/v1/schedules/" r.path)
        (λ id. drop_schedule-Answered id g)
  handle_schedule-Answered post r g = refused _ g (after_prefix_ok "/api/v1/schedules/" r.path)
  handle_schedule-Answered put r g = refused _ g (after_prefix_ok "/api/v1/schedules/" r.path)
  handle_schedule-Answered other r g = refused _ g (after_prefix_ok "/api/v1/schedules/" r.path)

  handle_metrics-Answered :
      (a : Ambient) (v : Verb) (g : Server S)
      → Answered (supports metrics v) g (handle_metrics st a v g)
  unfolding handle_metrics
  handle_metrics-Answered a get g = metrics-Answered st a g
  handle_metrics-Answered a post g = (refl, refl)
  handle_metrics-Answered a put g = (refl, refl)
  handle_metrics-Answered a delete g = (refl, refl)
  handle_metrics-Answered a other g = (refl, refl)

  -- Every request on every route of the API is answered, unless its handler panics. A method that the
  -- route is not for gives 405, and nothing changes; any other gives 200, 201, 404 or 500, or 400 and
  -- nothing changes.
  pub handle_route-Answered :
      (route : Route) (a : Ambient) (v : Verb) (r : Request) (g : Server S)
      → Answered (supports route v) g (handle_route st route a v r g)
  unfolding handle_route handle_health handle_ready
  handle_route-Answered health a v r g = inl refl
  handle_route-Answered ready a v r g = inl refl
  handle_route-Answered jobs a v r g = handle_jobs-Answered a v r g
  handle_route-Answered job a v r g = handle_job-Answered v r g
  handle_route-Answered cancel_job a v r g = handle_cancel_job-Answered a v r g
  handle_route-Answered queues a v r g = handle_queues-Answered v r g
  handle_route-Answered queue a v r g = handle_queue-Answered v r g
  handle_route-Answered pause_queue a v r g = handle_pause_queue-Answered v r g
  handle_route-Answered resume_queue a v r g = handle_resume_queue-Answered v r g
  handle_route-Answered queue_stats a v r g = handle_queue_stats-Answered v r g
  handle_route-Answered schedules a v r g = handle_schedules-Answered a v r g
  handle_route-Answered schedule a v r g = handle_schedule-Answered v r g
  handle_route-Answered metrics a v r g = handle_metrics-Answered a v g
