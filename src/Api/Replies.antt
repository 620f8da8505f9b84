-- ===== src/Api/Replies.antt =====
-- How the bodies of the handlers of internal/api/http/server.go answer.
use distributed_task_queue_s.Base.{
  ℕ, pos, nat_eq, String, Bool, true, false, ◌||◌, ◌≡◌, refl, ◌⊎◌, inl, inr, Option, none, some,
  length, Method, Outcome, ok, err, panic, Error, error_text, handle, resume, fail, Dict,
}
use distributed_task_queue_s.Job.{Job}
use distributed_task_queue_s.Job.Queue.{QueueConfig, QueueStats}
use distributed_task_queue_s.Manager.Storage.{Storage}
use distributed_task_queue_s.Manager.Jobs.{enqueue, get_job, delete_job, list_jobs, cancel_job}
use distributed_task_queue_s.Manager.Queues.{
  default_to, list_queues, register_queue, get_queue_config, update_queue_config, delete_queue,
  get_queue_stats, get_all_queue_stats, pause_queue, resume_queue,
}
use distributed_task_queue_s.Pool.Running.{later}
use distributed_task_queue_s.Recurring.{Schedule}
use distributed_task_queue_s.Recurring.Schedules.{
  list_schedules, add_schedule, get_schedule, remove_schedule, get_schedule_stats,
}
use distributed_task_queue_s.Api.{
  Request, Ambient, Server, Response, Body, error_body, message_body, job_body, jobs_body,
  config_body, configs_body, stats_body, schedule_body, metrics_body,
}
use distributed_task_queue_s.Api.Paths.{write_json, write_error, managed, scheduled}
use distributed_task_queue_s.Api.Jobs.{as_new, list_of_jobs, create_job, job_of, drop_job, cancel}
use distributed_task_queue_s.Api.Queues.{
  list_of_queues, create_queue, queue_of, update_queue, drop_queue, pause, wake, stats_of,
}
use distributed_task_queue_s.Api.Schedules.{
  id_or, list_of_schedules, created, create_schedule, schedule_of, drop_schedule, metrics,
}

-- Statuses of a request that the manager or the scheduler has seen.
abbrev pub is_result : ℕ → Bool
is_result n = nat_eq n 200 || (nat_eq n 201 || (nat_eq n 404 || nat_eq n 500))

-- A method that the route is not for gives 405 and changes nothing. Otherwise the answer is a result,
-- or 400 with nothing changed. Every request is answered, unless the handler panics.
abbrev pub Answered : {S : Type 0} → Bool → Server S → Outcome Response × Server S → Type 0
Answered true g (ok r, h) = (is_result r.status ≡ true) ⊎ ((r.status ≡ 400) × (h ≡ g))
Answered false g (ok r, h) = (r.status ≡ 405) × (h ≡ g)
Answered b g (err e, h) = ⊥
Answered b g (panic, h) = Unit

module _ {S : Type 0} where
  -- A call whose value and whose error are both answered.
  served :
      {A : Type 0} (m : Method (Server S) A) (n : ℕ) (f : A → Body) (l : ℕ) (k : Error → Body)
      (g : Server S)
      → is_result n ≡ true
      → is_result l ≡ true
      → Answered true g (handle m (λ a. write_json n (f a)) (λ e. write_json l (k e)) g)
  served m n f l k g en el = by_outcome (m g).0 (m g).1
    where
      by_outcome :
          (o : Outcome _) (h : Server S)
          → Answered true g (resume (λ a. write_json n (f a)) (λ e. write_json l (k e)) o h)
      by_outcome (ok a) h = inl en
      by_outcome (err e) h = inl el
      by_outcome panic h = tt

  pub list_of_schedules-Answered : (g : Server S) → Answered true g (list_of_schedules g)
  unfolding list_of_schedules list_schedules
  list_of_schedules-Answered g = inl refl

  pub create_schedule-Answered :
      (a : Ambient) (o : Option Schedule) (g : Server S) → Answered true g (create_schedule a o g)
  unfolding create_schedule created
  create_schedule-Answered a none g = inr (refl, refl)
  create_schedule-Answered a (some s) g =
      by_outcome (scheduled (add_schedule a.calendar a.uuid (a.now 0) s) g).0
        (scheduled (add_schedule a.calendar a.uuid (a.now 0) s) g).1
    where
      by_outcome :
          (o : Outcome (Unit {0})) (h : Server S)
          → Answered true g
              (resume (λ _. created (id_or a.uuid s) s) (λ e. write_error 500 (error_text e)) o h)
      by_outcome (ok u) h = inl refl
      by_outcome (err e) h = inl refl
      by_outcome panic h = tt

  pub schedule_of-Answered : (id : String) (g : Server S) → Answered true g (schedule_of id g)
  unfolding schedule_of
  schedule_of-Answered id g =
      served (scheduled (get_schedule id)) 200 schedule_body 404
        (λ _. error_body "schedule not found") g refl refl

  pub drop_schedule-Answered : (id : String) (g : Server S) → Answered true g (drop_schedule id g)
  unfolding drop_schedule
  drop_schedule-Answered id g =
      served (scheduled (remove_schedule id)) 200 (λ _. message_body "schedule deleted") 500
        (λ e. error_body (error_text e)) g refl refl

module _ {S : Type 0} (st : Storage S) where
  pub list_of_jobs-Answered : (r : Request) (g : Server S) → Answered true g (list_of_jobs st r g)
  unfolding list_of_jobs
  list_of_jobs-Answered r g =
      served (managed (list_jobs st r.queue r.status (default_to (pos 50) r.limit) r.offset)) 200
        (λ js. jobs_body js (length js) (default_to (pos 50) r.limit) r.offset) 500
        (λ e. error_body (error_text e)) g refl refl

  pub create_job-Answered :
      (a : Ambient) (o : Option Job) (g : Server S) → Answered true g (create_job st a o g)
  unfolding create_job
  create_job-Answered a none g = inr (refl, refl)
  create_job-Answered a (some j) g =
      served (managed (enqueue st (as_new a j) (later 4 a.now))) 201 job_body 500
        (λ e. error_body (error_text e)) g refl refl

  pub job_of-Answered : (id : String) (g : Server S) → Answered true g (job_of st id g)
  unfolding job_of
  job_of-Answered id g =
      served (managed (get_job st id)) 200 job_body 404 (λ _. error_body "job not found") g refl
        refl

  pub drop_job-Answered : (id : String) (g : Server S) → Answered true g (drop_job st id g)
  unfolding drop_job
  drop_job-Answered id g =
      served (managed (delete_job st id)) 200 (λ _. message_body "job deleted") 500
        (λ e. error_body (error_text e)) g refl refl

  pub cancel-Answered :
      (a : Ambient) (id : String) (g : Server S) → Answered true g (cancel st a id g)
  unfolding cancel
  cancel-Answered a id g =
      served (managed (cancel_job st id a.now)) 200 (λ _. message_body "job cancelled") 500
        (λ e. error_body (error_text e)) g refl refl

  pub list_of_queues-Answered : (g : Server S) → Answered true g (list_of_queues st g)
  unfolding list_of_queues
  list_of_queues-Answered g =
      served (managed (list_queues st)) 200 (λ cs. configs_body cs (length cs)) 500
        (λ e. error_body (error_text e)) g refl refl

  pub create_queue-Answered :
      (o : Option QueueConfig) (g : Server S) → Answered true g (create_queue st o g)
  unfolding create_queue
  create_queue-Answered none g = inr (refl, refl)
  create_queue-Answered (some c) g =
      served (managed (register_queue st c)) 201 config_body 500 (λ e. error_body (error_text e)) g
        refl refl

  pub queue_of-Answered : (name : String) (g : Server S) → Answered true g (queue_of st name g)
  unfolding queue_of
  queue_of-Answered name g =
      served (managed (get_queue_config st name)) 200 config_body 404
        (λ _. error_body "queue not found") g refl refl

  pub update_queue-Answered :
      (o : Option QueueConfig) (name : String) (g : Server S)
      → Answered true g (update_queue st o name g)
  unfolding update_queue
  update_queue-Answered none name g = inr (refl, refl)
  update_queue-Answered (some c) name g =
      served (managed (update_queue_config st (record c { name = name }))) 200
        (λ _. config_body (record c { name = name })) 500 (λ e. error_body (error_text e)) g refl
        refl

  pub drop_queue-Answered : (name : String) (g : Server S) → Answered true g (drop_queue st name g)
  unfolding drop_queue
  drop_queue-Answered name g =
      served (managed (delete_queue st name)) 200 (λ _. message_body "queue deleted") 500
        (λ e. error_body (error_text e)) g refl refl

  pub pause-Answered : (name : String) (g : Server S) → Answered true g (pause st name g)
  unfolding pause
  pause-Answered name g =
      served (managed (pause_queue st name)) 200 (λ _. message_body "queue paused") 500
        (λ e. error_body (error_text e)) g refl refl

  pub wake-Answered : (name : String) (g : Server S) → Answered true g (wake st name g)
  unfolding wake
  wake-Answered name g =
      served (managed (resume_queue st name)) 200 (λ _. message_body "queue resumed") 500
        (λ e. error_body (error_text e)) g refl refl

  pub stats_of-Answered : (name : String) (g : Server S) → Answered true g (stats_of st name g)
  unfolding stats_of
  stats_of-Answered name g =
      served (managed (get_queue_stats st name)) 200 stats_body 500 (λ e. error_body (error_text e))
        g refl refl

  pub metrics-Answered : (a : Ambient) (g : Server S) → Answered true g (metrics st a g)
  unfolding metrics get_schedule_stats
  metrics-Answered a g =
      by_outcome (managed (get_all_queue_stats st) g).0 (managed (get_all_queue_stats st) g).1
    where
      by_outcome :
          (o : Outcome (Dict QueueStats)) (h : Server S)
          → Answered true g (
              resume
                (λ all.
                  handle
                    (scheduled get_schedule_stats)
                    (λ s. write_json 200 (metrics_body all s a.rfc3339))
                    fail)
                (λ e. write_error 500 (error_text e))
                o
                h)
      by_outcome (ok all) h = inl refl
      by_outcome (err e) h = inl refl
      by_outcome panic h = tt
