-- ===== src/Api/Reading.antt =====
-- GET requests to internal/api/http/server.go over the in-memory store.
use distributed_task_queue_s.Base.{
  ℕ, pos, String, ◌≡◌, refl, ap, inl, inr, Option-cases, lookup, length, Method, Outcome, ok, err,
  panic, Error, error_text, handle, resume,
}
use distributed_task_queue_s.Memory.{MemoryStore}
use distributed_task_queue_s.Memory.Jobs
use distributed_task_queue_s.Memory.Configs
use distributed_task_queue_s.Memory.Metrics
use distributed_task_queue_s.Manager.Storage.{memory_storage}
use distributed_task_queue_s.Manager.Enqueueing.{MemoryManager}
use distributed_task_queue_s.Manager.Jobs.{get_job, list_jobs}
use distributed_task_queue_s.Manager.Queues.{
  default_to, list_queues, get_queue_config, load_missing, get_queue_stats, get_all_queue_stats,
}
use distributed_task_queue_s.Recurring.{Scheduler}
use distributed_task_queue_s.Recurring.Schedules.{list_schedules, get_schedule, get_schedule_stats}
use distributed_task_queue_s.Api.{
  Request, Ambient, Server, Response, Body, get, error_body, job_body, jobs_body, config_body,
  configs_body, stats_body, schedule_body,
}
use distributed_task_queue_s.Api.Paths.{
  write_json, with_name, managed, scheduled, after_prefix, between,
}
use distributed_task_queue_s.Api.Jobs.{
  list_of_jobs, job_of, handle_jobs, handle_job, handle_cancel_job,
}
use distributed_task_queue_s.Api.Queues.{
  list_of_queues, queue_of, stats_of, handle_queues, handle_queue, handle_pause_queue,
  handle_resume_queue, handle_queue_stats,
}
use distributed_task_queue_s.Api.Schedules.{
  list_of_schedules, schedule_of, metrics, handle_schedules, handle_schedule, handle_metrics,
}
use distributed_task_queue_s.Api.Routes.{
  Route, health, ready, jobs, job, cancel_job, queues, queue, pause_queue, resume_queue,
  queue_stats, schedules, schedule, handle_health, handle_ready, handle_route,
}

-- The store and the schedules are the same. The manager may have taken over a configuration.
abbrev pub SameData : Server MemoryStore → Server MemoryStore → Type 0
SameData g h =
    (h.scheduler.manager.storage ≡ g.scheduler.manager.storage)
    × (h.scheduler.schedules ≡ g.scheduler.schedules)

answered_keeps :
    {A : Type 0} (m : Method (Server MemoryStore) A) (n : ℕ) (f : A → Body) (l : ℕ)
    (k : Error → Body) (g : Server MemoryStore)
    → SameData g (m g).1
    → SameData g (handle m (λ a. write_json n (f a)) (λ e. write_json l (k e)) g).1
answered_keeps m n f l k g same = by_outcome (m g).0 (m g).1 same
  where
    by_outcome :
        (o : Outcome _) (h : Server MemoryStore)
        → SameData g h
        → SameData g (resume (λ a. write_json n (f a)) (λ e. write_json l (k e)) o h).1
    by_outcome (ok a) h s = s
    by_outcome (err e) h s = s
    by_outcome panic h s = s

named_keeps :
    (o : Outcome String) (f : String → Method (Server MemoryStore) Response)
    (g : Server MemoryStore)
    → ((s : String) → SameData g (f s g).1)
    → SameData g (with_name o f g).1
named_keeps (ok s) f g h = h s
named_keeps (err e) f g h = (refl, refl)
named_keeps panic f g h = (refl, refl)

list_of_jobs-keeps :
    (r : Request) (g : Server MemoryStore) → SameData g (list_of_jobs memory_storage r g).1
unfolding list_of_jobs list_jobs Jobs.list_jobs
list_of_jobs-keeps r g =
    answered_keeps
      (managed (list_jobs memory_storage r.queue r.status (default_to (pos 50) r.limit) r.offset))
      200 (λ js. jobs_body js (length js) (default_to (pos 50) r.limit) r.offset) 500
      (λ e. error_body (error_text e)) g (refl, refl)

get_job_same : (id : String) (m : MemoryStore) → (Jobs.get_job id m).1 ≡ m
unfolding Jobs.get_job
get_job_same id m = elim (Option-cases (lookup id m.jobs)) [
  | inl e ↦ rw (e, Jobs.get_job) refl
  | inr (j, e) ↦ rw (e, Jobs.get_job) refl
]

job_of-keeps : (id : String) (g : Server MemoryStore) → SameData g (job_of memory_storage id g).1
unfolding job_of get_job
job_of-keeps id g =
    answered_keeps (managed (get_job memory_storage id)) 200 job_body 404
      (λ _. error_body "job not found") g (get_job_same id g.scheduler.manager.storage, refl)

config_same : (name : String) (m : MemoryStore) → (Configs.get_queue_config name m).1 ≡ m
unfolding Configs.get_queue_config
config_same name m = elim (Option-cases (lookup name m.queue_configs)) [
  | inl e ↦ rw (e, Configs.get_queue_config) refl
  | inr (c, e) ↦ rw (e, Configs.get_queue_config) refl
]

load_missing_same :
    (name : String) (g : MemoryManager) → (load_missing memory_storage name g).1.storage ≡ g.storage
unfolding load_missing Configs.get_queue_config
load_missing_same name g = elim (Option-cases (lookup name g.storage.queue_configs)) [
  | inl e ↦ rw (e, Configs.get_queue_config) refl
  | inr (c, e) ↦ rw (e, Configs.get_queue_config) refl
]

manager_config_same :
    (name : String) (g : MemoryManager)
    → (get_queue_config memory_storage name g).1.storage ≡ g.storage
unfolding get_queue_config
manager_config_same name g = elim (Option-cases (lookup name g.configs)) [
  | inl e ↦ rw (e, get_queue_config) (load_missing_same name g)
  | inr (c, e) ↦ rw (e, get_queue_config) refl
]

queue_of-keeps :
    (name : String) (g : Server MemoryStore) → SameData g (queue_of memory_storage name g).1
unfolding queue_of
queue_of-keeps name g =
    answered_keeps (managed (get_queue_config memory_storage name)) 200 config_body 404
      (λ _. error_body "queue not found") g (manager_config_same name g.scheduler.manager, refl)

list_of_queues-keeps : (g : Server MemoryStore) → SameData g (list_of_queues memory_storage g).1
unfolding list_of_queues list_queues
list_of_queues-keeps g =
    answered_keeps (managed (list_queues memory_storage)) 200 (λ cs. configs_body cs (length cs))
      500 (λ e. error_body (error_text e)) g (refl, refl)

stats_of-keeps :
    (name : String) (g : Server MemoryStore) → SameData g (stats_of memory_storage name g).1
unfolding stats_of get_queue_stats Metrics.get_queue_stats
stats_of-keeps name g =
    answered_keeps (managed (get_queue_stats memory_storage name)) 200 stats_body 500
      (λ e. error_body (error_text e)) g (refl, refl)

get_schedule_same : (id : String) (g : Scheduler MemoryStore) → (get_schedule id g).1 ≡ g
unfolding get_schedule
get_schedule_same id g = elim (Option-cases (lookup id g.schedules)) [
  | inl e ↦ rw (e, get_schedule) refl
  | inr (s, e) ↦ rw (e, get_schedule) refl
]

schedule_of-keeps : (id : String) (g : Server MemoryStore) → SameData g (schedule_of id g).1
unfolding schedule_of
schedule_of-keeps id g =
    let same = get_schedule_same id g.scheduler in
    answered_keeps (scheduled (get_schedule id)) 200 schedule_body 404
      (λ _. error_body "schedule not found") g
      (ap (λ s. s.manager.storage) same, ap (λ s. s.schedules) same)

metrics-keeps : (a : Ambient) (g : Server MemoryStore) → SameData g (metrics memory_storage a g).1
unfolding metrics get_all_queue_stats Metrics.get_queue_stats_all get_schedule_stats
metrics-keeps a g = (refl, refl)

-- A GET request on any route leaves the store and the schedules as they are.
pub get-SameData :
    (route : Route) (a : Ambient) (r : Request) (g : Server MemoryStore)
    → SameData g (handle_route memory_storage route a get r g).1
unfolding handle_route handle_health handle_ready handle_jobs handle_job handle_cancel_job
    handle_queues handle_queue handle_pause_queue handle_resume_queue handle_queue_stats
    handle_schedules handle_schedule handle_metrics list_of_schedules list_schedules
get-SameData health a r g = (refl, refl)
get-SameData ready a r g = (refl, refl)
get-SameData jobs a r g = list_of_jobs-keeps r g
get-SameData job a r g =
    named_keeps (after_prefix "/api/v1/jobs/" r.path) (job_of memory_storage) g
      (λ id. job_of-keeps id g)
get-SameData cancel_job a r g = (refl, refl)
get-SameData queues a r g = list_of_queues-keeps g
get-SameData queue a r g =
    named_keeps (after_prefix "/api/v1/queues/" r.path) (queue_of memory_storage) g
      (λ name. queue_of-keeps name g)
get-SameData pause_queue a r g = (refl, refl)
get-SameData resume_queue a r g = (refl, refl)
get-SameData queue_stats a r g =
    named_keeps (between "/api/v1/queues/" "/stats" r.path) (stats_of memory_storage) g
      (λ name. stats_of-keeps name g)
get-SameData schedules a r g = (refl, refl)
get-SameData schedule a r g =
    named_keeps (after_prefix "/api/v1/schedules/" r.path) schedule_of g
      (λ id. schedule_of-keeps id g)
get-SameData Route.metrics a r g = metrics-keeps a g
