-- ===== src/Api/Creating.antt =====
-- A job that is posted to internal/api/http/server.go and fetched again, over the in-memory store.
use Prim.Native.String.{◌++◌ as append}
use distributed_task_queue_s.Base.{
  String, ◌≡◌, refl, sym, ap, subst, ◌∙◌, eq_refl, none, some, lookup, insert, lookup-insert, Dict,
  Outcome, ok, error_text,
}
use distributed_task_queue_s.Job.{Job, pending}
use distributed_task_queue_s.Memory.{MemoryStore}
use distributed_task_queue_s.Memory.Jobs
use distributed_task_queue_s.Manager.Storage.{memory_storage}
use distributed_task_queue_s.Manager.Jobs.{enqueue, get_job}
use distributed_task_queue_s.Manager.Enqueueing.{
  MemoryManager, SameWork, Enqueued, duplicate, accepted, enqueue-Enqueued,
}
use distributed_task_queue_s.Pool.Running.{later}
use distributed_task_queue_s.Api.{
  Request, Ambient, Server, Response, get, post, error_body, job_body,
}
use distributed_task_queue_s.Api.Paths.{with_name, after_prefix-append}
use distributed_task_queue_s.Api.Jobs.{as_new, create_job, job_of, handle_jobs, handle_job}

-- The outcome of posting a job: its identifier is taken, or the job is answered and can be fetched.
pub data Posted (a : Ambient) (j : Job) (g : Server MemoryStore)
    (result : Outcome Response × Server MemoryStore) : Type 0 where
  taken :
      (old : Job) (h : Server MemoryStore)
      → lookup (as_new a j).id g.scheduler.manager.storage.jobs ≡ some old
      → result ≡ (
        ok (record { status = 500; body = error_body "failed to create job: job already exists" }),
        h,
      )
      → SameWork g.scheduler.manager h.scheduler.manager
      → Posted a j g result
  made :
      (k : Job) (h : Server MemoryStore)
      → lookup (as_new a j).id g.scheduler.manager.storage.jobs ≡ none
      → result ≡ (ok (record { status = 201; body = job_body k }), h)
      → k.id ≡ (as_new a j).id
      → k.status ≡ pending
      → ((q : Request)
          → handle_job memory_storage get (record q { path = append "/api/v1/jobs/" k.id }) h
            ≡ (ok (record { status = 200; body = job_body k }), h))
      → Posted a j g result

get_stored :
    (k : Job) (id : String) (h : Server MemoryStore)
    → lookup id h.scheduler.manager.storage.jobs ≡ some k
    → job_of memory_storage id h ≡ (ok (record { status = 200; body = job_body k }), h)
unfolding job_of get_job Jobs.get_job
get_stored k id h e = rw (e, Jobs.get_job) refl

fetched :
    (k : Job) (h : Server MemoryStore) (q : Request)
    → lookup k.id h.scheduler.manager.storage.jobs ≡ some k
    → handle_job memory_storage get (record q { path = append "/api/v1/jobs/" k.id }) h
      ≡ (ok (record { status = 200; body = job_body k }), h)
unfolding handle_job
fetched k h q stored =
    ap (λ o. with_name o (job_of memory_storage) h) (after_prefix-append "/api/v1/jobs/" k.id)
    ∙ get_stored k k.id h stored

stored_under :
    (id : String) (old : Dict Job) (k : Job) (m : MemoryManager)
    → k.id ≡ id
    → m.storage.jobs ≡ insert id k old
    → lookup k.id m.storage.jobs ≡ some k
stored_under id old k m same jobs =
    ap (λ d. lookup k.id d) jobs ∙ lookup-insert id k.id k old ∙ rw same (rw (eq_refl id) refl)

-- Posting a job whose body decodes either answers 500, because the identifier is taken, with jobs and
-- queues unchanged, or answers 201 with a pending job under the given or drawn identifier; a GET
-- request for that identifier then answers 200 with the same job.
pub handle_jobs-Posted :
    (a : Ambient) (j : Job) (r : Request) (g : Server MemoryStore)
    → r.as_job ≡ some j
    → Posted a j g (handle_jobs memory_storage a post r g)
unfolding handle_jobs create_job error_text as_new
handle_jobs-Posted a j r g decoded =
    subst (λ o. Posted a j g (create_job memory_storage a o g)) (sym decoded)
      (by_outcome (enqueue-Enqueued (as_new a j) (later 4 a.now) g.scheduler.manager))
  where
    by_outcome :
        Enqueued
          (as_new a j)
          (later 4 a.now)
          g.scheduler.manager
          (enqueue memory_storage (as_new a j) (later 4 a.now) g.scheduler.manager)
        → Posted a j g (create_job memory_storage a (some j) g)
    by_outcome (duplicate old m stored e same) =
        taken old (record g { scheduler = record g.scheduler { manager = m } }) stored (rw e refl)
          same
    by_outcome (accepted c k m new e shape config jobs queues paused) =
        made k (record g { scheduler = record g.scheduler { manager = m } }) new (rw e refl)
          (ap (λ x. x.id) shape) (ap (λ x. x.status) shape)
          (λ q. fetched k _ q (stored_under _ _ k m (ap (λ x. x.id) shape) jobs))
