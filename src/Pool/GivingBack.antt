-- ===== src/Pool/GivingBack.antt =====
-- What fetchJobs of internal/worker/pool.go gives back over the in-memory store.
use distributed_task_queue_s.Base.{
  pos, Bool, true, false, ◌&&◌, if◌then◌else◌, ◌≡◌, refl, ap, sym, subst, ◌⊎◌, inl, inr, none, some,
  Option-cases, Bool-cases, [], ◌∷◌, ◌++◌, lookup, lookup-insert_self, insert, ok, err, Error,
  wrapped, job_not_found, ◌+ℤ◌,
}
use distributed_task_queue_s.Job.{Job, Time}
use distributed_task_queue_s.Memory.{MemoryStore}
use distributed_task_queue_s.Memory.Jobs
use distributed_task_queue_s.Memory.Queues
use distributed_task_queue_s.Memory.Queues.{entries, new_entry}
use distributed_task_queue_s.Manager.Storage.{memory_storage}
use distributed_task_queue_s.Manager.Jobs.{requeue}
use distributed_task_queue_s.Manager.Enqueueing.{MemoryManager}
use distributed_task_queue_s.Pool.Setup.{manage}
use distributed_task_queue_s.Pool.Loops.{
  Fetcher, polling, filling, sending, returned, Run, give_job_back, give_back_from,
}

abbrev pub store_of : Run MemoryStore → MemoryStore
store_of r = r.pool.queue_manager.storage

-- A store with a job written over, and an entry for it behind the others of its queue, due at once.
abbrev pub with_job_back : Job → Time → MemoryStore → MemoryStore
with_job_back j now m = record m {
  jobs = insert j.id j m.jobs;
  queues =
      insert j.queue (entries m j.queue ++ new_entry j.id j.priority (now +ℤ pos 0) ∷ []) m.queues;
}

abbrev pub is_sending : Fetcher → Bool
is_sending (sending j) = true
is_sending polling = false
is_sending filling = false
is_sending returned = false

-- A job that the store knows is put back; one that it does not know is lost, and the store is as it
-- was; and without a job to send or without Stop nothing happens.
abbrev pub HandedBack : Time → Run MemoryStore → Run MemoryStore → Type 0
HandedBack now r s =
    ((j : Job) × (old : Job) × (r.stopping ≡ true)
      × (r.fetcher ≡ sending j)
      × (lookup j.id (store_of r).jobs ≡ some old)
      × (s.returned_jobs ≡ r.returned_jobs ++ j ∷ [])
      × (s.lost_jobs ≡ r.lost_jobs)
      × (store_of s ≡ with_job_back j now (store_of r)))
    ⊎ ((j : Job) × (r.stopping ≡ true)
        × (r.fetcher ≡ sending j)
        × (lookup j.id (store_of r).jobs ≡ none)
        × (s.returned_jobs ≡ r.returned_jobs)
        × (s.lost_jobs ≡ r.lost_jobs ++ j ∷ [])
        × (store_of s ≡ store_of r))
    ⊎ (((r.stopping && is_sending r.fetcher) ≡ false) × (s ≡ r))

requeue_stored :
    (j old : Job) (now : Time) (g : MemoryManager)
    → lookup j.id g.storage.jobs ≡ some old
    → requeue memory_storage j (pos 0) now g
      ≡ (ok tt, record g { storage = with_job_back j now g.storage })
unfolding requeue Jobs.update_job Queues.requeue Queues.enqueue
requeue_stored j old now g e =
    rw (e, Jobs.update_job) (rw (lookup-insert_self j.id, Queues.enqueue) refl)

requeue_unknown :
    (j : Job) (now : Time) (g : MemoryManager)
    → lookup j.id g.storage.jobs ≡ none
    → (x : Error) × (requeue memory_storage j (pos 0) now g ≡ (err x, g))
unfolding requeue Jobs.update_job
requeue_unknown j now g e =
    (wrapped "failed to update job" job_not_found, rw (e, Jobs.update_job) refl)

idle : (b : Bool) (f : Fetcher) → is_sending f ≡ false → (b && is_sending f) ≡ false
idle true f e = e
idle false f e = refl

pub give_back-HandedBack :
    (f : Fetcher) (now : Time) (r : Run MemoryStore)
    → r.fetcher ≡ f
    → HandedBack now r (give_back_from memory_storage f now r)
give_back-HandedBack (sending j) now r e = by_stop (Bool-cases r.stopping)
  where
    g : MemoryManager
    g = r.pool.queue_manager

    outcome :
        r.stopping ≡ true
        → HandedBack now r
            (give_job_back j r (manage (requeue memory_storage j (pos 0) now) r.pool))
    outcome s = elim (Option-cases (lookup j.id g.storage.jobs)) [
      | inl a ↦
          let (x, q) = requeue_unknown j now g a in
          inr (inl (j, s, e, a, rw q refl, rw q refl, rw q refl))
      | inr (old, a) ↦
          let q = requeue_stored j old now g a in
          inl (j, old, s, e, a, rw q refl, rw q refl, rw q refl)
    ]

    by_stop :
        (r.stopping ≡ true) ⊎ (r.stopping ≡ false)
        → HandedBack now r (give_back_from memory_storage (sending j) now r)
    by_stop (inl s) =
        subst
          (λ b. HandedBack now r (
            if b
            then give_job_back j r (manage (requeue memory_storage j (pos 0) now) r.pool)
            else r))
          (sym s) (outcome s)
    by_stop (inr s) = inr (
        inr (
          ap (λ b. b && is_sending r.fetcher) s,
          ap
              (λ b.
                if b
                then give_job_back j r (manage (requeue memory_storage j (pos 0) now) r.pool)
                else r)
              s,
        ))
give_back-HandedBack polling now r e = inr (inr (idle r.stopping r.fetcher (ap is_sending e), refl))
give_back-HandedBack filling now r e = inr (inr (idle r.stopping r.fetcher (ap is_sending e), refl))
give_back-HandedBack returned now r e =
    inr (inr (idle r.stopping r.fetcher (ap is_sending e), refl))
