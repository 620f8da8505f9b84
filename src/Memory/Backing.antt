-- ===== src/Memory/Backing.antt =====
-- Whether the jobs in the queues of internal/storage/memory/memory.go are stored. Every method that
-- changes jobs, queues or pauses is a call here; those of workers, metrics and configurations leave
-- these maps alone.
use distributed_task_queue_s.Base.{
  ℕ, ℤ, String, Bool, true, false, ◌≡◌, refl, subst, Option-cases, Bool-cases, is_some, List, [],
  ◌∷◌, ◌++◌, All, All-append, All-map, lookup, insert, lookup-insert, ◌==◌, inl, inr, arith,
}
use distributed_task_queue_s.Job.{Job, Status, Priority, Time, Duration}
use distributed_task_queue_s.Memory.{MemoryStore, QueueEntry}
use distributed_task_queue_s.Memory.Jobs.{
  create_job, update_job, delete_job, change_job, update_status, update_progress, set_result,
  set_error,
}
use distributed_task_queue_s.Memory.Queues.{
  entries, with_entries, enqueue, dequeue, requeue, remove, pause_queue, resume_queue,
}
use distributed_task_queue_s.Memory.Queues.Taking.{
  Dequeued, refused, nothing_ready, takes, dequeue-Dequeued, Removed, absent, removes,
  remove-Removed, enqueue_appends,
}

pub data Call : Type 0 where
  creates updates : Job → Call
  deletes : String → Call
  enters : String → Status → (ℕ → Time) → Call
  progresses : String → ℤ → Time → Call
  results errors : String → String → Time → Call
  enqueues requeues : String → String → Priority → Duration → Time → Call
  dequeues : String → Time → Call
  drops : String → String → Call
  pauses resumes : String → Call

-- The store after a call, whatever it returned.
unfoldable pub step : MemoryStore → Call → MemoryStore
step m (creates j) = (create_job j m).1
step m (updates j) = (update_job j m).1
step m (deletes id) = (delete_job id m).1
step m (enters id status now) = (update_status id status now m).1
step m (progresses id p now) = (update_progress id p now m).1
step m (results id r now) = (set_result id r now m).1
step m (errors id e now) = (set_error id e now m).1
step m (enqueues queue id p delay now) = (enqueue queue id p delay now m).1
step m (requeues queue id p delay now) = (requeue queue id p delay now m).1
step m (dequeues queue now) = (dequeue queue now m).1
step m (drops queue id) = (remove queue id m).1
step m (pauses queue) = (pause_queue queue m).1
step m (resumes queue) = (resume_queue queue m).1

unfoldable pub run : MemoryStore → List Call → MemoryStore
run m [] = m
run m (c ∷ cs) = run (step m c) cs

-- A job is stored for every entry of every queue.
abbrev pub HasJob : MemoryStore → QueueEntry → Type 0
HasJob m e = is_some (lookup e.job_id m.jobs) ≡ true

abbrev pub IsBacked : MemoryStore → Type 0
IsBacked m = (queue : String) → All (HasJob m) (entries m queue)

with_entries-IsBacked :
    (m : MemoryStore) (queue : String) (es : List QueueEntry)
    → IsBacked m
    → All (HasJob m) es
    → IsBacked (with_entries m queue es)
with_entries-IsBacked m queue es b h q =
    rw (lookup-insert queue q es m.queues)
      (elim (Bool-cases (queue == q)) [ inl e ↦ rw e h | inr e ↦ rw e (b q) ])

-- Storing a job under a key loses no job.
insert-IsBacked :
    (m : MemoryStore) (id : String) (j : Job)
    → IsBacked m
    → IsBacked (record m { jobs = insert id j m.jobs })
insert-IsBacked m id j b q =
    All-map _ _ (λ e h. ground (arith, lookup-insert id e.job_id j m.jobs)) (entries m q) (b q)

split_around :
    (m : MemoryStore) (before : List QueueEntry) (e : QueueEntry) (behind : List QueueEntry)
    → All (HasJob m) (before ++ e ∷ behind)
    → HasJob m e × All (HasJob m) (before ++ behind)
split_around m [] e behind h = h
split_around m (x ∷ before) e behind h =
    let (a, rest) = split_around m before e behind h.1 in (a, (h.0, rest))

create_job-IsBacked : (m : MemoryStore) (j : Job) → IsBacked m → IsBacked (create_job j m).1
unfolding create_job
create_job-IsBacked m j b = elim (Option-cases (lookup j.id m.jobs)) [
  | inl e ↦ rw (e, create_job) (insert-IsBacked m j.id j b)
  | inr (_, e) ↦ rw (e, create_job) b
]

update_job-IsBacked : (m : MemoryStore) (j : Job) → IsBacked m → IsBacked (update_job j m).1
unfolding update_job
update_job-IsBacked m j b = elim (Option-cases (lookup j.id m.jobs)) [
  | inl e ↦ rw (e, update_job) b
  | inr (_, e) ↦ rw (e, update_job) (insert-IsBacked m j.id j b)
]

change_job-IsBacked :
    (m : MemoryStore) (id : String) (f : Job → Job) → IsBacked m → IsBacked (change_job id f m).1
unfolding change_job
change_job-IsBacked m id f b = elim (Option-cases (lookup id m.jobs)) [
  | inl e ↦ rw (e, change_job) b
  | inr (j, e) ↦ rw (e, change_job) (insert-IsBacked m id (f j) b)
]

enqueue-IsBacked :
    (m : MemoryStore) (queue id : String) (p : Priority) (delay : Duration) (now : Time)
    → IsBacked m
    → IsBacked (enqueue queue id p delay now m).1
enqueue-IsBacked m queue id p delay now b = elim (enqueue_appends queue id p delay now m) [
  | inl (_, e) ↦ rw e b
  | inr (j, found, e) ↦ rw e (
      with_entries-IsBacked m queue _ b
        (All-append _ (entries m queue) (_ ∷ []) (b queue) (rw found refl, tt)))
]

dequeue-IsBacked :
    (m : MemoryStore) (queue : String) (now : Time) → IsBacked m → IsBacked (dequeue queue now m).1
dequeue-IsBacked m queue now b = read (dequeue-Dequeued queue now m)
  where
    read : Dequeued queue now m (dequeue queue now m) → IsBacked (dequeue queue now m).1
    read (refused _ e) = rw e b
    read (nothing_ready _ _ e) = rw e b
    read (takes _ before e behind s _ r) = rw r (
        with_entries-IsBacked m queue _ b
          (split_around m before e behind (subst (All (HasJob m)) s (b queue))).1)

remove-IsBacked :
    (m : MemoryStore) (queue id : String) → IsBacked m → IsBacked (remove queue id m).1
remove-IsBacked m queue id b = read (remove-Removed queue id m)
  where
    read : Removed queue id m (remove queue id m) → IsBacked (remove queue id m).1
    read (absent _ e) = rw e b
    read (removes before e behind s _ _ r) = rw r (
        with_entries-IsBacked m queue _ b
          (split_around m before e behind (subst (All (HasJob m)) s (b queue))).1)

abbrev pub is_delete : Call → Bool
is_delete (deletes id) = true
is_delete _ = false

step-IsBacked :
    (m : MemoryStore) (c : Call) → is_delete c ≡ false → IsBacked m → IsBacked (step m c)
unfolding step update_status update_progress set_result set_error pause_queue resume_queue requeue
step-IsBacked m (creates j) h b = create_job-IsBacked m j b
step-IsBacked m (updates j) h b = update_job-IsBacked m j b
step-IsBacked m (deletes id) h b = absurd (cc)
step-IsBacked m (enters id status now) h b = change_job-IsBacked m id _ b
step-IsBacked m (progresses id p now) h b = change_job-IsBacked m id _ b
step-IsBacked m (results id r now) h b = change_job-IsBacked m id _ b
step-IsBacked m (errors id e now) h b = change_job-IsBacked m id _ b
step-IsBacked m (enqueues queue id p delay now) h b = enqueue-IsBacked m queue id p delay now b
step-IsBacked m (requeues queue id p delay now) h b = enqueue-IsBacked m queue id p delay now b
step-IsBacked m (dequeues queue now) h b = dequeue-IsBacked m queue now b
step-IsBacked m (drops queue id) h b = remove-IsBacked m queue id b
step-IsBacked m (pauses queue) h b = b
step-IsBacked m (resumes queue) h b = b

-- No history of calls, other than deletions, leaves an entry whose job is not stored.
pub run-IsBacked :
    (m : MemoryStore) (cs : List Call)
    → IsBacked m
    → All (λ c. is_delete c ≡ false) cs
    → IsBacked (run m cs)
unfolding run
run-IsBacked m [] b h = b
run-IsBacked m (c ∷ cs) b h = run-IsBacked (step m c) cs (step-IsBacked m c h.0 b) h.1
