-- ===== src/Examples/Store.antt =====
-- The in-memory store of internal/storage/memory/memory.go at concrete inputs.
use distributed_task_queue_s.Base.{
  ◌⊎◌, ◌++◌, arith, inl, inr, ap, sym, pos_part, ◌∙◌, ℕ, pos, ◌+◌, ◌+ℤ◌, ◌≤ℤ◌, length, String, true,
  ◌≡◌, refl, none, List, [], ◌∷◌, All, lookup, insert, select, values, ok, err, empty_queue,
}
use mathlib.Core.List.{Perm, Memᴰ, Permᴰ}
use distributed_task_queue_s.Job.{
  any_status, of_status, Job, Time, Priority, pending, running, success, priority_low,
  priority_high,
}
use distributed_task_queue_s.Memory.{MemoryStore}
use distributed_task_queue_s.Memory.Jobs.{
  newest_first, place_newest, paginate, create_job, job_matches, list_jobs,
}
use distributed_task_queue_s.Memory.Jobs.Stamps.{
  Change, change, apply_all, or_else, first_time, start_time, end_time, apply_all-times,
}
use distributed_task_queue_s.Memory.Jobs.Listing.{IsNewestFirst, list_jobs-page, list_jobs-perm}
use distributed_task_queue_s.Memory.Jobs.Paging.{HasOwnTimes, list_jobs-append}
use distributed_task_queue_s.Memory.Queues.{enqueue, dequeue, remove, scan, consider, take_out}
use distributed_task_queue_s.Memory.Queues.Taking.{
  Dequeued, dequeue-Dequeued, Removed, remove-Removed,
}
use distributed_task_queue_s.Memory.Backing.{
  Call, creates, enqueues, IsBacked, step, run, run-IsBacked,
}

abbrev pub sample : String → Priority → Time → Job
sample id priority created = record {
  id = id;
  type = "email";
  payload = "{}";
  priority = priority;
  status = pending;
  max_retries = pos 3;
  current_retry = pos 0;
  timeout = pos 30;
  scheduled_at = none;
  created_at = created;
  started_at = none;
  completed_at = none;
  error = "";
  result = "";
  metadata = [];
  queue = "default";
  progress = pos 0;
  worker_id = "";
  updated_at = created;
}

abbrev pub tick : ℕ → Time
tick k = pos k

abbrev history : List Call
history =
    creates (sample "low" priority_low (pos 1))
    ∷ creates (sample "high" priority_high (pos 2))
    ∷ enqueues "default" "low" priority_low (pos 0) (pos 3)
    ∷ enqueues "default" "high" priority_high (pos 0) (pos 4)
    ∷ []

abbrev pub empty_store : MemoryStore
empty_store = record {
  jobs = [];
  queues = [];
  paused = [];
  workers = [];
  metrics = record {
    jobs_created = 0;
    jobs_completed = 0;
    jobs_failed = 0;
    jobs_retried = 0;
    queue_stats = [];
    job_type_stats = [];
    last_update = pos 0;
  };
  queue_configs = [];
}

abbrev pub loaded : MemoryStore
loaded = run empty_store history

-- The higher priority leaves first, though it came last.
priority_first : (dequeue "default" (pos 9) loaded).0 ≡ ok "high"
unfolding run step dequeue scan consider take_out create_job enqueue lookup insert ◌+ℤ◌
priority_first = refl

-- An entry whose time has not come stays.
not_yet : (dequeue "default" (pos 2) loaded).0 ≡ err empty_queue
unfolding run step dequeue scan consider take_out create_job enqueue lookup insert ◌+ℤ◌
not_yet = refl

dequeue-Dequeued_example : Dequeued "default" (pos 9) loaded (dequeue "default" (pos 9) loaded)
dequeue-Dequeued_example = dequeue-Dequeued "default" (pos 9) loaded

remove-Removed_example : Removed "default" "low" loaded (remove "default" "low" loaded)
remove-Removed_example = remove-Removed "default" "low" loaded

empty-IsBacked : IsBacked empty_store
unfolding lookup
empty-IsBacked queue = tt

run-IsBacked_example : IsBacked (run empty_store history)
run-IsBacked_example =
    run-IsBacked empty_store history empty-IsBacked (refl, (refl, (refl, (refl, tt))))

-- A job that succeeds and is started again keeps its first times.
abbrev restarted : List Change
restarted =
    change running tick
    ∷ change success (λ k. pos (k + 10))
    ∷ change running (λ k. pos (k + 20))
    ∷ []

apply_all-times_example :
    ((apply_all restarted (sample "low" priority_low (pos 1))).started_at
      ≡ or_else none (first_time start_time restarted))
    × ((apply_all restarted (sample "low" priority_low (pos 1))).completed_at
        ≡ or_else none (first_time end_time restarted))
apply_all-times_example = apply_all-times restarted (sample "low" priority_low (pos 1))

list_jobs-page_example :
    (js : List Job) × ((list_jobs "default" (of_status pending) (pos 1) (pos 0) loaded).0 ≡ ok js)
    × All (λ j. job_matches "default" (of_status pending) j ≡ true) js
    × IsNewestFirst js
    × (pos 1 ≤ℤ pos 1 → pos (length js) ≤ℤ pos 1)
list_jobs-page_example = list_jobs-page "default" (of_status pending) (pos 1) 0 loaded

abbrev low_job : Job
low_job = sample "low" priority_low (pos 1)

abbrev high_job : Job
high_job = sample "high" priority_high (pos 2)

-- Two stores of the same two jobs.
abbrev two_jobs : MemoryStore
two_jobs = record empty_store { jobs = ("low", low_job) ∷ ("high", high_job) ∷ [] }

abbrev other_order : MemoryStore
other_order = record empty_store { jobs = ("high", high_job) ∷ ("low", low_job) ∷ [] }

one_of_two : (j : Job) → Memᴰ j (low_job ∷ high_job ∷ []) → (j ≡ low_job) ⊎ (j ≡ high_job)
one_of_two j (Memᴰ.head e) = inl e
one_of_two j (Memᴰ.tail (Memᴰ.head e)) = inr e
one_of_two j (Memᴰ.tail (Memᴰ.tail m)) = elim m [ ]

two_jobs-HasOwnTimes : HasOwnTimes (low_job ∷ high_job ∷ [])
two_jobs-HasOwnTimes j k m n e = elim (one_of_two j m) [
  | inl a ↦ elim (one_of_two k n) [
    | inl b ↦ a ∙ sym b
    | inr b ↦ absurd (
        let t : pos 1 ≡ pos 2 = sym (ap (λ x. x.created_at) a) ∙ e ∙ ap (λ x. x.created_at) b in
        omega (arith, ap pos_part t))
  ]
  | inr a ↦ elim (one_of_two k n) [
    | inl b ↦ absurd (
        let t : pos 2 ≡ pos 1 = sym (ap (λ x. x.created_at) a) ∙ e ∙ ap (λ x. x.created_at) b in
        omega (arith, ap pos_part t))
    | inr b ↦ a ∙ sym b
  ]
]

list_jobs-append_example :
    (list_jobs "" any_status (pos (1 + 1)) (pos 0) two_jobs).0
    ≡ ok ((high_job ∷ []) ++ (low_job ∷ []))
unfolding list_jobs newest_first paginate place_newest
list_jobs-append_example =
    list_jobs-append "" any_status 1 1 0 two_jobs other_order (omega arith) (omega arith)
      two_jobs-HasOwnTimes (Permᴰ.swap refl refl) refl refl

list_jobs-perm_example :
    (js : List Job) × ((list_jobs "" any_status (pos 0) (pos 0) loaded).0 ≡ ok js)
    × Perm js (select (job_matches "" any_status) (values loaded.jobs))
list_jobs-perm_example = list_jobs-perm "" any_status loaded
