-- ===== src/Manager/Enqueueing.antt =====
-- Enqueue of internal/queue/manager.go over the in-memory backend.
use distributed_task_queue_s.Base.{
  pos, negsuc, ◌≤ℤ◌, saturate64_fits, ℕ, ◌+ℤ◌, ◌-ℤ◌, String, true, false, ◌==◌, ◌≡◌, refl, ap, ◌∙◌,
  ◌⊎◌, inl, inr, none, some, Option-cases, Bool-cases, [], ◌∷◌, ◌++◌, lookup, insert,
  lookup-insert_self, lookup_or, sym, int_laws, ltb_ℤ→ge, Outcome, ok, err, wrapped, queue_error,
  job_already_exists, arith,
}
use distributed_task_queue_s.Job.{Job, Time, after}
use distributed_task_queue_s.Job.Queue.{QueueConfig}
use distributed_task_queue_s.Memory.{MemoryStore}
use distributed_task_queue_s.Memory.Jobs.{create_job}
use distributed_task_queue_s.Memory.Queues.{entries, new_entry}
use distributed_task_queue_s.Memory.Queues
use distributed_task_queue_s.Memory.Configs
use distributed_task_queue_s.Memory.Metrics
use distributed_task_queue_s.Manager.{Manager}
use distributed_task_queue_s.Manager.Storage.{memory_storage}
use distributed_task_queue_s.Manager.Queues.{get_queue_config, register_queue, with_queue_defaults}
use distributed_task_queue_s.Manager.Jobs.{
  config_for, enqueue, with_queue, with_job_defaults, enqueue_delay, fallback_config,
}

abbrev pub MemoryManager : Type 0
MemoryManager = Manager MemoryStore

-- Two states with the same jobs, queues and pauses.
pub record SameWork (g h : MemoryManager) : Type 0 where
  pub jobs : h.storage.jobs ≡ g.storage.jobs
  pub queues : h.storage.queues ≡ g.storage.queues
  pub paused : h.storage.paused ≡ g.storage.paused

abbrev pub Configured : String → MemoryManager → Type 0
Configured queue g =
    (c : QueueConfig) × (h : MemoryManager) × (config_for memory_storage queue g ≡ (ok c, h))
    × (lookup queue h.configs ≡ some c)
    × SameWork g h

register_fallback :
    (queue : String) (g : MemoryManager)
    → (queue == "") ≡ false
    → (c : QueueConfig) × (h : MemoryManager) × (register_queue memory_storage
          (fallback_config queue)
          g
        ≡ (ok c, h))
      × (lookup queue h.configs ≡ some c)
      × SameWork g h
unfolding register_queue Configs.save_queue_config
register_fallback queue g e =
    let c = with_queue_defaults (fallback_config queue) in
    (
      c,
      record {
        storage = record g.storage { queue_configs = insert queue c g.storage.queue_configs };
        configs = insert queue c g.configs;
      },
      rw e,
      lookup-insert_self queue c g.configs,
      record { jobs = refl; queues = refl; paused = refl },
    )

-- The three ways in which GetQueueConfig ends.
pub get_queue_config_cached :
    (queue : String) (g : MemoryManager) {c : QueueConfig}
    → lookup queue g.configs ≡ some c
    → get_queue_config memory_storage queue g ≡ (ok c, g)
unfolding get_queue_config
get_queue_config_cached queue g e = rw (e, get_queue_config)

pub get_queue_config_stored :
    (queue : String) (g : MemoryManager) {c : QueueConfig}
    → lookup queue g.configs ≡ none
    → lookup queue g.storage.queue_configs ≡ some c
    → get_queue_config memory_storage queue g
      ≡ (ok c, record g { configs = insert queue c g.configs })
unfolding get_queue_config Configs.get_queue_config
get_queue_config_stored queue g e f = ground arith

pub get_queue_config_unknown :
    (queue : String) (g : MemoryManager)
    → lookup queue g.configs ≡ none
    → lookup queue g.storage.queue_configs ≡ none
    → get_queue_config memory_storage queue g
      ≡ (err (queue_error "queue config not found: " queue), g)
unfolding get_queue_config Configs.get_queue_config
get_queue_config_unknown queue g e f = ground arith

-- A named queue has a configuration whenever a job is enqueued, and looking it up moves no job.
pub config_for_lem :
    (queue : String) (g : MemoryManager) → (queue == "") ≡ false → Configured queue g
unfolding config_for
config_for_lem queue g e = elim (Option-cases (lookup queue g.configs)) [
  | inr (c, found) ↦ (c, g, rw (get_queue_config_cached queue g found), found, same)
  | inl missing ↦ elim (Option-cases (lookup queue g.storage.queue_configs)) [
    | inr (c, stored) ↦ (
      c,
      record g { configs = insert queue c g.configs },
      rw (get_queue_config_stored queue g missing stored),
      lookup-insert_self queue c g.configs,
      record { jobs = refl; queues = refl; paused = refl },
    )
    | inl unknown ↦
        rw (get_queue_config_unknown queue g missing unknown) (register_fallback queue g e)
  ]
]
  where
    same : SameWork g g
    same = record { jobs = refl; queues = refl; paused = refl }

-- How a call of Enqueue ends: the job is stored already, or it is stored with its defaults filled in
-- and put behind the others of its queue.
pub data Enqueued (job : Job) (now : ℕ → Time) (g : MemoryManager) (r : Outcome Job × MemoryManager)
    : Type 0 where
  duplicate :
      (old : Job) (h : MemoryManager)
      → lookup job.id g.storage.jobs ≡ some old
      → r ≡ (err (wrapped "failed to create job" job_already_exists), h)
      → SameWork g h
      → Enqueued job now g r
  accepted :
      (c : QueueConfig) (j : Job) (h : MemoryManager)
      → lookup job.id g.storage.jobs ≡ none
      → r ≡ (ok j, h)
      → j ≡ with_job_defaults c (with_queue job)
      → lookup j.queue h.configs ≡ some c
      → h.storage.jobs ≡ insert job.id j g.storage.jobs
      → h.storage.queues
        ≡ insert j.queue
            (entries g.storage j.queue
              ++ new_entry job.id job.priority (now 2 +ℤ enqueue_delay job.scheduled_at now) ∷ [])
            g.storage.queues
      → h.storage.paused ≡ g.storage.paused
      → Enqueued job now g r

with_queue-named : (job : Job) → ((with_queue job).queue == "") ≡ false
with_queue-named job = elim (Bool-cases (job.queue == "")) [ inl e ↦ rw e | inr e ↦ rw (e, e) ]

-- The state after a job is stored, queued and counted.
stored_and_queued : Job → (ℕ → Time) → MemoryManager → MemoryManager
stored_and_queued j now g = record g {
  storage =
      (Metrics.record_job_created j.queue j.type (record g.storage {
        jobs = insert j.id j g.storage.jobs;
        queues =
            insert j.queue
              (entries g.storage j.queue
                ++ new_entry j.id j.priority (now 2 +ℤ enqueue_delay j.scheduled_at now) ∷ [])
              g.storage.queues;
      })).1;
}

enqueue_duplicate :
    (job : Job) (now : ℕ → Time) (g h : MemoryManager) (c : QueueConfig) (old : Job)
    → config_for memory_storage (with_queue job).queue g ≡ (ok c, h)
    → lookup job.id h.storage.jobs ≡ some old
    → enqueue memory_storage job now g
      ≡ (err (wrapped "failed to create job" job_already_exists), h)
unfolding enqueue create_job
enqueue_duplicate job now g h c old e f = rw e (rw (f, create_job))

enqueue_accepted :
    (job : Job) (now : ℕ → Time) (g h : MemoryManager) (c : QueueConfig)
    → config_for memory_storage (with_queue job).queue g ≡ (ok c, h)
    → lookup job.id h.storage.jobs ≡ none
    → let j = with_job_defaults c (with_queue job) in
      enqueue memory_storage job now g ≡ (ok j, stored_and_queued j now h)
unfolding enqueue create_job stored_and_queued Queues.enqueue Metrics.record_job_created
enqueue_accepted job now g h c e f =
    rw e (rw (f, create_job) (rw (lookup-insert_self job.id, Queues.enqueue)))

-- Enqueue either reports that the job is stored already, with jobs, queues and pauses unchanged, or
-- stores the job under its identifier with the defaults of its queue and puts one entry behind the
-- others of that queue. No other outcome is possible.
pub enqueue-Enqueued :
    (job : Job) (now : ℕ → Time) (g : MemoryManager)
    → Enqueued job now g (enqueue memory_storage job now g)
unfolding stored_and_queued Metrics.record_job_created
enqueue-Enqueued job now g = finish (config_for_lem (with_queue job).queue g (with_queue-named job))
  where
    settled :
        (c : QueueConfig) (h : MemoryManager)
        → config_for memory_storage (with_queue job).queue g ≡ (ok c, h)
        → lookup (with_queue job).queue h.configs ≡ some c
        → SameWork g h
        → (lookup job.id h.storage.jobs ≡ none)
          ⊎ ((old : Job) × (lookup job.id h.storage.jobs ≡ some old))
        → Enqueued job now g (enqueue memory_storage job now g)
    settled c h e found same (inr (old, stored)) =
        duplicate old h (ap (lookup job.id) (sym same.jobs) ∙ stored)
          (enqueue_duplicate job now g h c old e stored) same
    settled c h e found same (inl new) =
        accepted c (with_job_defaults c (with_queue job))
          (stored_and_queued (with_job_defaults c (with_queue job)) now h)
          (ap (lookup job.id) (sym same.jobs) ∙ new) (enqueue_accepted job now g h c e new) refl
          found (ap (insert job.id (with_job_defaults c (with_queue job))) same.jobs)
          (ap
            (λ qs.
              insert (with_queue job).queue
                (lookup_or [] (with_queue job).queue qs
                  ++ new_entry job.id job.priority (now 2 +ℤ enqueue_delay job.scheduled_at now)
                    ∷ [])
                qs)
            same.queues)
          same.paused

    finish :
        Configured (with_queue job).queue g → Enqueued job now g (enqueue memory_storage job now g)
    finish (c, h, e, found, same) =
        settled c h e found same (Option-cases (lookup job.id h.storage.jobs))

-- On a clock that does not go back, for a scheduled time that lies no further from the second reading
-- of the clock than an int64 of nanoseconds reaches: an entry is never due before the job's scheduled
-- time, and later than it only by the time that passes between the two last readings of the clock, if
-- the job was scheduled for the future.
pub enqueue_delay_bounds :
    (at : Time) (now : ℕ → Time)
    → now 0 ≤ℤ now 1
    → now 1 ≤ℤ now 2
    → at -ℤ now 1 ≤ℤ pos 9223372036854775807
    → negsuc 9223372036854775807 ≤ℤ at -ℤ now 1
    → (at ≤ℤ now 2 +ℤ enqueue_delay (some at) now)
      × (after at (now 0) ≡ true → now 2 +ℤ enqueue_delay (some at) now ≡ at +ℤ (now 2 -ℤ now 1))
unfolding enqueue_delay
enqueue_delay_bounds at now h k top low = elim (Bool-cases (after at (now 0))) [
  | inl e ↦ rw (e, saturate64_fits (at -ℤ now 1) top low) (omega (int_laws), λ _. omega (int_laws))
  | inr e ↦ rw e (let z = ltb_ℤ→ge (now 0) at e in omega int_laws, λ a. cc)
]
