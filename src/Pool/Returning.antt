-- ===== src/Pool/Returning.antt =====
-- Whether a worker of internal/worker/pool.go comes back from a job, whatever the handler does.
use distributed_task_queue_s.Base.{
  ℕ, pos, String, Bool, true, false, if◌then◌else◌, ◌==◌, ◌≡◌, refl, inl, inr, Bool-cases,
  Option-cases, Dict, lookup, Outcome, ok, err, panic, handle, give, Error, error_text,
}
use distributed_task_queue_s.Job.{
  Job, Time, Duration, running, success, failed, retrying, can_retry,
}
use distributed_task_queue_s.Job.Queue.{QueueConfig}
use distributed_task_queue_s.Manager.{Manager}
use distributed_task_queue_s.Manager.Storage.{Storage}
use distributed_task_queue_s.Manager.Queues.{
  get_queue_config, load_missing, register_queue, remember,
}
use distributed_task_queue_s.Manager.Jobs.{
  enqueue, config_for, requeue, update_job_status, update_job_progress, set_job_error,
}
use distributed_task_queue_s.Pool.Backoff.{calculate_retry_delay}
use distributed_task_queue_s.Pool.Running.{
  HandlerResult, completed, errored, panicked, JobHandler, later, retried, recovered, execute_job,
  handle_job_success, retry_job, dead_letter, fail_job, handle_job_failure, handle_result,
  process_job,
}
use distributed_task_queue_s.Pool.Panics.{
  Calm, Safe, NoPanics, resume-Calm, resume-ok, noted-ok, then-ok, seq-ok,
}

module _ {S : Type 0} (st : Storage S) (np : NoPanics st) (worker : String) where
  load_missing-Safe : (q : String) → Safe (load_missing st q)
  unfolding load_missing
  load_missing-Safe q g =
      resume-Calm _ _ _ _ (np.get_queue_config q g.storage) (λ _ _. tt) (λ _ _. tt)

  get_queue_config-Safe : (q : String) → Safe (get_queue_config st q)
  unfolding get_queue_config
  get_queue_config-Safe q g = elim (Option-cases (lookup q g.configs)) [
    | inl e ↦ rw (e, get_queue_config) (load_missing-Safe q g)
    | inr (c, e) ↦ rw (e, get_queue_config) tt
  ]

  register_queue-Safe : (c : QueueConfig) → Safe (register_queue st c)
  unfolding register_queue remember
  register_queue-Safe c g = elim (Bool-cases (c.name == "")) [
    | inl e ↦ rw (e, register_queue) tt
    | inr e ↦
        rw (e, register_queue)
          (resume-Calm _ _ _ _
            (resume-Calm _ _ _ _ (np.save_queue_config _ g.storage) (λ _ _. tt) (λ _ _. tt))
            (λ _ _. tt) (λ _ _. tt))
  ]

  enqueue-Safe : (j : Job) (now : ℕ → Time) → Safe (enqueue st j now)
  unfolding enqueue config_for
  enqueue-Safe j now g =
      resume-Calm _ _ _ _
        (resume-Calm _ _ _ _ (get_queue_config-Safe _ g) (λ _ _. tt) (λ _. register_queue-Safe _))
        (λ c g1.
          resume-Calm _ _ _ _
            (resume-Calm _ _ _ _ (np.create_job _ g1.storage) (λ _ _. tt) (λ _ _. tt))
            (λ _ g2.
              resume-Calm _ _ _ _
                (resume-Calm _ _ _ _ (np.enqueue _ _ _ _ _ g2.storage) (λ _ _. tt) (λ _ _. tt))
                (λ _ g3.
                  resume-Calm _ _ _ _
                    (resume-Calm _ _ _ _ (np.record_job_created _ _ g3.storage) (λ _ _. tt)
                      (λ _ _. tt))
                    (λ _ _. tt) (λ _ _. tt))
                (λ _ _. tt))
            (λ _ _. tt))
        (λ _ _. tt)

  pub requeue-Safe : (j : Job) (d : Duration) (now : Time) → Safe (requeue st j d now)
  unfolding requeue
  requeue-Safe j d now g =
      resume-Calm _ _ _ _ (resume-Calm _ _ _ _ (np.update_job j g.storage) (λ _ _. tt) (λ _ _. tt))
        (λ _ h. resume-Calm _ _ _ _ (np.requeue _ _ _ _ _ h.storage) (λ _ _. tt) (λ _ _. tt))
        (λ _ _. tt)

  handle_job_success-ok :
      (j : Job) (d : Duration) (now : ℕ → Time) (g : Manager S)
      → (handle_job_success st worker j d now g).0 ≡ ok tt
  unfolding handle_job_success update_job_status update_job_progress
  handle_job_success-ok j d now g =
      then-ok _ _ _ (np.update_status j.id success now g.storage) (λ g1.
        then-ok _ _ _ (np.update_progress j.id (pos 100) (now 3) g1.storage) (λ g2.
          then-ok _ _ _ (np.record_job_completed j.queue j.type d g2.storage)
            (λ g3. noted-ok _ _ (np.increment_processed worker g3.storage))))

  retry_job-ok :
      (j : Job) (c : QueueConfig) (now : ℕ → Time) (g : Manager S)
      → (retry_job st worker j c now g).0 ≡ ok tt
  unfolding retry_job update_job_status
  retry_job-ok j c now g = then-ok _ _ _ (np.update_status j.id retrying now g.storage) (λ g1.
      then-ok _ _ _ (requeue-Safe j (calculate_retry_delay j.current_retry c) (now 3) g1) (λ g2.
        then-ok _ _ _ (np.record_job_retried j.queue j.type g2.storage)
          (λ g3. noted-ok _ _ (np.increment_failed worker g3.storage))))

  dead_letter-ok :
      (j : Job) (c : QueueConfig) (now : ℕ → Time) (g : Manager S)
      → (dead_letter st worker j c now g).0 ≡ ok tt
  unfolding dead_letter
  dead_letter-ok j c now g = elim (Bool-cases (c.dead_letter_queue == "")) [
    | inl e ↦ rw (e, dead_letter) refl
    | inr e ↦ rw (e, dead_letter) (noted-ok _ _ (enqueue-Safe _ now g))
  ]

  fail_job-ok : (j : Job) (now : ℕ → Time) (g : Manager S) → (fail_job st worker j now g).0 ≡ ok tt
  unfolding fail_job update_job_status
  fail_job-ok j now g = then-ok _ _ _ (np.update_status j.id failed now g.storage) (λ g1.
      then-ok _ _ _ (np.record_job_failed j.queue j.type g1.storage) (λ g2.
        seq-ok _ _ _
          (resume-ok _ _ _ _ (get_queue_config-Safe j.queue g2)
            (λ c. dead_letter-ok j c (later 3 now)) (λ _ _. refl))
          (λ g3. noted-ok _ _ (np.increment_failed worker g3.storage))))

  handle_job_failure-ok :
      (j : Job) (e : Error) (now : ℕ → Time) (g : Manager S)
      → (handle_job_failure st worker j e now g).0 ≡ ok tt
  unfolding handle_job_failure set_job_error
  handle_job_failure-ok j e now g =
      then-ok _ _ _ (np.set_error j.id (error_text e) (now 0) g.storage)
        (λ g1. decided (can_retry j) g1)
    where
      decided :
          (b : Bool) (h : Manager S)
          → ((if b
                then handle
                    (get_queue_config st j.queue)
                    (λ c. retry_job st worker (retried j) c (later 1 now))
                    (λ _. give tt)
                else fail_job st worker j (later 1 now))
              h).0
            ≡ ok tt
      decided true h =
          resume-ok _ _ _ _ (get_queue_config-Safe j.queue h)
            (λ c. retry_job-ok (retried j) c (later 1 now)) (λ _ _. refl)
      decided false h = fail_job-ok j (later 1 now) h

  handle_result-ok :
      (r : Outcome (Unit {0}) × Job) (d : Duration) (now : ℕ → Time) (g : Manager S)
      → Calm r.0
      → (handle_result st worker r d now g).0 ≡ ok tt
  unfolding handle_result
  handle_result-ok (ok a, j) d now g c = handle_job_success-ok j d now g
  handle_result-ok (err e, j) d now g c = handle_job_failure-ok j e now g
  handle_result-ok (panic, j) d now g c = absurd c

  recovered-Calm : (r : HandlerResult × Job) → Calm (recovered r).0
  unfolding recovered
  recovered-Calm (completed, j) = tt
  recovered-Calm (errored e, j) = tt
  recovered-Calm (panicked v, j) = tt

  execute_job-Calm : (handlers : Dict JobHandler) (j : Job) → Calm (execute_job handlers j).0
  unfolding execute_job
  execute_job-Calm handlers j = elim (Option-cases (lookup j.type handlers)) [
    | inl e ↦ rw (e, execute_job) tt
    | inr (h, e) ↦ rw (e, execute_job) (recovered-Calm (h j))
  ]

  -- Over a backend whose methods do not panic, a worker always comes back from a job without an error
  -- and without a panic: whatever handlers are registered and whatever they return, an error or a
  -- panic included, and whichever calls of the backend fail.
  pub process_job-ok :
      (handlers : Dict JobHandler) (j : Job) (now : ℕ → Time) (g : Manager S)
      → (process_job st worker handlers j now g).0 ≡ ok tt
  unfolding process_job update_job_status
  process_job-ok handlers j now g =
      resume-ok _ _ _ _ (np.update_status j.id running (later 1 now) g.storage)
        (λ _ g1. then-ok _ _ _ (np.set_current_job worker j.id g1.storage) (λ g2.
          then-ok _ _ _ (np.set_current_job worker "" g2.storage) (λ g3.
            handle_result-ok (execute_job handlers j) _ (later 5 now) g3
              (execute_job-Calm handlers j))))
        (λ _ _. refl)
