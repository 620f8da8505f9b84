-- ===== src/Batching/Batches.antt =====
-- The methods of BatchProcessor in internal/features/batching.go. A batch's mutex makes each of its
-- critical sections one step.
use distributed_task_queue_s.Base.{
  ℕ, suc, ℤ, pos, ltb_ℤ, nat_eq, String, ◌==◌, not, ◌&&◌, if◌then◌else◌, Option, none, some, List,
  [], ◌∷◌, ◌++◌, length, select, lookup, insert, map, Outcome, ok, panic, Error, error_text, Method,
  or_log, give, ◌>>◌,
}
use distributed_task_queue_s.Job.{Job, Duration, success, failed}
use distributed_task_queue_s.Manager.{Manager}
use distributed_task_queue_s.Manager.Storage.{Storage}
use distributed_task_queue_s.Manager.Queues.{default_to}
use distributed_task_queue_s.Manager.Jobs.{update_job}
use distributed_task_queue_s.Batching.{BatchHandler, Batch, BatchProcessor, Flight, World}

unfoldable pub new_batch_processor : {S : Type 0} → Manager S → ℤ → Duration → BatchProcessor S
new_batch_processor m size timeout = record {
  queue_manager = m;
  batch_size = default_to (pos 10) size;
  batch_timeout = default_to (pos 5000000000) timeout;
  batches = [];
}

-- `b.timer.Stop()`, which does nothing to a timer that has fired.
abbrev pub stopped : String → Option ℕ → List (String × ℕ) → List (String × ℕ)
stopped type none ts = ts
stopped type (some n) ts = select (λ t. not (t.0 == type && nat_eq t.1 n)) ts

abbrev pub timer_of : Option Batch → Option ℕ
timer_of none = none
timer_of (some b) = b.timer

abbrev pub with_job : Job → Batch → Batch
with_job j b = record b { jobs = b.jobs ++ j ∷ [] }

module _ {S : Type 0} where
  abbrev pub put_batch : String → Batch → BatchProcessor S → BatchProcessor S
  put_batch type b p = record p { batches = insert type b p.batches }

  -- A handler that is there already is replaced, and the jobs that wait in its batch with it. No slice
  -- can be made for a negative size.
  unfoldable pub register_batch_handler : String → BatchHandler → Method (World S) (Unit {0})
  register_batch_handler type h w = if ltb_ℤ w.bp.batch_size (pos 0) then (panic, w) else (
    ok tt,
    record w { bp = put_batch type (record { jobs = []; timer = none; processor = h }) w.bp },
  )

  abbrev pub arm : String → Batch → World S → World S
  arm type b w = record w {
    bp = put_batch type (record b { timer = some w.next_timer }) w.bp;
    timers = w.timers ++ (type, w.next_timer) ∷ [];
    next_timer = suc w.next_timer;
  }

  -- The first job of a batch starts its timer.
  unfoldable pub start_timer : String → Batch → World S → World S
  start_timer type b w =
      if nat_eq (length b.jobs) 1 then arm type b w else record w { bp = put_batch type b w.bp }

  abbrev pub hand_over : String → World S → World S
  hand_over type w = record w {
    timers = stopped type (timer_of (lookup type w.bp.batches)) w.timers;
    starting = w.starting ++ type ∷ [];
  }

  -- A full batch is processed by a new goroutine.
  unfoldable pub hand_over_if_full : String → ℕ → World S → World S
  hand_over_if_full type count w = if ltb_ℤ (pos count) w.bp.batch_size then w else hand_over type w

  unfoldable pub accept : Job → Batch → World S → World S
  accept j b w =
      hand_over_if_full j.type (length (with_job j b).jobs)
        (start_timer j.type (with_job j b) (record w { accepted = w.accepted ++ j ∷ [] }))

  -- A job of a type without a handler is dropped.
  unfoldable pub add_job : Job → World S → World S
  add_job j w = elim (lookup j.type w.bp.batches) [ none ↦ w | some b ↦ accept j b w ]

  abbrev pub taken : String → Batch → World S → World S
  taken type b w = record w {
    bp = put_batch type (record b { jobs = [] }) w.bp;
    flying = w.flying ++ record { jobs = b.jobs; processor = b.processor } ∷ [];
    handed = w.handed ++ (type, b.jobs) ∷ [];
  }

  abbrev pub take_jobs : String → Batch → List Job → World S → World S
  take_jobs type b [] w = w
  take_jobs type b (j ∷ js) w = taken type b w

  -- The locked part of processBatch: an empty batch is left.
  unfoldable pub take_batch : String → World S → World S
  take_batch type w = elim (lookup type w.bp.batches) [
    | none ↦ w
    | some b ↦ take_jobs type b b.jobs w
  ]

abbrev pub with_outcome : Option Error → Job → Job
with_outcome none j = record j { status = success }
with_outcome (some e) j = record j { status = failed; error = error_text e }

module _ {S : Type 0} (st : Storage S) where
  unfoldable pub update_jobs : List Job → Method (Manager S) (Unit {0})
  update_jobs [] = give tt
  update_jobs (j ∷ js) = or_log (update_job st j) >> update_jobs js

  abbrev pub keep_manager : World S → Outcome (Unit {0}) × Manager S → World S
  keep_manager w (o, m) = record w { bp = record w.bp { queue_manager = m } }

  -- The rest of processBatch: the processor runs, and its outcome is written to every job.
  unfoldable pub finish_batch : Flight → World S → World S
  finish_batch f w =
      let (o, jobs) = f.processor f.jobs in
      keep_manager w (update_jobs (map (with_outcome o) jobs) w.bp.queue_manager)
