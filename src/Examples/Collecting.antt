-- ===== src/Examples/Collecting.antt =====
-- The batches of internal/features/batching.go at concrete inputs, over the in-memory store.
use distributed_task_queue_s.Base.{
  pos, ◌≡◌, refl, ◌⊎◌, Error, error_text, message, some, none, List, [], ◌∷◌, length, lookup,
  insert,
}
use distributed_task_queue_s.Job.{priority_low, success, failed}
use distributed_task_queue_s.Memory.{MemoryStore}
use distributed_task_queue_s.Manager.Storage.{memory_storage}
use distributed_task_queue_s.Batching.{World, Flight}
use distributed_task_queue_s.Batching.Batches.{
  new_batch_processor, register_batch_handler, add_job, accept, start_timer, hand_over_if_full,
  take_batch, finish_batch,
}
use distributed_task_queue_s.Batching.Schedule.{Event, add, take, happen, happen_all}
use distributed_task_queue_s.Batching.Accounting.{Accounted, happen_all-Accounted}
use distributed_task_queue_s.Batching.Draining.{Drains, happen_all-Drains}
use distributed_task_queue_s.Batching.Outcomes.{finish_batch-writes}
use distributed_task_queue_s.Examples.Store.{sample}
use distributed_task_queue_s.Examples.Queueing.{fresh}

-- Batches of two e-mails, whose processing always succeeds.
abbrev empty_world : World MemoryStore
unfolding register_batch_handler new_batch_processor
empty_world =
    (register_batch_handler "email" (λ js. (none, js))
      (record {
        bp = new_batch_processor fresh (pos 2) (pos 0);
        timers = [];
        next_timer = 0;
        starting = [];
        flying = [];
        accepted = [];
        handed = [];
      })).1

abbrev some_events : List Event
some_events =
    add (sample "a" priority_low (pos 1))
    ∷ add (sample "b" priority_low (pos 2))
    ∷ take 0
    ∷ add (sample "c" priority_low (pos 3))
    ∷ []

-- The first two jobs fill a batch, and the third one waits with a timer of its own.
three_jobs :
    (length (happen_all memory_storage some_events empty_world).flying ≡ 1)
    × ((happen_all memory_storage some_events empty_world).timers ≡ ("email", 1) ∷ [])
unfolding happen_all happen add_job accept start_timer hand_over_if_full take_batch lookup insert
    empty_world
three_jobs = (refl, refl)

happen_all-Accounted_example : Accounted "email" (happen_all memory_storage some_events empty_world)
unfolding lookup insert empty_world
happen_all-Accounted_example =
    happen_all-Accounted memory_storage "email" some_events empty_world refl

happen_all-Drains_example :
    Drains memory_storage "email" (happen_all memory_storage some_events empty_world)
unfolding lookup insert empty_world
happen_all-Drains_example =
    happen_all-Drains memory_storage "email" some_events empty_world refl refl

-- A batch of one stored job, whose processor fails.
abbrev taken_batch : Flight
taken_batch = record {
  jobs = sample "a" priority_low (pos 1) ∷ [];
  processor = λ js. (some (message "no mail"), js);
}

abbrev storing_world : World MemoryStore
unfolding empty_world register_batch_handler new_batch_processor
storing_world = record empty_world {
  bp =
      new_batch_processor
        (record fresh {
          storage = record fresh.storage { jobs = ("a", sample "a" priority_low (pos 1)) ∷ [] };
        })
        (pos 2) (pos 0);
}

finish_batch-writes_example :
    ((some (message "no mail") ≡ none)
      × (lookup "a"
            (finish_batch memory_storage taken_batch storing_world).bp.queue_manager.storage.jobs
          ≡ some (record (sample "a" priority_low (pos 1)) { status = success })))
    ⊎ ((e : Error) × (some (message "no mail") ≡ some e)
        × (lookup "a"
              (finish_batch memory_storage taken_batch storing_world).bp.queue_manager.storage.jobs
            ≡ some (record (sample "a" priority_low (pos 1)) {
              status = failed;
              error = error_text e;
            })))
unfolding storing_world new_batch_processor lookup
finish_batch-writes_example =
    finish_batch-writes taken_batch storing_world (some (message "no mail")) [] []
      (sample "a" priority_low (pos 1)) (sample "a" priority_low (pos 1)) refl refl tt
