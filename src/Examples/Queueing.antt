-- ===== src/Examples/Queueing.antt =====
-- The queue manager of internal/queue/manager.go at concrete inputs, over the in-memory store.
use mathlib.Core.List.{Memᴰ}
use distributed_task_queue_s.Base.{
  int_laws, ℕ, ℤ, pos, negsuc, ◌+ℤ◌, ◌-ℤ◌, ◌≤ℤ◌, String, true, ◌≡◌, refl, lookup, some, [], ◌∷◌,
  All, ok, panic, arith,
}
use distributed_task_queue_s.Job.{after, priority_low}
use distributed_task_queue_s.Manager.Storage.{memory_storage}
use distributed_task_queue_s.Manager.Selection.{Candidate, choose}
use distributed_task_queue_s.Manager.Choosing.{choose_best, choose_panics}
use distributed_task_queue_s.Manager.Jobs.{
  enqueue, enqueue_delay, cancel_job, dequeue, fallback_config,
}
use distributed_task_queue_s.Manager.Coherence.{
  Coherent, change_all, register, get, update, drop_queue, change_all-Coherent,
}
use distributed_task_queue_s.Manager.Dequeueing.{Handed, dequeue-Handed}
use distributed_task_queue_s.Manager.Cancelling.{Cancelled, cancel_job-Cancelled}
use distributed_task_queue_s.Manager.Enqueueing.{
  MemoryManager, Enqueued, enqueue-Enqueued, enqueue_delay_bounds,
}
use distributed_task_queue_s.Examples.Store.{sample, empty_store, tick, loaded}

abbrev pub fresh : MemoryManager
fresh = record { storage = empty_store; configs = [] }

enqueue-Enqueued_example :
    Enqueued
      (sample "a" priority_low (pos 1))
      tick
      fresh
      (enqueue memory_storage (sample "a" priority_low (pos 1)) tick fresh)
enqueue-Enqueued_example = enqueue-Enqueued (sample "a" priority_low (pos 1)) tick fresh

enqueue_delay_bounds_example :
    (pos 7 ≤ℤ tick 2 +ℤ enqueue_delay (some (pos 7)) tick)
    × (after (pos 7) (tick 0) ≡ true
        → tick 2 +ℤ enqueue_delay (some (pos 7)) tick ≡ pos 7 +ℤ (tick 2 -ℤ tick 1))
enqueue_delay_bounds_example =
    enqueue_delay_bounds (pos 7) tick (omega arith) (omega arith) (omega int_laws) (omega int_laws)

abbrev option : String → ℤ → ℤ → Candidate
option name priority weight = record {
  name = name;
  priority = priority;
  weight = weight;
  length = 1;
}

-- A random source that always answers 0.
abbrev pub zeros : ℕ → ℕ
zeros n = 0

choose_best_example :
    (d : Candidate) × Memᴰ d (option "a" (pos 5) (pos 1) ∷ option "b" (pos 5) (pos 2) ∷ [])
    × (choose zeros (option "a" (pos 5) (pos 1) ∷ option "b" (pos 5) (pos 2) ∷ []) ≡ ok d.name)
    × All
        (λ x. x.priority ≤ℤ d.priority)
        (option "a" (pos 5) (pos 1) ∷ option "b" (pos 5) (pos 2) ∷ [])
choose_best_example =
    choose_best zeros (option "a" (pos 5) (pos 1)) (option "b" (pos 5) (pos 2) ∷ []) (λ n h. h)
      (omega arith) (omega arith) (omega int_laws)

choose_panics_example : choose zeros (option "a" (negsuc 0) (pos 1) ∷ []) ≡ panic
choose_panics_example = choose_panics zeros (option "a" (negsuc 0) (pos 1)) [] (omega arith)

abbrev two_waiting : MemoryManager
two_waiting = record { storage = loaded; configs = ("default", fallback_config "default") ∷ [] }

cancel_job-Cancelled_example :
    Cancelled "high" tick two_waiting (cancel_job memory_storage "high" tick two_waiting)
cancel_job-Cancelled_example = cancel_job-Cancelled "high" tick two_waiting

dequeue-Handed_example :
    Handed
      (λ q. q ≡ "default")
      tick
      two_waiting
      (dequeue memory_storage zeros ("default" ∷ []) tick two_waiting)
dequeue-Handed_example =
    dequeue-Handed (λ q. q ≡ "default") zeros ("default" ∷ []) tick two_waiting (refl, tt)

fresh-Coherent : Coherent fresh
unfolding lookup
fresh-Coherent name c e = absurd (cc)

change_all-Coherent_example : Coherent (
    change_all
      (register (fallback_config "a")
        ∷ get "a"
        ∷ get "b"
        ∷ update (fallback_config "a")
        ∷ drop_queue "a"
        ∷ [])
      fresh)
change_all-Coherent_example =
    change_all-Coherent
      (register (fallback_config "a")
        ∷ get "a"
        ∷ get "b"
        ∷ update (fallback_config "a")
        ∷ drop_queue "a"
        ∷ [])
      fresh fresh-Coherent
