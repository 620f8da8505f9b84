-- ===== src/Batching/Schedule.antt =====
-- The events that move internal/features/batching.go, in any order.
use distributed_task_queue_s.Base.{
  ℕ, zero, suc, String, Option, none, some, List, [], ◌∷◌, ◌++◌, get_elem?, Dict,
}
use distributed_task_queue_s.Job.{Job}
use distributed_task_queue_s.Manager.Storage.{Storage}
use distributed_task_queue_s.Batching.{Flight, World}
use distributed_task_queue_s.Batching.Batches.{add_job, take_batch, finish_batch}

-- AddJob is called; a timer fires; a waiting call of processBatch takes its batch; a batch that has
-- been taken is processed; Stop is called. A number picks one of those that can move.
pub data Event : Type 0 where
  add : Job → Event
  fire take finish : ℕ → Event
  stop : Event

abbrev pub remove_at {ℓ} : {A : Type ℓ} → ℕ → List A → List A
remove_at k [] = []
remove_at zero (x ∷ xs) = xs
remove_at (suc k) (x ∷ xs) = x ∷ remove_at k xs

abbrev pub keys {ℓ} : {V : Type ℓ} → Dict V → List String
keys [] = []
keys ((k, v) ∷ rest) = k ∷ keys rest

module _ {S : Type 0} (st : Storage S) where
  abbrev pub fired : ℕ → World S → Option (String × ℕ) → World S
  fired k w none = w
  fired k w (some (type, n)) = record w {
    timers = remove_at k w.timers;
    starting = w.starting ++ type ∷ [];
  }

  abbrev pub took : ℕ → World S → Option String → World S
  took k w none = w
  took k w (some type) = take_batch type (record w { starting = remove_at k w.starting })

  abbrev pub finished : ℕ → World S → Option Flight → World S
  finished k w none = w
  finished k w (some f) = finish_batch st f (record w { flying = remove_at k w.flying })

  -- Stop calls processBatch for every type, one after the other in an order that Go leaves open; here
  -- they may also overlap.
  unfoldable pub happen : Event → World S → World S
  happen (add j) w = add_job j w
  happen (fire k) w = fired k w (get_elem? w.timers k)
  happen (take k) w = took k w (get_elem? w.starting k)
  happen (finish k) w = finished k w (get_elem? w.flying k)
  happen stop w = record w { starting = w.starting ++ keys w.bp.batches }

  unfoldable pub happen_all : List Event → World S → World S
  happen_all [] w = w
  happen_all (e ∷ es) w = happen_all es (happen e w)
