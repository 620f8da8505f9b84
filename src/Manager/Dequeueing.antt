-- ===== src/Manager/Dequeueing.antt =====
-- Dequeue of internal/queue/manager.go over the in-memory backend.
use distributed_task_queue_s.Base.{
  ℕ, suc, String, false, ◌==◌, ◌≡◌, refl, sym, ap, ◌∙◌, ◌⊎◌, inl, inr, none, some, Option-cases,
  Bool-cases, List, [], ◌∷◌, ◌++◌, All, lookup, lookup_or, Outcome, ok, err, panic, Error,
  empty_queue, queue_paused, queue_error, wrapped, job_not_found, annotate, handle, give, fail,
  resume,
}
use distributed_task_queue_s.Job.{Job, Time}
use distributed_task_queue_s.Memory.{QueueEntry}
use distributed_task_queue_s.Memory.Jobs.{get_job}
use distributed_task_queue_s.Memory.Queues.{entries, with_entries}
use distributed_task_queue_s.Memory.Queues
use distributed_task_queue_s.Memory.Queues.Choice.{IsChoice}
use distributed_task_queue_s.Memory.Queues.Taking.{refused, nothing_ready, takes, dequeue-Dequeued}
use distributed_task_queue_s.Manager.{call}
use distributed_task_queue_s.Manager.Storage.{memory_storage}
use distributed_task_queue_s.Manager.Jobs.{try_others, after_failure, dequeue_from, dequeue}
use distributed_task_queue_s.Manager.Enqueueing.{MemoryManager}
use distributed_task_queue_s.Manager.Asking.{Names, select_queue_lem}

-- An entry `e` leaves the queue `q`, which is not paused: the best of those that are due at `now`.
pub record Leaves (P : String → Type 0) (now : Time) (g h : MemoryManager) (id : String)
    : Type 0 where
  pub q : String
  pub before : List QueueEntry
  pub e : QueueEntry
  pub behind : List QueueEntry
  pub requested : P q
  pub running : lookup_or false q g.storage.paused ≡ false
  pub placed : entries g.storage q ≡ before ++ e ∷ behind
  pub best : IsChoice now before e behind
  pub named : e.job_id ≡ id
  pub after : h ≡ record g { storage = with_entries g.storage q (before ++ behind) }

-- How the search for an entry ends.
data Fetched (P : String → Type 0) (now : ℕ → Time) (g : MemoryManager)
    (r : Outcome String × MemoryManager) : Type 0 where
  failed : (e : Error) → r ≡ (err e, g) → Fetched P now g r
  fetched :
      (k : ℕ) (id : String) (h : MemoryManager)
      → Leaves P (now k) g h id
      → r ≡ (ok id, h)
      → Fetched P now g r

module _ (P : String → Type 0) (now : ℕ → Time) (g : MemoryManager) where
  took :
      (k : ℕ) (q : String) (before : List QueueEntry) (e : QueueEntry) (behind : List QueueEntry)
      → P q
      → lookup_or false q g.storage.paused ≡ false
      → entries g.storage q ≡ before ++ e ∷ behind
      → IsChoice (now k) before e behind
      → Fetched P now g
          (ok e.job_id, record g { storage = with_entries g.storage q (before ++ behind) })
  took k q before e behind p live s best =
      fetched k e.job_id _
        (record {
          q = q;
          before = before;
          e = e;
          behind = behind;
          requested = p;
          running = live;
          placed = s;
          best = best;
          named = refl;
          after = refl;
        })
        refl

  try_others-Fetched :
      (selected : String) (qs : List String) (e : Error) (k : ℕ)
      → All P qs
      → Fetched P now g (try_others memory_storage selected qs e k now g)
  unfolding try_others
  try_others-Fetched selected [] e k h = failed e refl
  try_others-Fetched selected (q ∷ qs) e k (p, h) = elim (Bool-cases (q == selected)) [
    | inl same ↦ rw same (try_others-Fetched selected qs e k h)
    | inr ne ↦ rw ne (elim (dequeue-Dequeued q (now k) g.storage) [
      | refused _ r ↦ rw r (try_others-Fetched selected qs queue_paused (suc k) h)
      | nothing_ready _ _ r ↦ rw r (try_others-Fetched selected qs empty_queue (suc k) h)
      | takes live before x behind s best r ↦ rw r (took k q before x behind p live s best)
    ])
  ]

  fetch-Fetched :
      (selected : String) (qs : List String)
      → P selected
      → All P qs
      → Fetched P now g (
          handle
            (call (Queues.dequeue selected (now 0)))
            give
            (after_failure memory_storage selected qs now)
            g)
  unfolding after_failure
  fetch-Fetched selected qs p h = elim (dequeue-Dequeued selected (now 0) g.storage) [
    | refused _ r ↦ rw r (failed queue_paused refl)
    | nothing_ready _ _ r ↦ rw r (try_others-Fetched selected qs empty_queue 1 h)
    | takes live before x behind s best r ↦ rw r (took 0 selected before x behind p live s best)
  ]

-- How a call of Dequeue ends.
pub data Handed (P : String → Type 0) (now : ℕ → Time) (g : MemoryManager)
    (r : Outcome Job × MemoryManager) : Type 0 where
  none_handed : (e : Error) → r ≡ (err e, g) → Handed P now g r
  panicked : r ≡ (panic, g) → Handed P now g r
  handed :
      (k : ℕ) (id : String) (j : Job) (h : MemoryManager)
      → Leaves P (now k) g h id
      → lookup id g.storage.jobs ≡ some j
      → r ≡ (ok j, h)
      → Handed P now g r
  lost :
      (k : ℕ) (id : String) (h : MemoryManager)
      → Leaves P (now k) g h id
      → lookup id g.storage.jobs ≡ none
      → r ≡ (err (wrapped "failed to get job" job_not_found), h)
      → Handed P now g r

module _ (P : String → Type 0) (now : ℕ → Time) (g : MemoryManager) where
  -- The job of the entry that left is read from the store.
  read_job :
      (k : ℕ) (id : String) (h : MemoryManager)
      → Leaves P (now k) g h id
      → Handed P now g (annotate "failed to get job" (call (get_job id)) h)
  unfolding get_job
  read_job k id h left = elim (Option-cases (lookup id h.storage.jobs)) [
    | inl e ↦ rw (e, get_job) (lost k id h left (sym kept ∙ e) refl)
    | inr (j, e) ↦ rw (e, get_job) (handed k id j h left (sym kept ∙ e) refl)
  ]
    where
      kept : lookup id h.storage.jobs ≡ lookup id g.storage.jobs
      kept = ap (λ x. lookup id x.storage.jobs) left.after

  from_named :
      (selected : String) (qs : List String)
      → (selected == "") ≡ false
      → Fetched P now g (
          handle
            (call (Queues.dequeue selected (now 0)))
            give
            (after_failure memory_storage selected qs now)
            g)
      → Handed P now g (dequeue_from memory_storage selected qs now g)
  unfolding dequeue_from
  from_named selected qs ne (failed e r) = rw (ne, r) (none_handed e refl)
  from_named selected qs ne (fetched k id h left r) = rw (ne, r) (read_job k id h left)

  dequeue_from-Handed :
      (selected : String) (qs : List String)
      → (selected ≡ "") ⊎ P selected
      → All P qs
      → Handed P now g (dequeue_from memory_storage selected qs now g)
  unfolding dequeue_from
  dequeue_from-Handed selected qs (inl e) h = rw e (none_handed empty_queue refl)
  dequeue_from-Handed selected qs (inr p) h = elim (Bool-cases (selected == "")) [
    | inl e ↦ rw (e, dequeue_from) (none_handed empty_queue refl)
    | inr ne ↦ from_named selected qs ne (fetch-Fetched P now g selected qs p h)
  ]

-- Dequeue either hands out the stored job of one entry, or reports an error or panics with nothing
-- changed. The entry leaves a queue of the list that is not paused, it is the best of those of its
-- queue that are due, and nothing else changes. Only if the store has lost the entry's job does a
-- call take an entry and fail. `P` is any property of the names in the list.
pub dequeue-Handed :
    (P : String → Type 0) (intn : ℕ → ℕ) (qs : List String) (now : ℕ → Time) (g : MemoryManager)
    → All P qs
    → Handed P now g (dequeue memory_storage intn qs now g)
unfolding dequeue
dequeue-Handed P intn [] now g h = none_handed (queue_error "no queues specified" "") refl
dequeue-Handed P intn (q ∷ qs) now g h =
    let (o, e, names) = select_queue_lem P intn (q ∷ qs) g h in rw e (selected o names)
  where
    selected :
        (o : Outcome String)
        → Names P o
        → Handed P now g (resume (λ s. dequeue_from memory_storage s (q ∷ qs) now) fail o g)
    selected (ok x) n = dequeue_from-Handed P now g x (q ∷ qs) n h
    selected (err e) n = none_handed e refl
    selected panic n = panicked refl
