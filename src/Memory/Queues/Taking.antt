-- ===== src/Memory/Queues/Taking.antt =====
-- What Enqueue, Dequeue and Remove of internal/storage/memory/memory.go do to a queue, on every
-- branch.
use distributed_task_queue_s.Base.{
  ◌+ℤ◌, String, eq_iff, ◌==◌, true, false, ◌≡◌, refl, ap, ◌⊎◌, inl, inr, none, some, Option-cases,
  Bool-cases, length-append, List, [], ◌∷◌, ◌++◌, All, length, get_elem?-append, take-append,
  drop-append, lookup, lookup_or, lookup-insert_self, Outcome, ok, err, queue_paused, empty_queue,
  job_not_found, arith,
}
use distributed_task_queue_s.Job.{Time, after, Priority, Duration, Job}
use distributed_task_queue_s.Memory.{MemoryStore, QueueEntry}
use distributed_task_queue_s.Memory.Queues.{
  entries, with_entries, new_entry, enqueue, scan, no_best, take_out, dequeue, remove_first, remove,
}
use distributed_task_queue_s.Memory.Queues.Choice.{IsChoice, scan_lem}

-- The result of a call of Dequeue, by its three outcomes.
pub data Dequeued (queue : String) (now : Time) (m : MemoryStore) (r : Outcome String × MemoryStore)
    : Type 0 where
  refused :
      lookup_or false queue m.paused ≡ true → r ≡ (err queue_paused, m) → Dequeued queue now m r
  nothing_ready :
      lookup_or false queue m.paused ≡ false
      → All (λ x. after x.timestamp now ≡ true) (entries m queue)
      → r ≡ (err empty_queue, m)
      → Dequeued queue now m r
  takes :
      lookup_or false queue m.paused ≡ false
      → (before : List QueueEntry) (e : QueueEntry) (behind : List QueueEntry)
      → entries m queue ≡ before ++ e ∷ behind
      → IsChoice now before e behind
      → r ≡ (ok e.job_id, with_entries m queue (before ++ behind))
      → Dequeued queue now m r

pub entries-with_entries :
    (m : MemoryStore) (queue : String) (es : List QueueEntry)
    → entries (with_entries m queue es) queue ≡ es
entries-with_entries m queue es = rw (lookup-insert_self queue es m.queues)

take_out_lem :
    (m : MemoryStore) (queue : String) (before : List QueueEntry) (e : QueueEntry)
    (behind : List QueueEntry)
    → entries m queue ≡ before ++ e ∷ behind
    → take_out queue (length before) m ≡ (ok e.job_id, with_entries m queue (before ++ behind))
unfolding take_out
take_out_lem m queue before e behind h =
    rw (h, take_out)
      (ground (
        arith,
        get_elem?-append before e behind,
        take-append before (e ∷ behind),
        drop-append before e behind,
      ))

-- A paused queue refuses and an empty or unready one reports that it is empty, both with the store
-- unchanged. Otherwise the entry of the highest priority among the ready ones goes, the first of
-- these in the queue, and the others keep their order.
pub dequeue-Dequeued :
    (queue : String) (now : Time) (m : MemoryStore) → Dequeued queue now m (dequeue queue now m)
unfolding dequeue
dequeue-Dequeued queue now m = elim (Bool-cases (lookup_or false queue m.paused)) [
  | inl p ↦ refused p (rw p)
  | inr p ↦ elim (scan_lem now (entries m queue)) [
    | inl (before, e, behind, s, i, c) ↦
        takes p before e behind s c
          (found p before e behind s i (take_out_lem m queue before e behind s))
    | inr (n, late) ↦ nothing_ready p late (ground arith)
  ]
]
  where
    found :
        lookup_or false queue m.paused ≡ false
        → (before : List QueueEntry) (e : QueueEntry) (behind : List QueueEntry)
        → entries m queue ≡ before ++ e ∷ behind
        → (scan now (entries m queue) 0 no_best).idx ≡ some (length before)
        → take_out queue (length before) m ≡ (ok e.job_id, with_entries m queue (before ++ behind))
        → dequeue queue now m ≡ (ok e.job_id, with_entries m queue (before ++ behind))
    found p before e behind s i t = ground (arith, ap length s, length-append before (e ∷ behind))

-- The result of a call of Remove.
pub data Removed (queue id : String) (m : MemoryStore) (r : Outcome (Unit {0}) × MemoryStore)
    : Type 0 where
  absent :
      All (λ x. (x.job_id == id) ≡ false) (entries m queue)
      → r ≡ (err job_not_found, m)
      → Removed queue id m r
  removes :
      (before : List QueueEntry) (e : QueueEntry) (behind : List QueueEntry)
      → entries m queue ≡ before ++ e ∷ behind
      → e.job_id ≡ id
      → All (λ x. (x.job_id == id) ≡ false) before
      → r ≡ (ok tt, with_entries m queue (before ++ behind))
      → Removed queue id m r

remove_first_lem :
    (id : String) (es : List QueueEntry)
    → (All (λ x. (x.job_id == id) ≡ false) es × (remove_first id es ≡ none))
      ⊎ ((before : List QueueEntry) × (e : QueueEntry) × (behind : List QueueEntry) × (es
            ≡ before ++ e ∷ behind)
          × (e.job_id ≡ id)
          × All (λ x. (x.job_id == id) ≡ false) before
          × (remove_first id es ≡ some (before ++ behind)))
unfolding remove_first
remove_first_lem id [] = inl (tt, refl)
remove_first_lem id (x ∷ es) = elim (Bool-cases (x.job_id == id)) [
  | inl hit ↦ inr ([], x, es, refl, (eq_iff x.job_id id).0 hit, tt, rw hit)
  | inr miss ↦ elim (remove_first_lem id es) [
    | inl (all, e) ↦ inl ((miss, all), rw (miss, e))
    | inr (before, e, behind, s, h, all, r) ↦
        inr (x ∷ before, e, behind, ap (◌∷◌ x) s, h, (miss, all), rw (miss, r))
  ]
]

-- Remove takes out the first entry of the job and keeps the order of the others; where the queue has
-- no entry of the job it fails and changes nothing.
pub remove-Removed : (queue id : String) (m : MemoryStore) → Removed queue id m (remove queue id m)
unfolding remove
remove-Removed queue id m = elim (remove_first_lem id (entries m queue)) [
  | inl (all, e) ↦ absent all (rw (e, remove))
  | inr (before, e, behind, s, h, all, r) ↦ removes before e behind s h all (rw (r, remove))
]

-- Enqueue puts one entry behind all others, due `delay` after the clock's reading, and fails with
-- nothing changed if the job is not stored.
pub enqueue_appends :
    (queue id : String) (priority : Priority) (delay : Duration) (now : Time) (m : MemoryStore)
    → ((lookup id m.jobs ≡ none) × (enqueue queue id priority delay now m ≡ (err job_not_found, m)))
      ⊎ ((j : Job) × (lookup id m.jobs ≡ some j)
          × (enqueue queue id priority delay now m ≡ (
            ok tt,
            with_entries m queue (entries m queue ++ new_entry id priority (now +ℤ delay) ∷ []),
          )))
unfolding enqueue
enqueue_appends queue id priority delay now m = elim (Option-cases (lookup id m.jobs)) [
  | inl e ↦ inl (e, rw (e, enqueue))
  | inr (j, e) ↦ inr (j, e, rw (e, enqueue))
]
