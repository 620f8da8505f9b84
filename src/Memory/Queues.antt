-- ===== src/Memory/Queues.antt =====
-- The queue methods of internal/storage/memory/memory.go (Enqueue to IsQueuePaused).
pub mod Choice
pub mod Taking
use distributed_task_queue_s.Base.{
  ℕ, ◌+◌, ℤ, pos, negsuc, ◌+ℤ◌, ltb_ℤ, ltb, nat_eq, String, Bool, true, false, not, ◌||◌, ◌==◌,
  if◌then◌else◌, is_some, Option, none, some, List, [], ◌∷◌, ◌++◌, map, length, take, drop, select,
  get_elem?, lookup, lookup_or, insert, Method, ok, err, panic, job_not_found, queue_paused,
  empty_queue,
}
use distributed_task_queue_s.Job.{Priority, Time, Duration, after}
use distributed_task_queue_s.Memory.{MemoryStore, QueueEntry}

-- `m.queues[queue]`: a queue that was never written is empty.
abbrev pub entries : MemoryStore → String → List QueueEntry
entries m queue = lookup_or [] queue m.queues

abbrev pub with_entries : MemoryStore → String → List QueueEntry → MemoryStore
with_entries m queue es = record m { queues = insert queue es m.queues }

abbrev pub new_entry : String → Priority → Time → QueueEntry
new_entry id priority at = record { job_id = id; priority = priority; timestamp = at }

unfoldable pub enqueue :
    String → String → Priority → Duration → Time → Method MemoryStore (Unit {0})
enqueue queue id priority delay now m = elim (lookup id m.jobs) [
  | none ↦ (err job_not_found, m)
  | some _ ↦
      (ok tt, with_entries m queue (entries m queue ++ new_entry id priority (now +ℤ delay) ∷ []))
]

-- `bestIdx` (`none` is -1) and `bestPriority`.
pub record Best : Type 0 where
  pub idx : Option ℕ
  pub priority : Priority

-- One round of the loop of Dequeue.
unfoldable pub consider : Time → QueueEntry → ℕ → Best → Best
consider now e i b =
    if after e.timestamp now
    then b
    else if not (is_some b.idx) || ltb_ℤ b.priority e.priority
    then record { idx = some i; priority = e.priority }
    else b

unfoldable pub scan : Time → List QueueEntry → ℕ → Best → Best
scan now [] i b = b
scan now (e ∷ es) i b = scan now es (i + 1) (consider now e i b)

abbrev pub no_best : Best
no_best = record { idx = none; priority = negsuc 0 }

-- `entries[i]`, and the entries without it.
unfoldable pub take_out : String → ℕ → Method MemoryStore String
take_out queue i m = elim (get_elem? (entries m queue) i) [
  | none ↦ (panic, m)
  | some e ↦
      let es = entries m queue in (ok e.job_id, with_entries m queue (take i es ++ drop (i + 1) es))
]

unfoldable pub dequeue : String → Time → Method MemoryStore String
dequeue queue now m =
    if lookup_or false queue m.paused
    then (err queue_paused, m)
    else if nat_eq (length (entries m queue)) 0
    then (err empty_queue, m)
    else elim (scan now (entries m queue) 0 no_best).idx [
      | none ↦ (err empty_queue, m)
      | some i ↦ take_out queue i m
    ]

unfoldable pub requeue :
    String → String → Priority → Duration → Time → Method MemoryStore (Unit {0})
unfolding enqueue
requeue = enqueue

-- The first entry of the job goes; `none` if there is none.
unfoldable pub remove_first : String → List QueueEntry → Option (List QueueEntry)
remove_first id [] = none
remove_first id (e ∷ es) =
    let rest = remove_first id es in
    if e.job_id == id then some es else elim rest [ none ↦ none | some r ↦ some (e ∷ r) ]

unfoldable pub remove : String → String → Method MemoryStore (Unit {0})
unfolding remove_first
remove queue id m = elim (remove_first id (entries m queue)) [
  | none ↦ (err job_not_found, m)
  | some es ↦ (ok tt, with_entries m queue es)
]

unfoldable pub queue_length : String → Method MemoryStore ℕ
queue_length queue m = (ok (length (entries m queue)), m)

-- A negative count panics in `make`.
unfoldable pub peek : String → ℤ → Method MemoryStore (List String)
peek queue (negsuc n) m = (panic, m)
peek queue (pos n) m =
    let es = entries m queue in
    let count = if ltb (length es) n then length es else n in
    (ok (map (λ e. e.job_id) (take count es)), m)

unfoldable pub get_scheduled : String → Time → Method MemoryStore (List String)
get_scheduled queue until m =
    (ok (map (λ e. e.job_id) (select (λ e. not (after e.timestamp until)) (entries m queue))), m)

unfoldable pub pause_queue : String → Method MemoryStore (Unit {0})
pause_queue queue m = (ok tt, record m { paused = insert queue true m.paused })

unfoldable pub resume_queue : String → Method MemoryStore (Unit {0})
resume_queue queue m = (ok tt, record m { paused = insert queue false m.paused })

unfoldable pub is_queue_paused : String → Method MemoryStore Bool
is_queue_paused queue m = (ok (lookup_or false queue m.paused), m)
