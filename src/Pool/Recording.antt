-- ===== src/Pool/Recording.antt =====
-- What the steps of the goroutines of internal/worker/pool.go record over the in-memory store: when a
-- job counts as fetched, finished, given back or lost, and what Dequeue, processJob and Requeue have
-- done then.
use distributed_task_queue_s.Base.{
  ℕ, pos, ltb_ℤ, true, ◌||◌, ◌≡◌, refl, ◌⊎◌, inl, inr, if_both, Option, none, some, List, [], ◌∷◌,
  ◌++◌, length, get_elem?, Outcome, ok, err, panic,
}
use distributed_task_queue_s.Job.{Job, Time}
use distributed_task_queue_s.Memory.{MemoryStore}
use distributed_task_queue_s.Manager.Storage.{memory_storage}
use distributed_task_queue_s.Manager.Jobs.{dequeue, requeue}
use distributed_task_queue_s.Manager.Enqueueing.{MemoryManager}
use distributed_task_queue_s.Pool.Running.{process_job}
use distributed_task_queue_s.Pool.Setup.{Pool, manage, manage_back, beat}
use distributed_task_queue_s.Pool.Loops.{
  Fetcher, polling, filling, sending, returned, Hand, free, busy, gone, Run, Event, close_stop,
  poll, send, fetcher_stops, beat_stops, fetch, give_back, receive, leave, process, beats, received,
  receive_in, leave_in, poll_in, stop_in, send_in, fetched_one, settle, finish_job, give_job_back,
  fetch_in, give_back_from, process_in, drained, move,
}
use distributed_task_queue_s.Pool.GivingBack.{HandedBack, give_back-HandedBack}

-- A job that Dequeue gives is the next one to send and counts as fetched; without one nothing counts,
-- and then Dequeue was not called or gave none.
abbrev IsRefused : Outcome Job → Type 0
IsRefused (ok j) = ⊥
IsRefused (err e) = Unit
IsRefused panic = Unit

abbrev dequeued : (ℕ → ℕ) → (ℕ → Time) → Run MemoryStore → Outcome Job × MemoryManager
dequeued intn now r = dequeue memory_storage intn r.pool.queues now r.pool.queue_manager

abbrev Fetched : Outcome Job × MemoryManager → Run MemoryStore → Run MemoryStore → Type 0
Fetched d r s =
    ((j : Job) × (d.0 ≡ ok j)
      × (r.fetcher ≡ filling)
      × (s.fetcher ≡ sending j)
      × (s.fetched ≡ r.fetched ++ j ∷ [])
      × (s.pool.queue_manager ≡ d.1))
    ⊎ ((s.fetched ≡ r.fetched) × ((s.pool ≡ r.pool) ⊎ IsRefused d.0))

-- The job of a worker counts as finished when processJob has run for it.
abbrev Processed : ℕ → (ℕ → Time) → Run MemoryStore → Run MemoryStore → Type 0
Processed i now r s =
    ((j : Job) × (get_elem? r.hands i ≡ some (busy j))
      × (s.finished ≡ r.finished ++ j ∷ [])
      × (s.pool
          ≡ (manage (process_job memory_storage r.pool.worker.id r.pool.handlers j now) r.pool).1))
    ⊎ ((s.finished ≡ r.finished) × ((s.ended ≡ true) ⊎ (s ≡ r)))

abbrev SameBack : {S : Type 0} → Run S → Run S → Type 0
SameBack r s = (s.returned_jobs ≡ r.returned_jobs) × (s.lost_jobs ≡ r.lost_jobs)

-- Nothing is recorded.
abbrev Unrecorded : {S : Type 0} → Run S → Run S → Type 0
Unrecorded r s = (s.fetched ≡ r.fetched) × (s.finished ≡ r.finished) × SameBack r s

-- What one event means for the jobs that count as fetched, finished, given back and lost.
abbrev pub Recorded : Event → Run MemoryStore → Run MemoryStore → Type 0
Recorded (give_back now) r s =
    ((s.fetched ≡ r.fetched) × (s.finished ≡ r.finished)) × HandedBack now r s
Recorded (fetch intn now) r s =
    ((s.finished ≡ r.finished) × SameBack r s) × Fetched (dequeued intn now r) r s
Recorded (process i now) r s = ((s.fetched ≡ r.fetched) × SameBack r s) × Processed i now r s
Recorded close_stop r s = Unrecorded r s
Recorded poll r s = Unrecorded r s
Recorded send r s = Unrecorded r s
Recorded fetcher_stops r s = Unrecorded r s
Recorded beat_stops r s = Unrecorded r s
Recorded (receive i) r s = Unrecorded r s
Recorded (leave i) r s = Unrecorded r s
Recorded (beats now) r s = Unrecorded r s

module _ {S : Type 0} where
  received-Unrecorded : (i : ℕ) (js : List Job) (r : Run S) → Unrecorded r (received i js r)
  received-Unrecorded i [] r = (refl, refl, (refl, refl))
  received-Unrecorded i (j ∷ js) r = (refl, refl, (refl, refl))

  receive_in-Unrecorded : (i : ℕ) (o : Option Hand) (r : Run S) → Unrecorded r (receive_in i o r)
  receive_in-Unrecorded i none r = (refl, refl, (refl, refl))
  receive_in-Unrecorded i (some free) r = received-Unrecorded i r.job_ch r
  receive_in-Unrecorded i (some (busy j)) r = (refl, refl, (refl, refl))
  receive_in-Unrecorded i (some gone) r = (refl, refl, (refl, refl))

  leave_in-Unrecorded : (i : ℕ) (o : Option Hand) (r : Run S) → Unrecorded r (leave_in i o r)
  leave_in-Unrecorded i none r = (refl, refl, (refl, refl))
  leave_in-Unrecorded i (some free) r =
      if_both (Unrecorded r) (r.stopping || drained r.fetcher r.job_ch) _ _
        (refl, refl, (refl, refl)) (refl, refl, (refl, refl))
  leave_in-Unrecorded i (some (busy j)) r = (refl, refl, (refl, refl))
  leave_in-Unrecorded i (some gone) r = (refl, refl, (refl, refl))

  poll_in-Unrecorded : (f : Fetcher) (r : Run S) → Unrecorded r (poll_in f r)
  poll_in-Unrecorded polling r = (refl, refl, (refl, refl))
  poll_in-Unrecorded filling r = (refl, refl, (refl, refl))
  poll_in-Unrecorded (sending j) r = (refl, refl, (refl, refl))
  poll_in-Unrecorded returned r = (refl, refl, (refl, refl))

  stop_in-Unrecorded : (f : Fetcher) (r : Run S) → Unrecorded r (stop_in f r)
  stop_in-Unrecorded polling r =
      if_both (Unrecorded r) r.stopping _ _ (refl, refl, (refl, refl)) (refl, refl, (refl, refl))
  stop_in-Unrecorded filling r = (refl, refl, (refl, refl))
  stop_in-Unrecorded (sending j) r = (refl, refl, (refl, refl))
  stop_in-Unrecorded returned r = (refl, refl, (refl, refl))

  send_in-Unrecorded : (f : Fetcher) (r : Run S) → Unrecorded r (send_in f r)
  send_in-Unrecorded (sending j) r =
      if_both (Unrecorded r) (ltb_ℤ (pos (length r.job_ch)) r.pool.concurrency) _ _
        (refl, refl, (refl, refl)) (refl, refl, (refl, refl))
  send_in-Unrecorded polling r = (refl, refl, (refl, refl))
  send_in-Unrecorded filling r = (refl, refl, (refl, refl))
  send_in-Unrecorded returned r = (refl, refl, (refl, refl))

  settle-Unrecorded :
      (o : Outcome (Unit {0}) × Pool S) (f : Pool S → Run S) (r : Run S)
      → ((q : Pool S) → Unrecorded r (f q))
      → Unrecorded r (settle o f r)
  settle-Unrecorded (ok a, q) f r k = k q
  settle-Unrecorded (err x, q) f r k = k q
  settle-Unrecorded (panic, q) f r k = (refl, refl, (refl, refl))

give_job_back_others :
    (j : Job) (o : Outcome (Unit {0}) × Pool MemoryStore) (r : Run MemoryStore)
    → ((give_job_back j r o).fetched ≡ r.fetched) × ((give_job_back j r o).finished ≡ r.finished)
give_job_back_others j (ok a, q) r = (refl, refl)
give_job_back_others j (err x, q) r = (refl, refl)
give_job_back_others j (panic, q) r = (refl, refl)

give_back_others :
    (f : Fetcher) (now : Time) (r : Run MemoryStore)
    → ((give_back_from memory_storage f now r).fetched ≡ r.fetched)
      × ((give_back_from memory_storage f now r).finished ≡ r.finished)
give_back_others (sending j) now r =
    if_both (λ s. (s.fetched ≡ r.fetched) × (s.finished ≡ r.finished)) r.stopping _ r
      (give_job_back_others j (manage (requeue memory_storage j (pos 0) now) r.pool) r) (refl, refl)
give_back_others polling now r = (refl, refl)
give_back_others filling now r = (refl, refl)
give_back_others returned now r = (refl, refl)

abbrev AfterFetch : Outcome Job × MemoryManager → Run MemoryStore → Run MemoryStore → Type 0
AfterFetch d r s = ((s.finished ≡ r.finished) × SameBack r s) × Fetched d r s

fetched_one_lem :
    (d : Outcome Job × MemoryManager) (r : Run MemoryStore)
    → r.fetcher ≡ filling
    → AfterFetch d r (fetched_one (manage_back r.pool d) r)
fetched_one_lem (ok j, g) r e = ((refl, (refl, refl)), inl (j, refl, e, refl, refl, refl))
fetched_one_lem (err x, g) r e = ((refl, (refl, refl)), inr (refl, inr tt))
fetched_one_lem (panic, g) r e = ((refl, (refl, refl)), inr (refl, inr tt))

fetch_in_lem :
    (f : Fetcher) (intn : ℕ → ℕ) (now : ℕ → Time) (r : Run MemoryStore)
    → r.fetcher ≡ f
    → AfterFetch (dequeued intn now r) r (fetch_in memory_storage f intn now r)
fetch_in_lem filling intn now r e =
    if_both (AfterFetch (dequeued intn now r) r) (ltb_ℤ (pos (length r.job_ch)) r.pool.concurrency)
      _ _ (fetched_one_lem (dequeued intn now r) r e) ((refl, (refl, refl)), inr (refl, inl refl))
fetch_in_lem polling intn now r e = ((refl, (refl, refl)), inr (refl, inl refl))
fetch_in_lem (sending j) intn now r e = ((refl, (refl, refl)), inr (refl, inl refl))
fetch_in_lem returned intn now r e = ((refl, (refl, refl)), inr (refl, inl refl))

abbrev Settled :
    Job → Outcome (Unit {0}) × Pool MemoryStore → Run MemoryStore → Run MemoryStore → Type 0
Settled j o r s =
    ((s.fetched ≡ r.fetched) × SameBack r s)
    × (((s.finished ≡ r.finished ++ j ∷ []) × (s.pool ≡ o.1))
        ⊎ ((s.finished ≡ r.finished) × (s.ended ≡ true)))

settle-Settled :
    (i : ℕ) (j : Job) (o : Outcome (Unit {0}) × Pool MemoryStore) (r : Run MemoryStore)
    → Settled j o r (settle o (finish_job i j r) r)
settle-Settled i j (ok a, q) r = ((refl, (refl, refl)), inl (refl, refl))
settle-Settled i j (err x, q) r = ((refl, (refl, refl)), inl (refl, refl))
settle-Settled i j (panic, q) r = ((refl, (refl, refl)), inr (refl, refl))

process_in_lem :
    (i : ℕ) (now : ℕ → Time) (h : Option Hand) (r : Run MemoryStore)
    → get_elem? r.hands i ≡ h
    → (((process_in memory_storage i now h r).fetched ≡ r.fetched)
        × SameBack r (process_in memory_storage i now h r))
      × Processed i now r (process_in memory_storage i now h r)
process_in_lem i now none r e = ((refl, (refl, refl)), inr (refl, inr refl))
process_in_lem i now (some (busy j)) r e =
    let o = manage (process_job memory_storage r.pool.worker.id r.pool.handlers j now) r.pool in
    let (same, ends) = settle-Settled i j o r in
    (same, elim ends [ inl (a, b) ↦ inl (j, e, a, b) | inr (a, b) ↦ inr (a, inl b) ])
process_in_lem i now (some free) r e = ((refl, (refl, refl)), inr (refl, inr refl))
process_in_lem i now (some gone) r e = ((refl, (refl, refl)), inr (refl, inr refl))

pub move-Recorded : (e : Event) (r : Run MemoryStore) → Recorded e r (move memory_storage e r)
unfolding move
move-Recorded (give_back now) r =
    (give_back_others r.fetcher now r, give_back-HandedBack r.fetcher now r refl)
move-Recorded (fetch intn now) r = fetch_in_lem r.fetcher intn now r refl
move-Recorded (process i now) r = process_in_lem i now (get_elem? r.hands i) r refl
move-Recorded close_stop r = (refl, refl, (refl, refl))
move-Recorded poll r = poll_in-Unrecorded r.fetcher r
move-Recorded send r = send_in-Unrecorded r.fetcher r
move-Recorded fetcher_stops r = stop_in-Unrecorded r.fetcher r
move-Recorded beat_stops r =
    if_both (Unrecorded r) r.stopping _ _ (refl, refl, (refl, refl)) (refl, refl, (refl, refl))
move-Recorded (receive i) r = receive_in-Unrecorded i (get_elem? r.hands i) r
move-Recorded (leave i) r = leave_in-Unrecorded i (get_elem? r.hands i) r
move-Recorded (beats now) r =
    if_both (Unrecorded r) r.beating _ _
      (settle-Unrecorded (beat memory_storage now r.pool) (λ q. record r { pool = q }) r
        (λ q. (refl, refl, (refl, refl))))
      (refl, refl, (refl, refl))
