-- ===== src/Pool/Conservation.antt =====
-- Where the jobs go that the goroutines of internal/worker/pool.go have fetched.
use distributed_task_queue_s.Base.{
  ◌⊎◌, inr, true, ℕ, pos, ltb_ℤ, Bool, if◌then◌else◌, ◌≡◌, refl, if_both, Option, none, some, List,
  [], ◌∷◌, length, get_elem?, arith,
}
use distributed_task_queue_s.Job.{Job, Time}
use distributed_task_queue_s.Manager.Storage.{Storage}
use distributed_task_queue_s.Manager.Jobs.{dequeue, requeue}
use distributed_task_queue_s.Memory.{MemoryStore}
use distributed_task_queue_s.Manager.Storage.{memory_storage}
use distributed_task_queue_s.Pool.Recording.{Recorded, move-Recorded}
use distributed_task_queue_s.Pool.Running.{process_job}
use distributed_task_queue_s.Pool.Setup.{manage, beat}
use distributed_task_queue_s.Pool.Loops.{
  Fetcher, polling, filling, sending, returned, Hand, free, busy, gone, Run, Event, close_stop,
  poll, send, fetcher_stops, beat_stops, fetch, give_back, receive, leave, process, beats,
  finish_job, fetch_in, give_back_from, process_in, move, moves,
}
use distributed_task_queue_s.Pool.Custody.{
  Kept, poll_in-Kept, stop_in-Kept, send_in-Kept, fetched_one-Kept, settle-Kept, finish_job-Kept,
  give_job_back-Kept, receive_in-Kept, leave_in-Kept, in_fetcher,
}

module _ {S : Type 0} (st : Storage S) (p : Job → Bool) where
  fetch_in-Kept :
      (f : Fetcher) (intn : ℕ → ℕ) (now : ℕ → Time) (r : Run S)
      → r.fetcher ≡ f
      → Kept p r
      → Kept p (fetch_in st f intn now r)
  fetch_in-Kept filling intn now r e h =
      if_both (Kept p) (ltb_ℤ (pos (length r.job_ch)) r.pool.concurrency) _ _
        ((fetched_one-Kept p (manage (dequeue st intn r.pool.queues now) r.pool) r e h))
        ((let held : in_fetcher p r.fetcher ≡ 0 = rw e refl in omega arith))
  fetch_in-Kept polling intn now r e h = h
  fetch_in-Kept (sending j) intn now r e h = h
  fetch_in-Kept returned intn now r e h = h

  give_back_from-Kept :
      (f : Fetcher) (now : Time) (r : Run S)
      → r.fetcher ≡ f
      → Kept p r
      → Kept p (give_back_from st f now r)
  give_back_from-Kept (sending j) now r e h =
      if_both (Kept p) r.stopping _ _
        (give_job_back-Kept p j (manage (requeue st j (pos 0) now) r.pool) r e h) (h)
  give_back_from-Kept polling now r e h = h
  give_back_from-Kept filling now r e h = h
  give_back_from-Kept returned now r e h = h

  process_in-Kept :
      (i : ℕ) (now : ℕ → Time) (o : Option Hand) (r : Run S)
      → get_elem? r.hands i ≡ o
      → Kept p r
      → Kept p (process_in st i now o r)
  process_in-Kept i now none r e h = h
  process_in-Kept i now (some (busy j)) r e h =
      settle-Kept p (manage (process_job st r.pool.worker.id r.pool.handlers j now) r.pool)
        (finish_job i j r) r (λ q. finish_job-Kept p i j r q e h) h
  process_in-Kept i now (some free) r e h = h
  process_in-Kept i now (some gone) r e h = h

  move-Kept : (e : Event) (r : Run S) → Kept p r → Kept p (move st e r)
  unfolding move
  move-Kept close_stop r h = h
  move-Kept poll r h = poll_in-Kept p r.fetcher r refl h
  move-Kept send r h = send_in-Kept p r.fetcher r refl h
  move-Kept fetcher_stops r h = stop_in-Kept p r.fetcher r refl h
  move-Kept beat_stops r h = if_both (Kept p) r.stopping _ _ h h
  move-Kept (fetch intn now) r h = fetch_in-Kept r.fetcher intn now r refl h
  move-Kept (give_back now) r h = give_back_from-Kept r.fetcher now r refl h
  move-Kept (receive i) r h = receive_in-Kept p i (get_elem? r.hands i) r refl h
  move-Kept (leave i) r h = leave_in-Kept p i (get_elem? r.hands i) r refl h
  move-Kept (process i now) r h = process_in-Kept i now (get_elem? r.hands i) r refl h
  move-Kept (beats now) r h =
      if_both (Kept p) r.beating _ _
        ((settle-Kept p (beat st now r.pool) (λ q. record r { pool = q }) r (λ q. h) h)) (h)

  pub moves-Kept_in : (es : List Event) (r : Run S) → Kept p r → Kept p (moves st es r)
  unfolding moves
  moves-Kept_in [] r h = h
  moves-Kept_in (e ∷ es) r h =
      moves-Kept_in es (if r.ended then r else move st e r)
        (if_both (Kept p) r.ended r (move st e r) h (move-Kept e r h))

-- At each step of a run the jobs that count as fetched, finished, given back and lost change as the
-- event means, as long as no panic has ended the program.
abbrev pub AllRecorded : List Event → Run MemoryStore → Type 0
AllRecorded [] r = Unit
AllRecorded (e ∷ es) r =
    ((r.ended ≡ true) ⊎ Recorded e r (move memory_storage e r))
    × AllRecorded es (if r.ended then r else move memory_storage e r)

moves-AllRecorded : (es : List Event) (r : Run MemoryStore) → AllRecorded es r
moves-AllRecorded [] r = tt
moves-AllRecorded (e ∷ es) r =
    (inr (move-Recorded e r), moves-AllRecorded es (if r.ended then r else move memory_storage e r))

-- In every run of the pool's goroutines over the in-memory store, whatever the order of their steps:
-- for any test on jobs, of the jobs that were fetched as many pass it as pass it among those that the
-- fetch loop is about to send, that the channel holds, that a worker has, that are finished, that
-- were given back, and that were lost when they were given back. A job counts as fetched only when
-- Dequeue gives it, and then it is the next one to send; as finished only when processJob has run for
-- it in the worker that had it; as given back only at a step of the fetch loop after Stop that writes
-- it to the store, which knew it, and puts an entry for it behind the others of its queue, due at
-- once; and as lost only at such a step for a job that the store does not know, which changes nothing
-- in the store. No other step changes what counts.
pub moves-Kept :
    (p : Job → Bool) (es : List Event) (r : Run MemoryStore)
    → Kept p r
    → Kept p (moves memory_storage es r) × AllRecorded es r
moves-Kept p es r h = (moves-Kept_in memory_storage p es r h, moves-AllRecorded es r)
