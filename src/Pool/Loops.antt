-- ===== src/Pool/Loops.antt =====
-- The goroutines of internal/worker/pool.go: heartbeatLoop, fetchLoop with fetchJobs, the workerLoops
-- and the channels between them. An event is one step of one goroutine, or the call of Stop; where a
-- `select` has several cases ready, any of them can be the next event. An event that is not enabled
-- changes nothing.
use distributed_task_queue_s.Base.{
  ℕ, zero, suc, pos, ltb_ℤ, Bool, true, false, ◌||◌, if◌then◌else◌, Option, none, some, List, [],
  ◌∷◌, ◌++◌, length, get_elem?, Outcome, ok, err, panic,
}
use distributed_task_queue_s.Job.{Job, Time}
use distributed_task_queue_s.Manager.Storage.{Storage}
use distributed_task_queue_s.Manager.Jobs.{dequeue, requeue}
use distributed_task_queue_s.Pool.Running.{process_job}
use distributed_task_queue_s.Pool.Setup.{Pool, manage, beat}

-- The fetch loop waits for its ticker, is at the head of the loop of fetchJobs, has a job to send, or
-- has returned and so closed the channel.
pub data Fetcher : Type 0 where
  polling filling : Fetcher
  sending : Job → Fetcher
  returned : Fetcher

-- A worker loop waits for a job, has one, or has returned.
pub data Hand : Type 0 where
  free : Hand
  busy : Job → Hand
  gone : Hand

-- `beating` is whether heartbeatLoop runs, `stopping` whether stopCh is closed, `ended` whether a panic
-- has ended the program. `fetched`, `finished`, `returned_jobs` and `lost_jobs` record the jobs that
-- Dequeue gave, those that processJob is through with, those that fetchJobs gave back by a Requeue
-- without an error, and those whose Requeue failed.
pub record Run (S : Type 0) : Type 0 where
  pub pool : Pool S
  pub job_ch : List Job
  pub fetcher : Fetcher
  pub hands : List Hand
  pub beating : Bool
  pub stopping : Bool
  pub ended : Bool
  pub fetched : List Job
  pub finished : List Job
  pub returned_jobs : List Job
  pub lost_jobs : List Job

-- A fetch has the random source and the clock; a worker is known by its number.
pub data Event : Type 0 where
  close_stop poll send fetcher_stops beat_stops : Event
  fetch : (ℕ → ℕ) → (ℕ → Time) → Event
  give_back : Time → Event
  receive leave : ℕ → Event
  process : ℕ → (ℕ → Time) → Event
  beats : Time → Event

abbrev pub free_hands : ℕ → List Hand
free_hands zero = []
free_hands (suc n) = free ∷ free_hands n

abbrev pub set_at {ℓ} : {A : Type ℓ} → ℕ → A → List A → List A
set_at n x [] = []
set_at zero x (y ∷ ys) = x ∷ ys
set_at (suc n) x (y ∷ ys) = y ∷ set_at n x ys

-- The channel has been closed and is empty.
abbrev pub drained : Fetcher → List Job → Bool
drained returned [] = true
drained returned (j ∷ js) = false
drained polling js = false
drained filling js = false
drained (sending j) js = false

module _ {S : Type 0} where
  -- What Start has started.
  unfoldable pub started : Pool S → ℕ → Run S
  started p count = record {
    pool = p;
    job_ch = [];
    fetcher = polling;
    hands = free_hands count;
    beating = true;
    stopping = false;
    ended = false;
    fetched = [];
    finished = [];
    returned_jobs = [];
    lost_jobs = [];
  }

  abbrev pub received : ℕ → List Job → Run S → Run S
  received i [] r = r
  received i (j ∷ js) r = record r { job_ch = js; hands = set_at i (busy j) r.hands }

  abbrev pub receive_in : ℕ → Option Hand → Run S → Run S
  receive_in i none r = r
  receive_in i (some free) r = received i r.job_ch r
  receive_in i (some (busy j)) r = r
  receive_in i (some gone) r = r

  abbrev pub leave_in : ℕ → Option Hand → Run S → Run S
  leave_in i none r = r
  leave_in i (some free) r =
      if r.stopping || drained r.fetcher r.job_ch
      then record r { hands = set_at i gone r.hands }
      else r
  leave_in i (some (busy j)) r = r
  leave_in i (some gone) r = r

  abbrev pub poll_in : Fetcher → Run S → Run S
  poll_in polling r = record r { fetcher = filling }
  poll_in filling r = r
  poll_in (sending j) r = r
  poll_in returned r = r

  abbrev pub stop_in : Fetcher → Run S → Run S
  stop_in polling r = if r.stopping then record r { fetcher = returned } else r
  stop_in filling r = r
  stop_in (sending j) r = r
  stop_in returned r = r

  -- The channel holds up to `concurrency` jobs.
  abbrev pub send_in : Fetcher → Run S → Run S
  send_in (sending j) r =
      if ltb_ℤ (pos (length r.job_ch)) r.pool.concurrency
      then record r { job_ch = r.job_ch ++ j ∷ []; fetcher = filling }
      else r
  send_in polling r = r
  send_in filling r = r
  send_in returned r = r

  abbrev pub fetched_one : Outcome Job × Pool S → Run S → Run S
  fetched_one (ok j, p) r = record r {
    pool = p;
    fetcher = sending j;
    fetched = r.fetched ++ j ∷ [];
  }
  fetched_one (err e, p) r = record r { pool = p; fetcher = polling }
  fetched_one (panic, p) r = record r { pool = p; ended = true }

  -- A call whose error is only printed; a panic ends the program.
  abbrev pub settle : Outcome (Unit {0}) × Pool S → (Pool S → Run S) → Run S → Run S
  settle (ok _, p) f r = f p
  settle (err _, p) f r = f p
  settle (panic, p) f r = record r { pool = p; ended = true }

  abbrev pub finish_job : ℕ → Job → Run S → Pool S → Run S
  finish_job i j r p = record r {
    pool = p;
    hands = set_at i free r.hands;
    finished = r.finished ++ j ∷ [];
  }

  -- The error of Requeue is dropped, and the job with it.
  abbrev pub give_job_back : Job → Run S → Outcome (Unit {0}) × Pool S → Run S
  give_job_back j r (ok _, p) = record r {
    pool = p;
    fetcher = polling;
    returned_jobs = r.returned_jobs ++ j ∷ [];
  }
  give_job_back j r (err _, p) = record r {
    pool = p;
    fetcher = polling;
    lost_jobs = r.lost_jobs ++ j ∷ [];
  }
  give_job_back j r (panic, p) = record r { pool = p; ended = true }

module _ {S : Type 0} (st : Storage S) where
  abbrev pub fetch_in : Fetcher → (ℕ → ℕ) → (ℕ → Time) → Run S → Run S
  fetch_in filling intn now r =
      if ltb_ℤ (pos (length r.job_ch)) r.pool.concurrency
      then fetched_one (manage (dequeue st intn r.pool.queues now) r.pool) r
      else record r { fetcher = polling }
  fetch_in polling intn now r = r
  fetch_in (sending j) intn now r = r
  fetch_in returned intn now r = r

  abbrev pub give_back_from : Fetcher → Time → Run S → Run S
  give_back_from (sending j) now r =
      if r.stopping then give_job_back j r (manage (requeue st j (pos 0) now) r.pool) else r
  give_back_from polling now r = r
  give_back_from filling now r = r
  give_back_from returned now r = r

  abbrev pub process_in : ℕ → (ℕ → Time) → Option Hand → Run S → Run S
  process_in i now none r = r
  process_in i now (some (busy j)) r =
      settle (manage (process_job st r.pool.worker.id r.pool.handlers j now) r.pool)
        (finish_job i j r) r
  process_in i now (some free) r = r
  process_in i now (some gone) r = r

  unfoldable pub move : Event → Run S → Run S
  move close_stop r = record r { stopping = true }
  move poll r = poll_in r.fetcher r
  move send r = send_in r.fetcher r
  move fetcher_stops r = stop_in r.fetcher r
  move beat_stops r = if r.stopping then record r { beating = false } else r
  move (fetch intn now) r = fetch_in r.fetcher intn now r
  move (give_back now) r = give_back_from r.fetcher now r
  move (receive i) r = receive_in i (get_elem? r.hands i) r
  move (leave i) r = leave_in i (get_elem? r.hands i) r
  move (process i now) r = process_in i now (get_elem? r.hands i) r
  move (beats now) r =
      if r.beating then settle (beat st now r.pool) (λ p. record r { pool = p }) r else r

  -- Nothing moves after a panic.
  unfoldable pub moves : List Event → Run S → Run S
  moves [] r = r
  moves (e ∷ es) r = moves es (if r.ended then r else move e r)
