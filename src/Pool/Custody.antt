-- ===== src/Pool/Custody.antt =====
-- Where the jobs are that the goroutines of internal/worker/pool.go have taken out of the queues.
use distributed_task_queue_s.Base.{
  ℕ, zero, suc, pos, ltb_ℤ, Bool, ◌||◌, if◌then◌else◌, ◌≡◌, refl, ◌+◌, if_both, Option, none, some,
  List, [], ◌∷◌, ◌++◌, length, get_elem?, Outcome, ok, err, panic, arith,
}
use distributed_task_queue_s.Job.{Job}
use distributed_task_queue_s.Pool.Setup.{Pool}
use distributed_task_queue_s.Pool.Loops.{
  Fetcher, polling, filling, sending, returned, Hand, free, busy, gone, Run, set_at, received,
  receive_in, leave_in, poll_in, stop_in, send_in, fetched_one, settle, finish_job, give_job_back,
  drained,
}

-- How many jobs pass a test.
abbrev pub one_if : Bool → ℕ
one_if b = if b then 1 else 0

abbrev pub count : (Job → Bool) → List Job → ℕ
count p [] = 0
count p (j ∷ js) = one_if (p j) + count p js

abbrev pub in_hand : (Job → Bool) → Hand → ℕ
in_hand p (busy j) = one_if (p j)
in_hand p free = 0
in_hand p gone = 0

abbrev pub in_hands : (Job → Bool) → List Hand → ℕ
in_hands p [] = 0
in_hands p (h ∷ hs) = in_hand p h + in_hands p hs

abbrev pub in_fetcher : (Job → Bool) → Fetcher → ℕ
in_fetcher p (sending j) = one_if (p j)
in_fetcher p polling = 0
in_fetcher p filling = 0
in_fetcher p returned = 0

-- Every fetched job is with the fetch loop, in the channel, with a worker, finished, given back
-- or lost.
abbrev pub Kept : {S : Type 0} → (Job → Bool) → Run S → Type 0
Kept p r =
    count p r.fetched
    ≡ in_fetcher p r.fetcher
      + (count p r.job_ch
          + (in_hands p r.hands
              + (count p r.finished + (count p r.returned_jobs + count p r.lost_jobs))))

count-append :
    (p : Job → Bool) (js : List Job) (j : Job) → count p (js ++ j ∷ []) ≡ count p js + one_if (p j)
count-append p [] j = omega arith
count-append p (x ∷ js) j = omega (arith, count-append p js j)

-- A worker changes what it holds.
in_hands-set_at :
    (p : Job → Bool) (i : ℕ) (h k : Hand) (hs : List Hand)
    → get_elem? hs i ≡ some h
    → in_hands p (set_at i k hs) + in_hand p h ≡ in_hands p hs + in_hand p k
in_hands-set_at p i h k [] e = absurd (cc)
in_hands-set_at p zero h k (x ∷ hs) e = let same : x ≡ h = cc in rw same (omega arith)
in_hands-set_at p (suc i) h k (x ∷ hs) e = omega (arith, in_hands-set_at p i h k hs e)

module _ {S : Type 0} (p : Job → Bool) where
  pub received-Kept :
      (i : ℕ) (js : List Job) (r : Run S)
      → get_elem? r.hands i ≡ some free
      → r.job_ch ≡ js
      → Kept p r
      → Kept p (received i js r)
  received-Kept i [] r e c h = h
  received-Kept i (j ∷ js) r e c h =
      let moved = in_hands-set_at p i free (busy j) r.hands e in
      let held : count p r.job_ch ≡ one_if (p j) + count p js = rw c refl in omega arith

  pub receive_in-Kept :
      (i : ℕ) (o : Option Hand) (r : Run S)
      → get_elem? r.hands i ≡ o
      → Kept p r
      → Kept p (receive_in i o r)
  receive_in-Kept i none r e h = h
  receive_in-Kept i (some free) r e h = received-Kept i r.job_ch r e refl h
  receive_in-Kept i (some (busy j)) r e h = h
  receive_in-Kept i (some gone) r e h = h

  pub leave_in-Kept :
      (i : ℕ) (o : Option Hand) (r : Run S)
      → get_elem? r.hands i ≡ o
      → Kept p r
      → Kept p (leave_in i o r)
  leave_in-Kept i none r e h = h
  leave_in-Kept i (some free) r e h =
      if_both (Kept p) (r.stopping || drained r.fetcher r.job_ch) _ _
        ((let left = in_hands-set_at p i free gone r.hands e in omega arith)) (h)
  leave_in-Kept i (some (busy j)) r e h = h
  leave_in-Kept i (some gone) r e h = h

  pub poll_in-Kept : (f : Fetcher) (r : Run S) → r.fetcher ≡ f → Kept p r → Kept p (poll_in f r)
  poll_in-Kept polling r e h = let held : in_fetcher p r.fetcher ≡ 0 = rw e refl in omega arith
  poll_in-Kept filling r e h = h
  poll_in-Kept (sending j) r e h = h
  poll_in-Kept returned r e h = h

  pub stop_in-Kept : (f : Fetcher) (r : Run S) → r.fetcher ≡ f → Kept p r → Kept p (stop_in f r)
  stop_in-Kept polling r e h =
      if_both (Kept p) r.stopping _ _
        ((let held : in_fetcher p r.fetcher ≡ 0 = rw e refl in omega arith)) (h)
  stop_in-Kept filling r e h = h
  stop_in-Kept (sending j) r e h = h
  stop_in-Kept returned r e h = h

  pub send_in-Kept : (f : Fetcher) (r : Run S) → r.fetcher ≡ f → Kept p r → Kept p (send_in f r)
  send_in-Kept (sending j) r e h =
      if_both (Kept p) (ltb_ℤ (pos (length r.job_ch)) r.pool.concurrency) _ _
        ((let held : in_fetcher p r.fetcher ≡ one_if (p j) = rw e refl in
          let sent = count-append p r.job_ch j in omega arith))
        (h)
  send_in-Kept polling r e h = h
  send_in-Kept filling r e h = h
  send_in-Kept returned r e h = h

  pub fetched_one-Kept :
      (o : Outcome Job × Pool S) (r : Run S)
      → r.fetcher ≡ filling
      → Kept p r
      → Kept p (fetched_one o r)
  fetched_one-Kept (ok j, q) r e h =
      let held : in_fetcher p r.fetcher ≡ 0 = rw e refl in
      let more = count-append p r.fetched j in omega arith
  fetched_one-Kept (err x, q) r e h =
      let held : in_fetcher p r.fetcher ≡ 0 = rw e refl in omega arith
  fetched_one-Kept (panic, q) r e h = h

  pub settle-Kept :
      (o : Outcome (Unit {0}) × Pool S) (f : Pool S → Run S) (r : Run S)
      → ((q : Pool S) → Kept p (f q))
      → Kept p r
      → Kept p (settle o f r)
  settle-Kept (ok a, q) f r k h = k q
  settle-Kept (err x, q) f r k h = k q
  settle-Kept (panic, q) f r k h = h

  pub finish_job-Kept :
      (i : ℕ) (j : Job) (r : Run S) (q : Pool S)
      → get_elem? r.hands i ≡ some (busy j)
      → Kept p r
      → Kept p (finish_job i j r q)
  finish_job-Kept i j r q e h =
      let out = in_hands-set_at p i (busy j) free r.hands e in
      let more = count-append p r.finished j in omega arith

  pub give_job_back-Kept :
      (j : Job) (o : Outcome (Unit {0}) × Pool S) (r : Run S)
      → r.fetcher ≡ sending j
      → Kept p r
      → Kept p (give_job_back j r o)
  give_job_back-Kept j (ok a, q) r e h =
      let held : in_fetcher p r.fetcher ≡ one_if (p j) = rw e refl in
      let more = count-append p r.returned_jobs j in omega arith
  give_job_back-Kept j (err x, q) r e h =
      let held : in_fetcher p r.fetcher ≡ one_if (p j) = rw e refl in
      let more = count-append p r.lost_jobs j in omega arith
  give_job_back-Kept j (panic, q) r e h = h
