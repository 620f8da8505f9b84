-- ===== src/Pool/Crew.antt =====
-- The channel and the worker loops of internal/worker/pool.go keep their sizes.
use distributed_task_queue_s.Base.{
  ℕ, zero, suc, ℤ, pos, ltb_ℤ, ltb_ℤ→lt, true, ◌||◌, if◌then◌else◌, ◌≡◌, refl, subst, ◌<ℤ◌, ◌∙◌,
  ◌+◌, ◌≤◌, if_both, if_cases, Option, none, some, List, [], ◌∷◌, length, length-append, get_elem?,
  Outcome, ok, err, panic, arith, resume, give,
}
use distributed_task_queue_s.Job.{Job, Time}
use distributed_task_queue_s.Manager.{call}
use distributed_task_queue_s.Manager.Storage.{Storage}
use distributed_task_queue_s.Manager.Jobs.{dequeue, requeue}
use distributed_task_queue_s.Pool.Running.{process_job}
use distributed_task_queue_s.Pool.Setup.{Pool, manage, beat}
use distributed_task_queue_s.Pool.Loops.{
  Fetcher, polling, filling, sending, returned, Hand, free, busy, gone, Run, Event, close_stop,
  poll, send, fetcher_stops, beat_stops, fetch, give_back, receive, leave, process, beats, set_at,
  received, receive_in, leave_in, poll_in, stop_in, send_in, fetched_one, settle, finish_job,
  give_job_back, fetch_in, give_back_from, process_in, move, moves, drained,
}

-- The channel holds at most `concurrency` jobs, and there are as many worker loops.
pub record Within {S : Type 0} (n : ℕ) (r : Run S) : Type 0 where
  pub capacity : r.pool.concurrency ≡ pos n
  pub buffer : length r.job_ch ≤ n
  pub crew : length r.hands ≡ n

length-set_at {ℓ} : {A : Type ℓ} (i : ℕ) (x : A) (ys : List A) → length (set_at i x ys) ≡ length ys
length-set_at i x [] = refl
length-set_at zero x (y ∷ ys) = refl
length-set_at (suc i) x (y ∷ ys) = omega (arith, length-set_at i x ys)

room : (n k : ℕ) (c : ℤ) → c ≡ pos n → ltb_ℤ (pos k) c ≡ true → k + 1 ≤ n
room n k c e b = let l = subst (λ x. pos k <ℤ x) e (ltb_ℤ→lt (pos k) c b) in omega arith

module _ {S : Type 0} (n : ℕ) where
  with_hand :
      (i : ℕ) (h : Hand) (r : Run S)
      → Within n r
      → Within n (record r { hands = set_at i h r.hands })
  with_hand i h r w = record {
    capacity = w.capacity;
    buffer = w.buffer;
    crew = length-set_at i h r.hands ∙ w.crew;
  }

  received-Within :
      (i : ℕ) (js : List Job) (r : Run S) → r.job_ch ≡ js → Within n r → Within n (received i js r)
  received-Within i [] r e w = w
  received-Within i (j ∷ js) r e w = record {
    capacity = w.capacity;
    buffer =
        let b = w.buffer in let l : length r.job_ch ≡ suc (length js) = rw e refl in omega arith;
    crew = length-set_at i (busy j) r.hands ∙ w.crew;
  }

  receive_in-Within :
      (i : ℕ) (o : Option Hand) (r : Run S) → Within n r → Within n (receive_in i o r)
  receive_in-Within i none r w = w
  receive_in-Within i (some free) r w = received-Within i r.job_ch r refl w
  receive_in-Within i (some (busy j)) r w = w
  receive_in-Within i (some gone) r w = w

  leave_in-Within : (i : ℕ) (o : Option Hand) (r : Run S) → Within n r → Within n (leave_in i o r)
  leave_in-Within i none r w = w
  leave_in-Within i (some free) r w =
      if_both (Within n) (r.stopping || drained r.fetcher r.job_ch) _ _ (with_hand i gone r w) w
  leave_in-Within i (some (busy j)) r w = w
  leave_in-Within i (some gone) r w = w

  same :
      {r t : Run S}
      → t.pool.concurrency ≡ r.pool.concurrency
      → t.job_ch ≡ r.job_ch
      → t.hands ≡ r.hands
      → Within n r
      → Within n t
  same c j h w = record { capacity = c ∙ w.capacity; buffer = rw j w.buffer; crew = rw h w.crew }

  poll_in-Within : (f : Fetcher) (r : Run S) → Within n r → Within n (poll_in f r)
  poll_in-Within polling r w = same refl refl refl w
  poll_in-Within filling r w = w
  poll_in-Within (sending j) r w = w
  poll_in-Within returned r w = w

  stop_in-Within : (f : Fetcher) (r : Run S) → Within n r → Within n (stop_in f r)
  stop_in-Within polling r w = if_both (Within n) r.stopping _ _ (same refl refl refl w) w
  stop_in-Within filling r w = w
  stop_in-Within (sending j) r w = w
  stop_in-Within returned r w = w

  send_in-Within : (f : Fetcher) (r : Run S) → Within n r → Within n (send_in f r)
  send_in-Within (sending j) r w =
      if_cases (Within n) (ltb_ℤ (pos (length r.job_ch)) r.pool.concurrency) _ _
        (λ b. record {
          capacity = w.capacity;
          buffer =
              let more = room n (length r.job_ch) r.pool.concurrency w.capacity b in
              omega (arith, length-append r.job_ch (j ∷ []));
          crew = w.crew;
        })
        (λ b. w)
  send_in-Within polling r w = w
  send_in-Within filling r w = w
  send_in-Within returned r w = w

  fetched_one-Within :
      (o : Outcome Job × Pool S) (r : Run S)
      → o.1.concurrency ≡ r.pool.concurrency
      → Within n r
      → Within n (fetched_one o r)
  fetched_one-Within (ok j, q) r e w = same e refl refl w
  fetched_one-Within (err x, q) r e w = same e refl refl w
  fetched_one-Within (panic, q) r e w = same e refl refl w

  settle-Within :
      (o : Outcome (Unit {0}) × Pool S) (f : Pool S → Run S) (r : Run S)
      → o.1.concurrency ≡ r.pool.concurrency
      → ((q : Pool S) → q.concurrency ≡ r.pool.concurrency → Within n (f q))
      → Within n r
      → Within n (settle o f r)
  settle-Within (ok a, q) f r e k w = k q e
  settle-Within (err x, q) f r e k w = k q e
  settle-Within (panic, q) f r e k w = same e refl refl w

  give_job_back-Within :
      (j : Job) (o : Outcome (Unit {0}) × Pool S) (r : Run S)
      → o.1.concurrency ≡ r.pool.concurrency
      → Within n r
      → Within n (give_job_back j r o)
  give_job_back-Within j (ok a, q) r e w = same e refl refl w
  give_job_back-Within j (err x, q) r e w = same e refl refl w
  give_job_back-Within j (panic, q) r e w = same e refl refl w

module _ {S : Type 0} (st : Storage S) (n : ℕ) where
  fetch_in-Within :
      (f : Fetcher) (intn : ℕ → ℕ) (now : ℕ → Time) (r : Run S)
      → Within n r
      → Within n (fetch_in st f intn now r)
  fetch_in-Within filling intn now r w =
      if_both (Within n) (ltb_ℤ (pos (length r.job_ch)) r.pool.concurrency) _ _
        (fetched_one-Within n (manage (dequeue st intn r.pool.queues now) r.pool) r refl w)
        (same n refl refl refl w)
  fetch_in-Within polling intn now r w = w
  fetch_in-Within (sending j) intn now r w = w
  fetch_in-Within returned intn now r w = w

  give_back_from-Within :
      (f : Fetcher) (now : Time) (r : Run S) → Within n r → Within n (give_back_from st f now r)
  give_back_from-Within (sending j) now r w =
      if_both (Within n) r.stopping _ _
        (give_job_back-Within n j (manage (requeue st j (pos 0) now) r.pool) r refl w) w
  give_back_from-Within polling now r w = w
  give_back_from-Within filling now r w = w
  give_back_from-Within returned now r w = w

  process_in-Within :
      (i : ℕ) (now : ℕ → Time) (o : Option Hand) (r : Run S)
      → Within n r
      → Within n (process_in st i now o r)
  process_in-Within i now none r w = w
  process_in-Within i now (some (busy j)) r w =
      settle-Within n (manage (process_job st r.pool.worker.id r.pool.handlers j now) r.pool)
        (finish_job i j r) r refl
        (λ q e. record {
          capacity = e ∙ w.capacity;
          buffer = w.buffer;
          crew = length-set_at i free r.hands ∙ w.crew;
        })
        w
  process_in-Within i now (some free) r w = w
  process_in-Within i now (some gone) r w = w

  beat_same : (now : Time) (p : Pool S) → (beat st now p).1.concurrency ≡ p.concurrency
  unfolding beat
  beat_same now p = logged (st.update_heartbeat p.worker.id now p.queue_manager.storage).0
    where
      logged :
          (o : Outcome (Unit {0}))
          → (resume
              (λ _. give tt)
              (λ _. give tt)
              o
              (manage (call (st.update_heartbeat p.worker.id now)) p).1).1.concurrency
            ≡ p.concurrency
      logged (ok a) = refl
      logged (err e) = refl
      logged panic = refl

  move-Within : (e : Event) (r : Run S) → Within n r → Within n (move st e r)
  unfolding move
  move-Within close_stop r w = same n refl refl refl w
  move-Within poll r w = poll_in-Within n r.fetcher r w
  move-Within send r w = send_in-Within n r.fetcher r w
  move-Within fetcher_stops r w = stop_in-Within n r.fetcher r w
  move-Within beat_stops r w = if_both (Within n) r.stopping _ _ (same n refl refl refl w) w
  move-Within (fetch intn now) r w = fetch_in-Within r.fetcher intn now r w
  move-Within (give_back now) r w = give_back_from-Within r.fetcher now r w
  move-Within (receive i) r w = receive_in-Within n i (get_elem? r.hands i) r w
  move-Within (leave i) r w = leave_in-Within n i (get_elem? r.hands i) r w
  move-Within (process i now) r w = process_in-Within i now (get_elem? r.hands i) r w
  move-Within (beats now) r w =
      if_both (Within n) r.beating _ _
        (settle-Within n (beat st now r.pool) (λ p. record r { pool = p }) r (beat_same now r.pool)
          (λ q e. same n e refl refl w) w)
        w

  pub moves-Within : (es : List Event) (r : Run S) → Within n r → Within n (moves st es r)
  unfolding moves
  moves-Within [] r w = w
  moves-Within (e ∷ es) r w =
      moves-Within es (if r.ended then r else move st e r)
        (if_both (Within n) r.ended r (move st e r) w (move-Within e r w))
