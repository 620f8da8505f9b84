-- ===== src/Pool/Holding.antt =====
-- How many jobs the goroutines of internal/worker/pool.go hold at a time.
use distributed_task_queue_s.Base.{
  ℕ, zero, suc, pos, Bool, true, ◌≡◌, refl, ap, ◌+◌, ◌*◌, ◌≤◌, List, [], ◌∷◌, length, arith,
}
use distributed_task_queue_s.Job.{Job}
use distributed_task_queue_s.Manager.Storage.{Storage}
use distributed_task_queue_s.Pool.Setup.{Pool}
use distributed_task_queue_s.Pool.Loops.{
  Fetcher, polling, filling, sending, returned, Hand, free, busy, gone, Event, moves, started,
  free_hands,
}
use distributed_task_queue_s.Pool.Custody.{count, in_hands, in_fetcher, Kept}
use distributed_task_queue_s.Pool.Conservation.{moves-Kept_in}
use distributed_task_queue_s.Pool.Crew.{moves-Within}

length-free_hands : (n : ℕ) → length (free_hands n) ≡ n
length-free_hands zero = refl
length-free_hands (suc n) = ap suc (length-free_hands n)

count_all : (js : List Job) → count (λ j. true) js ≡ length js
count_all [] = refl
count_all (j ∷ js) = omega (arith, count_all js)

in_hands_all-le : (hs : List Hand) → in_hands (λ j. true) hs ≤ length hs
in_hands_all-le [] = omega arith
in_hands_all-le (free ∷ hs) = omega (arith, in_hands_all-le hs)
in_hands_all-le (busy j ∷ hs) = omega (arith, in_hands_all-le hs)
in_hands_all-le (gone ∷ hs) = omega (arith, in_hands_all-le hs)

in_fetcher_all-le : (f : Fetcher) → in_fetcher (λ j. true) f ≤ 1
in_fetcher_all-le polling = omega arith
in_fetcher_all-le filling = omega arith
in_fetcher_all-le (sending j) = omega arith
in_fetcher_all-le returned = omega arith

free_hands_none : (p : Job → Bool) (n : ℕ) → in_hands p (free_hands n) ≡ 0
free_hands_none p zero = refl
free_hands_none p (suc n) = omega (arith, free_hands_none p n)

pub started-Kept : {S : Type 0} (p : Job → Bool) (q : Pool S) (n : ℕ) → Kept p (started q n)
unfolding started
started-Kept p q n = omega (arith, free_hands_none p n)

-- A pool with n worker loops, once started, has at any time in any run taken at most 2n + 1 jobs out
-- of the queues that are neither finished nor given back nor lost by a failed Requeue: n in the channel, one in each worker loop,
-- and one that is about to be sent.
pub moves-le :
    {S : Type 0} (st : Storage S) (n : ℕ) (q : Pool S) (es : List Event)
    → q.concurrency ≡ pos n
    → length (moves st es (started q n)).fetched
      ≤ length (moves st es (started q n)).finished
        + (length (moves st es (started q n)).returned_jobs
            + (length (moves st es (started q n)).lost_jobs + (2 * n + 1)))
unfolding started
moves-le st n q es c =
    let r = moves st es (started q n) in
    let kept = moves-Kept_in st (λ j. true) es (started q n) (started-Kept (λ j. true) q n) in
    let w =
      moves-Within st n es (started q n)
        (record { capacity = c; buffer = omega arith; crew = length-free_hands n }) in
    let b = w.buffer in
    let h = w.crew in
    omega (
      arith,
      count_all r.fetched,
      count_all r.finished,
      count_all r.returned_jobs,
      count_all r.lost_jobs,
      count_all r.job_ch,
      in_hands_all-le r.hands,
      in_fetcher_all-le r.fetcher,
    )
