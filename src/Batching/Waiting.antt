-- ===== src/Batching/Waiting.antt =====
-- Why no job of internal/features/batching.go is left waiting: while jobs of a type wait, a timer of
-- the type is armed or a call of processBatch has yet to take them.
use distributed_task_queue_s.Base.{
  ℕ, pos, ltb_ℤ, nat_eq, String, ◌==◌, true, false, not, ◌&&◌, if◌then◌else◌, ◌≡◌, refl, subst,
  eq_iff, sym, ap, ◌∙◌, ◌⊎◌, inl, inr, Option, none, some, Bool-cases, Option-cases, List, [], ◌∷◌,
  ◌++◌, length, get_elem?, lookup, insert,
}
use distributed_task_queue_s.Job.{Job}
use distributed_task_queue_s.Batching.{Batch, World}
use distributed_task_queue_s.Batching.Batches.{
  start_timer, hand_over_if_full, hand_over, arm, put_batch, timer_of, with_job, accept, add_job,
  take_batch, take_jobs, stopped,
}
use distributed_task_queue_s.Batching.Schedule.{remove_at}
use distributed_task_queue_s.Batching.Accounting.{jobs_in, waiting, found_waits, waiting-insert}
use distributed_task_queue_s.Batching.Places.{
  At, At-append_left, At-append_last, At-remove_at, At-select,
}

-- What keeps the jobs of a type from being forgotten.
pub data Alive {S : Type 0} (type : String) (w : World S) : Type 0 where
  idle : waiting type w.bp.batches ≡ [] → Alive type w
  called : At type w.starting → Alive type w
  armed : (n : ℕ) → At (type, n) w.timers → Alive type w

one_job :
    (j : Job) (b : Batch) (js : List Job)
    → js ≡ b.jobs
    → js ≡ []
    → nat_eq (length (with_job j b).jobs) 1 ≡ true
one_job j b js here e = rw (sym here ∙ e) refl

module _ {S : Type 0} where
  put-idle :
      (type k : String) (b : Batch) (w : World S)
      → (k == type) ≡ false
      → waiting type w.bp.batches ≡ []
      → waiting type (insert k b w.bp.batches) ≡ []
  put-idle type k b w f e = waiting-insert type k b w.bp.batches ∙ rw f e

  arm-Alive : (type k : String) (b : Batch) (w : World S) → Alive type w → Alive type (arm k b w)
  arm-Alive type k b w (idle e) = elim (Bool-cases (k == type)) [
    | inl f ↦
        rw ((eq_iff k type).0 f) (armed w.next_timer (At-append_last (type, w.next_timer) w.timers))
    | inr f ↦ idle (put-idle type k (record b { timer = some w.next_timer }) w f e)
  ]
  arm-Alive type k b w (called a) = called a
  arm-Alive type k b w (armed n a) = armed n (At-append_left (type, n) w.timers _ a)

  put-Alive :
      (type k : String) (b : Batch) (w : World S)
      → (waiting type w.bp.batches ≡ [] → (k == type) ≡ false)
      → Alive type w
      → Alive type (record w { bp = put_batch k b w.bp })
  put-Alive type k b w other (idle e) = idle (put-idle type k b w (other e) e)
  put-Alive type k b w other (called a) = called a
  put-Alive type k b w other (armed n a) = armed n a

  start_timer-Alive :
      (type k : String) (b : Batch) (w : World S)
      → (waiting type w.bp.batches ≡ [] → (k == type) ≡ true → nat_eq (length b.jobs) 1 ≡ true)
      → Alive type w
      → Alive type (start_timer k b w)
  unfolding start_timer
  start_timer-Alive type k b w first a = elim (Bool-cases (nat_eq (length b.jobs) 1)) [
    | inl e ↦ rw (e, start_timer) (arm-Alive type k b w a)
    | inr e ↦
        rw (e, start_timer)
          (put-Alive type k b w
            (λ none_wait. elim (Bool-cases (k == type)) [
              | inl f ↦ absurd (let g = first none_wait f in cc)
              | inr f ↦ f
            ])
            a)
  ]

  hand_over-Alive : (type k : String) (w : World S) → Alive type w → Alive type (hand_over k w)
  hand_over-Alive type k w (idle e) = idle e
  hand_over-Alive type k w (called a) = called (At-append_left type w.starting _ a)
  hand_over-Alive type k w (armed n a) = elim (Bool-cases (type == k)) [
    | inl f ↦ rw (← ((eq_iff type k).0 f)) (called (At-append_last type w.starting))
    | inr f ↦ armed n (unstopped (timer_of (lookup k w.bp.batches)) f)
  ]
    where
      unstopped : (o : Option ℕ) → (type == k) ≡ false → At (type, n) (stopped k o w.timers)
      unstopped none f = a
      unstopped (some m) f =
          At-select (λ (t : String × ℕ). not (t.0 == k && nat_eq t.1 m)) (type, n) w.timers
            (rw f refl) a

  hand_over_if_full-Alive :
      (type k : String) (n : ℕ) (w : World S) → Alive type w → Alive type (hand_over_if_full k n w)
  unfolding hand_over_if_full
  hand_over_if_full-Alive type k n w a = elim (Bool-cases (ltb_ℤ (pos n) w.bp.batch_size)) [
    | inl e ↦ rw (e, hand_over_if_full) a
    | inr e ↦ rw (e, hand_over_if_full) (hand_over-Alive type k w a)
  ]

  accept-Alive :
      (type : String) (j : Job) (b : Batch) (w : World S)
      → lookup j.type w.bp.batches ≡ some b
      → Alive type w
      → Alive type (accept j b w)
  unfolding accept
  accept-Alive type j b w here a =
      hand_over_if_full-Alive type j.type (length (with_job j b).jobs) _ (
        start_timer-Alive type j.type (with_job j b) (record w { accepted = w.accepted ++ j ∷ [] })
          (λ e f.
            one_job j b (waiting type w.bp.batches) (found_waits type j.type b w.bp.batches here f)
              e)
          (same_waits a))
    where
      same_waits : Alive type w → Alive type (record w { accepted = w.accepted ++ j ∷ [] })
      same_waits (idle e) = idle e
      same_waits (called c) = called c
      same_waits (armed n c) = armed n c

  pub add_job-Alive :
      (type : String) (j : Job) (w : World S) → Alive type w → Alive type (add_job j w)
  unfolding add_job
  add_job-Alive type j w a = elim (Option-cases (lookup j.type w.bp.batches)) [
    | inl e ↦ rw (e, add_job) a
    | inr (b, e) ↦ rw (e, add_job) (accept-Alive type j b w e a)
  ]

  -- What a call of processBatch that takes its batch changes.
  take_jobs_lem :
      (type k : String) (b : Batch) (js : List Job) (w : World S)
      → lookup k w.bp.batches ≡ some b
      → js ≡ b.jobs
      → (waiting type (take_jobs k b js w).bp.batches
          ≡ (if k == type then [] else waiting type w.bp.batches))
        × ((take_jobs k b js w).starting ≡ w.starting)
        × ((take_jobs k b js w).timers ≡ w.timers)
        × ((take_jobs k b js w).accepted ≡ w.accepted)
  take_jobs_lem type k b [] w here e = (
    elim (Bool-cases (k == type)) [
      | inl f ↦ rw f (found_waits type k b w.bp.batches here f ∙ sym e)
      | inr f ↦ rw f refl
    ],
    refl,
    refl,
    refl,
  )
  take_jobs_lem type k b (j ∷ js) w here e =
      (waiting-insert type k (record b { jobs = [] }) w.bp.batches, refl, refl, refl)

  pub take_batch_lem :
      (type k : String) (w : World S)
      → (waiting type (take_batch k w).bp.batches
          ≡ (if k == type then [] else waiting type w.bp.batches))
        × ((take_batch k w).starting ≡ w.starting)
        × ((take_batch k w).timers ≡ w.timers)
        × ((take_batch k w).accepted ≡ w.accepted)
  unfolding take_batch
  take_batch_lem type k w = elim (Option-cases (lookup k w.bp.batches)) [
    | inl e ↦
        rw (e, take_batch)
          (
            elim (Bool-cases (k == type)) [
              | inl f ↦
                  rw f
                    (ap jobs_in (subst (λ x. lookup x w.bp.batches ≡ none) ((eq_iff k type).0 f) e))
              | inr f ↦ rw f refl
            ],
            refl,
            refl,
            refl,
          )
    | inr (b, e) ↦ rw (e, take_batch) (take_jobs_lem type k b b.jobs w e refl)
  ]

  -- A call of processBatch goes: it has emptied its batch.
  pub called_took :
      (type k : String) (n : ℕ) (w : World S)
      → get_elem? w.starting n ≡ some k
      → Alive type w
      → Alive type (take_batch k (record w { starting = remove_at n w.starting }))
  called_took type k n w here a =
      let w1 : World S = record w { starting = remove_at n w.starting } in
      let (e1, e2, e3, e4) = take_batch_lem type k w1 in
      elim (Bool-cases (k == type)) [ inl f ↦ idle (e1 ∙ rw f refl) | inr f ↦ others e1 e2 e3 f a ]
    where
      still :
          (k == type) ≡ false
          → At type (remove_at n w.starting) ⊎ (get_elem? w.starting n ≡ some type)
          → At type (remove_at n w.starting)
      still f (inl m) = m
      still f (inr e) = absurd (let g : k ≡ type = cc in let h = (eq_iff k type).1 g in cc)

      others :
          waiting type (take_batch k (record w { starting = remove_at n w.starting })).bp.batches
            ≡ (if k == type then [] else waiting type w.bp.batches)
          → (take_batch k (record w { starting = remove_at n w.starting })).starting
            ≡ remove_at n w.starting
          → (take_batch k (record w { starting = remove_at n w.starting })).timers ≡ w.timers
          → (k == type) ≡ false
          → Alive type w
          → Alive type (take_batch k (record w { starting = remove_at n w.starting }))
      others e1 e2 e3 f (idle e) = idle (e1 ∙ rw f e)
      others e1 e2 e3 f (called m) = called (rw e2 (still f (At-remove_at type n w.starting m)))
      others e1 e2 e3 f (armed l m) = armed l (rw e3 m)
