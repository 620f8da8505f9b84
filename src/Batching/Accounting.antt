-- ===== src/Batching/Accounting.antt =====
-- Which jobs internal/features/batching.go has handed over and which still wait.
use mathlib.Core.List.{append-nil, append_assoc}
use distributed_task_queue_s.Base.{
  ℕ, pos, ltb_ℤ, nat_eq, String, ◌==◌, true, if◌then◌else◌, ◌≡◌, refl, subst, eq_iff, sym, ap, ◌∙◌,
  inl, inr, Option, none, some, Bool-cases, Option-cases, List, [], ◌∷◌, ◌++◌, length, select,
  get_elem?, Dict, lookup, insert, lookup-insert, arith,
}
use distributed_task_queue_s.Job.{Job}
use distributed_task_queue_s.Manager.Storage.{Storage}
use distributed_task_queue_s.Batching.{Batch, Flight, World}
use distributed_task_queue_s.Batching.Batches.{
  start_timer, hand_over_if_full, with_job, accept, add_job, take_batch, take_jobs, finish_batch,
}
use distributed_task_queue_s.Batching.Schedule.{
  Event, add, fire, take, finish, stop, happen, happen_all, fired, took, finished, remove_at,
}

abbrev pub jobs_in : Option Batch → List Job
jobs_in none = []
jobs_in (some b) = b.jobs

-- The jobs of a type that wait, those that were handed over, and those that came in.
abbrev pub waiting : String → Dict Batch → List Job
waiting type ds = jobs_in (lookup type ds)

abbrev pub handed_jobs : String → List (String × List Job) → List Job
handed_jobs type [] = []
handed_jobs type ((k, js) ∷ rest) =
    let others = handed_jobs type rest in if k == type then js ++ others else others

abbrev pub of_type : String → List Job → List Job
of_type type js = select (λ j. j.type == type) js

-- Every job of the type that came in was handed over once or waits, in the order of arrival.
abbrev pub Accounted : {S : Type 0} → String → World S → Type 0
Accounted type w = handed_jobs type w.handed ++ waiting type w.bp.batches ≡ of_type type w.accepted

pub waiting-insert :
    (type k : String) (b : Batch) (ds : Dict Batch)
    → waiting type (insert k b ds) ≡ (if k == type then b.jobs else waiting type ds)
waiting-insert type k b ds = ground (arith, lookup-insert k type b ds)

of_type-append :
    (type : String) (js : List Job) (j : Job)
    → of_type type (js ++ j ∷ []) ≡ of_type type js ++ (if j.type == type then j ∷ [] else [])
of_type-append type [] j = refl
of_type-append type (x ∷ js) j = ground (arith, of_type-append type js j)

handed_jobs-append :
    (type k : String) (hs : List (String × List Job)) (js : List Job)
    → handed_jobs type (hs ++ (k, js) ∷ []) ≡ handed_jobs type hs ++ (if k == type then js else [])
handed_jobs-append type k [] js = elim (Bool-cases (k == type)) [
  | inl e ↦ rw e (append-nil js)
  | inr e ↦ rw e
]
handed_jobs-append type k ((l, x) ∷ hs) js = elim (Bool-cases (l == type)) [
  | inl e ↦ rw e (ap (◌++◌ x) (handed_jobs-append type k hs js) ∙ sym (append_assoc x _ _))
  | inr e ↦ rw e (handed_jobs-append type k hs js)
]

-- One job comes in, and waits.
joined :
    (type : String) (j : Job) (b : Batch) (hs acc js : List Job)
    → hs ++ js ≡ acc
    → ((j.type == type) ≡ true → js ≡ b.jobs)
    → hs ++ (if j.type == type then b.jobs ++ j ∷ [] else js)
      ≡ acc ++ (if j.type == type then j ∷ [] else [])
joined type j b hs acc js h same = elim (Bool-cases (j.type == type)) [
  | inl e ↦ rw e (rw (← (same e)) (sym (append_assoc hs js (j ∷ [])) ∙ ap (λ x. x ++ j ∷ []) h))
  | inr e ↦ rw e (h ∙ sym (append-nil acc))
]

-- What waits in the batch that is found.
pub found_waits :
    (type k : String) (b : Batch) (ds : Dict Batch)
    → lookup k ds ≡ some b
    → (k == type) ≡ true
    → waiting type ds ≡ b.jobs
found_waits type k b ds here e =
    ap jobs_in (subst (λ x. lookup x ds ≡ some b) ((eq_iff k type).0 e) here)

-- A whole batch is handed over.
moved :
    (type k : String) (b : Batch) (hs acc js : List Job)
    → hs ++ js ≡ acc
    → ((k == type) ≡ true → js ≡ b.jobs)
    → (hs ++ (if k == type then b.jobs else [])) ++ (if k == type then [] else js) ≡ acc
moved type k b hs acc js h same = elim (Bool-cases (k == type)) [
  | inl e ↦ rw e (rw (← (same e)) (append-nil (hs ++ js) ∙ h))
  | inr e ↦ rw e (ap (λ x. x ++ js) (append-nil hs) ∙ h)
]

module _ {S : Type 0} where
  pub start_timer_lem :
      (type k : String) (b : Batch) (w : World S)
      → (waiting type (start_timer k b w).bp.batches
          ≡ (if k == type then b.jobs else waiting type w.bp.batches))
        × ((start_timer k b w).handed ≡ w.handed)
        × ((start_timer k b w).accepted ≡ w.accepted)
  unfolding start_timer
  start_timer_lem type k b w = elim (Bool-cases (nat_eq (length b.jobs) 1)) [
    | inl e ↦ rw (e, start_timer) (waiting-insert type k _ w.bp.batches, refl, refl)
    | inr e ↦ rw (e, start_timer) (waiting-insert type k b w.bp.batches, refl, refl)
  ]

  pub hand_over_if_full_lem :
      (type k : String) (n : ℕ) (w : World S)
      → (waiting type (hand_over_if_full k n w).bp.batches ≡ waiting type w.bp.batches)
        × ((hand_over_if_full k n w).handed ≡ w.handed)
        × ((hand_over_if_full k n w).accepted ≡ w.accepted)
  unfolding hand_over_if_full
  hand_over_if_full_lem type k n w = elim (Bool-cases (ltb_ℤ (pos n) w.bp.batch_size)) [
    | inl e ↦ rw (e, hand_over_if_full) (refl, refl, refl)
    | inr e ↦ rw (e, hand_over_if_full) (refl, refl, refl)
  ]

  accept-Accounted :
      (type : String) (j : Job) (b : Batch) (w : World S)
      → lookup j.type w.bp.batches ≡ some b
      → Accounted type w
      → Accounted type (accept j b w)
  unfolding accept
  accept-Accounted type j b w here h =
      let w1 : World S = record w { accepted = w.accepted ++ j ∷ [] } in
      let (a1, a2, a3) = start_timer_lem type j.type (with_job j b) w1 in
      let (b1, b2, b3) =
        hand_over_if_full_lem type j.type (length (with_job j b).jobs)
          (start_timer j.type (with_job j b) w1) in
      rw (b2 ∙ a2, b1 ∙ a1, b3 ∙ a3)
        (joined type j b (handed_jobs type w.handed) (of_type type w.accepted)
            (waiting type w.bp.batches) h (found_waits type j.type b w.bp.batches here)
          ∙ sym (of_type-append type w.accepted j))

  add_job-Accounted :
      (type : String) (j : Job) (w : World S) → Accounted type w → Accounted type (add_job j w)
  unfolding add_job
  add_job-Accounted type j w h = elim (Option-cases (lookup j.type w.bp.batches)) [
    | inl e ↦ rw (e, add_job) h
    | inr (b, e) ↦ rw (e, add_job) (accept-Accounted type j b w e h)
  ]

  take_jobs-Accounted :
      (type k : String) (b : Batch) (js : List Job) (w : World S)
      → lookup k w.bp.batches ≡ some b
      → Accounted type w
      → Accounted type (take_jobs k b js w)
  take_jobs-Accounted type k b [] w here h = h
  take_jobs-Accounted type k b (j ∷ js) w here h =
      rw
        (
          handed_jobs-append type k w.handed b.jobs,
          waiting-insert type k (record b { jobs = [] }) w.bp.batches,
        )
        (moved type k b (handed_jobs type w.handed) (of_type type w.accepted)
          (waiting type w.bp.batches) h (found_waits type k b w.bp.batches here))

  take_batch-Accounted :
      (type k : String) (w : World S) → Accounted type w → Accounted type (take_batch k w)
  unfolding take_batch
  take_batch-Accounted type k w h = elim (Option-cases (lookup k w.bp.batches)) [
    | inl e ↦ rw (e, take_batch) h
    | inr (b, e) ↦ rw (e, take_batch) (take_jobs-Accounted type k b b.jobs w e h)
  ]

module _ {S : Type 0} (st : Storage S) where
  fired-Accounted :
      (type : String) (k : ℕ) (w : World S) (o : Option (String × ℕ))
      → Accounted type w
      → Accounted type (fired st k w o)
  fired-Accounted type k w none h = h
  fired-Accounted type k w (some (t, n)) h = h

  took-Accounted :
      (type : String) (k : ℕ) (w : World S) (o : Option String)
      → Accounted type w
      → Accounted type (took st k w o)
  took-Accounted type k w none h = h
  took-Accounted type k w (some t) h =
      take_batch-Accounted type t (record w { starting = remove_at k w.starting }) h

  finished-Accounted :
      (type : String) (k : ℕ) (w : World S) (o : Option Flight)
      → Accounted type w
      → Accounted type (finished st k w o)
  unfolding finish_batch
  finished-Accounted type k w none h = h
  finished-Accounted type k w (some f) h = h

  pub happen-Accounted :
      (type : String) (e : Event) (w : World S) → Accounted type w → Accounted type (happen st e w)
  unfolding happen
  happen-Accounted type (add j) w h = add_job-Accounted type j w h
  happen-Accounted type (fire k) w h = fired-Accounted type k w (get_elem? w.timers k) h
  happen-Accounted type (take k) w h = took-Accounted type k w (get_elem? w.starting k) h
  happen-Accounted type (finish k) w h = finished-Accounted type k w (get_elem? w.flying k) h
  happen-Accounted type stop w h = h

  -- Whatever jobs are added and in whatever order timers fire, calls of processBatch take their batch
  -- and batches are processed, the jobs of a type that were accepted are those handed over, each
  -- once, followed by those that wait, all in their order of arrival; no handler is registered
  -- meanwhile.
  pub happen_all-Accounted :
      (type : String) (es : List Event) (w : World S)
      → Accounted type w
      → Accounted type (happen_all st es w)
  unfolding happen_all
  happen_all-Accounted type [] w h = h
  happen_all-Accounted type (e ∷ es) w h =
      happen_all-Accounted type es (happen st e w) (happen-Accounted type e w h)
