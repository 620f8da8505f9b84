-- ===== src/Batching/Draining.antt =====
-- Every job that internal/features/batching.go accepts is handed over in the end.
use mathlib.Core.List.{append-nil}
use distributed_task_queue_s.Base.{
  ℕ, String, ◌≡◌, refl, sym, ap, subst, ◌∙◌, eq_refl, inl, inr, Option, none, some, List, [], ◌∷◌,
  ◌++◌, All, get_elem?,
}
use distributed_task_queue_s.Manager.Storage.{Storage}
use distributed_task_queue_s.Batching.{Flight, World}
use distributed_task_queue_s.Batching.Batches.{take_batch, finish_batch}
use distributed_task_queue_s.Batching.Schedule.{
  Event, add, fire, take, finish, stop, happen, happen_all, fired, took, finished, remove_at,
}
use distributed_task_queue_s.Batching.Accounting.{
  waiting, handed_jobs, of_type, Accounted, happen_all-Accounted, happen-Accounted,
}
use distributed_task_queue_s.Batching.Places.{At, At-append_left, At-append_last, At-remove_at}
use distributed_task_queue_s.Batching.Waiting.{
  Alive, idle, called, armed, add_job-Alive, take_batch_lem, called_took,
}

-- A timer fires, or a call of processBatch takes its batch.
abbrev pub IsMove : Event → Type 0
IsMove (fire k) = Unit
IsMove (take k) = Unit
IsMove (add j) = ⊥
IsMove (finish k) = ⊥
IsMove stop = ⊥

-- Timers and calls of processBatch can move so that every accepted job of the type is handed over.
abbrev pub Drains : {S : Type 0} → Storage S → String → World S → Type 0
Drains st type w =
    (rest : List Event) × All IsMove rest
    × (waiting type (happen_all st rest w).bp.batches ≡ [])
    × (handed_jobs type (happen_all st rest w).handed ≡ of_type type w.accepted)

module _ {S : Type 0} (st : Storage S) where
  fired-Alive :
      (type : String) (k : ℕ) (w : World S) (o : Option (String × ℕ))
      → get_elem? w.timers k ≡ o
      → Alive type w
      → Alive type (fired st k w o)
  fired-Alive type k w none here a = a
  fired-Alive type k w (some (t, n)) here (idle e) = idle e
  fired-Alive type k w (some (t, n)) here (called m) = called (At-append_left type w.starting _ m)
  fired-Alive type k w (some (t, n)) here (armed l m) = elim (At-remove_at (type, l) k w.timers m) [
    | inl m' ↦ armed l m'
    | inr e ↦ let same : t ≡ type = cc in rw same (called (At-append_last type w.starting))
  ]

  took-Alive :
      (type : String) (k : ℕ) (w : World S) (o : Option String)
      → get_elem? w.starting k ≡ o
      → Alive type w
      → Alive type (took st k w o)
  took-Alive type k w none here a = a
  took-Alive type k w (some t) here a = called_took type t k w here a

  finished-Alive :
      (type : String) (k : ℕ) (w : World S) (o : Option Flight)
      → Alive type w
      → Alive type (finished st k w o)
  unfolding finish_batch
  finished-Alive type k w none a = a
  finished-Alive type k w (some f) (idle e) = idle e
  finished-Alive type k w (some f) (called m) = called m
  finished-Alive type k w (some f) (armed n m) = armed n m

  happen-Alive :
      (type : String) (e : Event) (w : World S) → Alive type w → Alive type (happen st e w)
  unfolding happen
  happen-Alive type (add j) w a = add_job-Alive type j w a
  happen-Alive type (fire k) w a = fired-Alive type k w (get_elem? w.timers k) refl a
  happen-Alive type (take k) w a = took-Alive type k w (get_elem? w.starting k) refl a
  happen-Alive type (finish k) w a = finished-Alive type k w (get_elem? w.flying k) a
  happen-Alive type stop w (idle e) = idle e
  happen-Alive type stop w (called m) = called (At-append_left type w.starting _ m)
  happen-Alive type stop w (armed n m) = armed n m

  happen_all-Alive :
      (type : String) (es : List Event) (w : World S)
      → Alive type w
      → Alive type (happen_all st es w)
  unfolding happen_all
  happen_all-Alive type [] w a = a
  happen_all-Alive type (e ∷ es) w a =
      happen_all-Alive type es (happen st e w) (happen-Alive type e w a)

  -- What was not waiting was handed over.
  all_handed :
      (type : String) (w : World S)
      → waiting type w.bp.batches ≡ []
      → Accounted type w
      → handed_jobs type w.handed ≡ of_type type w.accepted
  all_handed type w e h =
      sym (append-nil (handed_jobs type w.handed))
      ∙ ap (λ x. handed_jobs type w.handed ++ x) (sym e)
      ∙ h

  called-Drains :
      (type : String) (w : World S) → At type w.starting → Accounted type w → Drains st type w
  unfolding happen_all happen
  called-Drains type w (k, e) h =
      let w1 : World S = record w { starting = remove_at k w.starting } in
      let (e1, e2, e3, e4) = take_batch_lem type type w1 in
      let step : happen_all st (take k ∷ []) w ≡ take_batch type w1 = ap (took st k w) e in
      let gone : waiting type (take_batch type w1).bp.batches ≡ [] = e1 ∙ rw (eq_refl type) refl in
      let kept : Accounted type (happen_all st (take k ∷ []) w) =
        happen-Accounted st type (take k) w h in
      (
        take k ∷ [],
        (tt, tt),
        rw step gone,
        rw step (
            all_handed type (take_batch type w1) gone (subst (Accounted type) step kept)
            ∙ ap (of_type type) e4),
      )

  armed-Drains :
      (type : String) (n : ℕ) (w : World S)
      → At (type, n) w.timers
      → Accounted type w
      → Drains st type w
  unfolding happen_all happen
  armed-Drains type n w (k, e) h =
      let step : happen st (fire k) w ≡ fired st k w (some (type, n)) = ap (fired st k w) e in
      let (rest, moves, gone, done) =
        called-Drains type (fired st k w (some (type, n))) (At-append_last type w.starting) h in
      (
        fire k ∷ rest,
        (tt, moves),
        subst (λ v. waiting type (happen_all st rest v).bp.batches ≡ []) (sym step) gone,
        subst (λ v. handed_jobs type (happen_all st rest v).handed ≡ of_type type w.accepted)
            (sym step) done,
      )

  -- After any run from a world where no job of a type waits and all that came in are accounted for,
  -- some sequence of armed timers firing and pending calls of processBatch taking their batch, without
  -- a further AddJob or Stop, leaves no job of the type waiting, and every job of the type accepted up
  -- to then has been handed over, once and in the order of arrival.
  pub happen_all-Drains :
      (type : String) (es : List Event) (w : World S)
      → waiting type w.bp.batches ≡ []
      → Accounted type w
      → Drains st type (happen_all st es w)
  happen_all-Drains type es w e h = by_case (happen_all-Alive type es w (idle e))
    where
      h2 : Accounted type (happen_all st es w)
      h2 = happen_all-Accounted st type es w h

      by_case : Alive type (happen_all st es w) → Drains st type (happen_all st es w)
      by_case (idle f) = (
        [],
        tt,
        unfold happen_all in f,
        unfold happen_all in all_handed type (happen_all st es w) f h2,
      )
      by_case (called m) = called-Drains type (happen_all st es w) m h2
      by_case (armed n m) = armed-Drains type n (happen_all st es w) m h2
