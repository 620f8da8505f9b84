-- ===== src/Api/Paths.antt =====
-- Slices of the request's path, the calls of the manager and of the scheduler, and the answers, in
-- internal/api/http/server.go.
use Prim.Native.String.{◌++◌ as append, len, slice}
use text.Mathlib.TextPositions.{slice-append_left, slice-append_right, len-append}
use distributed_task_queue_s.Base.{
  ℕ, ◌-◌, ◌+◌, ltb, String, false, if◌then◌else◌, ◌≡◌, ap, ◌∙◌, Outcome, ok, err, panic, Method,
  give, arith,
}
use distributed_task_queue_s.Manager.{Manager}
use distributed_task_queue_s.Recurring.{Scheduler}
use distributed_task_queue_s.Api.{Server, Response, Body, error_body}

-- `s[k:]` and `s[:len(s)-k]`, which panic out of range.
abbrev pub from_index : ℕ → String → Outcome String
from_index k s = if ltb (len s) k then panic else ok (slice s k (len s))

abbrev pub without_last : ℕ → String → Outcome String
without_last k s = if ltb (len s) k then panic else ok (slice s 0 (len s - k))

abbrev pub then_cut : ℕ → Outcome String → Outcome String
then_cut k (ok s) = without_last k s
then_cut k (err e) = err e
then_cut k panic = panic

-- `r.URL.Path[len(prefix):]`, and the same less a suffix.
unfoldable pub after_prefix : String → String → Outcome String
after_prefix prefix path = from_index (len prefix) path

unfoldable pub between : String → String → String → Outcome String
unfolding after_prefix
between prefix suffix path = then_cut (len suffix) (after_prefix prefix path)

module _ {S : Type 0} where
  abbrev pub manager_back : {A : Type 0} → Server S → Outcome A × Manager S → Outcome A × Server S
  manager_back g (o, m) = (o, record g { scheduler = record g.scheduler { manager = m } })

  abbrev pub managed : {A : Type 0} → Method (Manager S) A → Method (Server S) A
  managed op g = manager_back g (op g.scheduler.manager)

  abbrev pub scheduler_back :
      {A : Type 0} → Server S → Outcome A × Scheduler S → Outcome A × Server S
  scheduler_back g (o, s) = (o, record g { scheduler = s })

  abbrev pub scheduled : {A : Type 0} → Method (Scheduler S) A → Method (Server S) A
  scheduled op g = scheduler_back g (op g.scheduler)

  abbrev pub write_json : ℕ → Body → Method (Server S) Response
  write_json status body = give (record { status = status; body = body })

  abbrev pub write_error : ℕ → String → Method (Server S) Response
  write_error status text = write_json status (error_body text)

  abbrev pub with_name :
      Outcome String → (String → Method (Server S) Response) → Method (Server S) Response
  with_name (ok s) f g = f s g
  with_name (err e) f g = (err e, g)
  with_name panic f g = (panic, g)

not_shorter : (m n : ℕ) → ltb (m + n) m ≡ false
not_shorter m n = ground arith

-- A path is taken apart into what it was put together from.
pub after_prefix-append : (p s : String) → after_prefix p (append p s) ≡ ok s
unfolding after_prefix
after_prefix-append p s =
    rw (len-append p s) (rw (not_shorter (len p) (len s)) (ap ok (slice-append_right p s)))

without_last-append : (s t : String) → without_last (len t) (append s t) ≡ ok s
without_last-append s t =
    let shorter : ltb (len (append s t)) (len t) ≡ false = let l = len-append s t in ground arith in
    let kept : len (append s t) - len t ≡ len s = let l = len-append s t in omega arith in
    rw shorter (ap ok (ap (slice (append s t) 0) kept ∙ slice-append_left s t))

pub between-append : (p s t : String) → between p t (append p (append s t)) ≡ ok s
unfolding between
between-append p s t =
    ap (then_cut (len t)) (after_prefix-append p (append s t)) ∙ without_last-append s t
