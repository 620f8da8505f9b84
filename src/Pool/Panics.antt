-- ===== src/Pool/Panics.antt =====
-- Methods that do not panic, for the worker of internal/worker/pool.go: how they compose, and what it
-- asks of the storage backend.
use distributed_task_queue_s.Base.{
  ℕ, ℤ, String, ◌≡◌, refl, Outcome, ok, err, panic, Method, give, fail, resume, Error,
}
use distributed_task_queue_s.Job.{Job, Status, Time, Duration, Priority}
use distributed_task_queue_s.Job.Queue.{QueueConfig}
use distributed_task_queue_s.Manager.Storage.{Storage}

-- The outcome is no panic.
abbrev pub Calm : {A : Type 0} → Outcome A → Type 0
Calm (ok a) = Unit
Calm (err e) = Unit
Calm panic = ⊥

-- A method that does not panic, and one that returns its value.
abbrev pub Safe : {S A : Type 0} → Method S A → Type 0
Safe {S = S} m = (s : S) → Calm (m s).0

abbrev pub Returns : {S : Type 0} → Method S (Unit {0}) → Type 0
Returns {S = S} m = (s : S) → (m s).0 ≡ ok tt

-- No method of the backend that a worker calls panics.
pub record NoPanics {S : Type 0} (st : Storage S) : Type 0 where
  pub create_job : (j : Job) → Safe (st.create_job j)
  pub update_job : (j : Job) → Safe (st.update_job j)
  pub update_status : (id : String) (s : Status) (now : ℕ → Time) → Safe (st.update_status id s now)
  pub update_progress : (id : String) (p : ℤ) (now : Time) → Safe (st.update_progress id p now)
  pub set_error : (id text : String) (now : Time) → Safe (st.set_error id text now)
  pub enqueue :
      (q id : String) (p : Priority) (d : Duration) (now : Time) → Safe (st.enqueue q id p d now)
  pub requeue :
      (q id : String) (p : Priority) (d : Duration) (now : Time) → Safe (st.requeue q id p d now)
  pub set_current_job : (w id : String) → Safe (st.set_current_job w id)
  pub increment_processed : (w : String) → Safe (st.increment_processed w)
  pub increment_failed : (w : String) → Safe (st.increment_failed w)
  pub record_job_created : (q t : String) → Safe (st.record_job_created q t)
  pub record_job_completed : (q t : String) (d : Duration) → Safe (st.record_job_completed q t d)
  pub record_job_failed : (q t : String) → Safe (st.record_job_failed q t)
  pub record_job_retried : (q t : String) → Safe (st.record_job_retried q t)
  pub save_queue_config : (c : QueueConfig) → Safe (st.save_queue_config c)
  pub get_queue_config : (q : String) → Safe (st.get_queue_config q)

module _ {S A B : Type 0} where
  -- Both branches after a call that does not panic.
  pub resume-Calm :
      (f : A → S → Outcome B × S) (h : Error → S → Outcome B × S) (o : Outcome A) (t : S)
      → Calm o
      → ((a : A) (s : S) → Calm (f a s).0)
      → ((e : Error) (s : S) → Calm (h e s).0)
      → Calm (resume f h o t).0
  resume-Calm f h (ok a) t c cf ch = cf a t
  resume-Calm f h (err e) t c cf ch = ch e t
  resume-Calm f h panic t c cf ch = absurd c

module _ {S A : Type 0} where
  pub resume-ok :
      (f : A → S → Outcome (Unit {0}) × S) (h : Error → S → Outcome (Unit {0}) × S) (o : Outcome A)
      (t : S)
      → Calm o
      → ((a : A) (s : S) → (f a s).0 ≡ ok tt)
      → ((e : Error) (s : S) → (h e s).0 ≡ ok tt)
      → (resume f h o t).0 ≡ ok tt
  resume-ok f h (ok a) t c cf ch = cf a t
  resume-ok f h (err e) t c cf ch = ch e t
  resume-ok f h panic t c cf ch = absurd c

  -- A logged call, alone and with what follows it.
  abbrev pub noted : Outcome A → S → Outcome (Unit {0}) × S
  noted o t = resume (λ _. give tt) (λ _. give tt) o t

  pub noted-ok : (o : Outcome A) (t : S) → Calm o → (noted o t).0 ≡ ok tt
  noted-ok o t c = resume-ok _ _ o t c (λ _ _. refl) (λ _ _. refl)

  pub then-ok :
      (k : Method S (Unit {0})) (o : Outcome A) (t : S)
      → Calm o
      → ((s : S) → (k s).0 ≡ ok tt)
      → (resume (λ _. k) fail (noted o t).0 (noted o t).1).0 ≡ ok tt
  then-ok k (ok a) t c r = r t
  then-ok k (err e) t c r = r t
  then-ok k panic t c r = absurd c

module _ {S : Type 0} where
  pub seq-ok :
      (k : Method S (Unit {0})) (o : Outcome (Unit {0})) (t : S)
      → o ≡ ok tt
      → ((s : S) → (k s).0 ≡ ok tt)
      → (resume (λ _. k) fail o t).0 ≡ ok tt
  seq-ok k (ok a) t e r = r t
  seq-ok k (err x) t e r = absurd (cc)
  seq-ok k panic t e r = absurd (cc)
