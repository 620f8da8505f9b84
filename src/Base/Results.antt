-- ===== src/Base/Results.antt =====
-- What a Go call returns: a value, an error, or a panic. A method that changes its receiver is a
-- function from the state before it to the outcome and the state after it.
use Prim.Native.String.{String, ◌++◌}

-- pkg/errors: the sentinel errors, the structured errors with their text, and `fmt.Errorf` with
-- `%w`, which keeps the error that it wraps.
pub data Error : Type 0 where
  job_not_found job_already_exists queue_paused empty_queue worker_not_found : Error
  invalid_value invalid_operation : Error
  config_not_found : String → Error
  validation_error : String → Error
  queue_error : String → String → Error
  job_error : String → Error
  wrapped : String → Error → Error
  message : String → Error

-- `Error()`.
unfoldable pub error_text : Error → String
error_text job_not_found = "job not found"
error_text job_already_exists = "job already exists"
error_text queue_paused = "queue is paused"
error_text empty_queue = "queue is empty"
error_text worker_not_found = "worker not found"
error_text invalid_value = "invalid value"
error_text invalid_operation = "invalid operation"
error_text (config_not_found queue) = "queue config not found: " ++ queue
error_text (validation_error text) = text
error_text (queue_error text queue) = text ++ queue
error_text (job_error text) = text
error_text (wrapped text e) = text ++ (": " ++ error_text e)
error_text (message text) = text

pub data Outcome {ℓ} (A : Type ℓ) : Type ℓ where
  ok : A → Outcome A
  err : Error → Outcome A
  panic : Outcome A

-- State passing: an error or a panic keeps the state that it was reached in.
abbrev pub Method : Type 0 → Type 0 → Type 0
Method S A = S → Outcome A × S

-- `if err := m(); err != nil` with a branch for the value and one for the error. No branch sees a
-- panic: it unwinds.
abbrev pub resume {ℓ κ} :
    {S : Type ℓ} {A B : Type κ}
    → (A → S → Outcome B × S)
    → (Error → S → Outcome B × S)
    → Outcome A
    → S
    → Outcome B × S
resume f g (ok a) t = f a t
resume f g (err e) t = g e t
resume f g panic t = (panic, t)

abbrev pub handle :
    {S A B : Type 0} → Method S A → (A → Method S B) → (Error → Method S B) → Method S B
handle m f g s = let (o, t) = m s in resume f g o t

abbrev pub give : {S A : Type 0} → A → Method S A
give a s = (ok a, s)

abbrev pub fail : {S A : Type 0} → Error → Method S A
fail e s = (err e, s)

-- `return err` after a failing call.
infixl 5 ◌>>=◌ ◌>>◌
abbrev pub ◌>>=◌ : {S A B : Type 0} → Method S A → (A → Method S B) → Method S B
◌>>=◌ m f = handle m f fail

abbrev pub ◌>>◌ : {S B : Type 0} → Method S (Unit {0}) → Method S B → Method S B
◌>>◌ m k = handle m (λ _. k) fail

-- The error is only printed.
abbrev pub or_log : {S A : Type 0} → Method S A → Method S (Unit {0})
or_log m = handle m (λ _. give tt) (λ _. give tt)

-- `fmt.Errorf("text: %w", err)`.
abbrev pub annotate : {S A : Type 0} → String → Method S A → Method S A
annotate text m = handle m give (λ e. fail (wrapped text e))

-- Read the state, and change it.
abbrev pub reads : {S A : Type 0} → (S → A) → Method S A
reads f s = (ok (f s), s)

abbrev pub modify : {S : Type 0} → (S → S) → Method S (Unit {0})
modify f s = (ok tt, f s)

module _ {S B : Type 0} where
  -- What two calls in sequence keep, whether or not the first returns.
  pub then-keeps {κ} :
      (Q : S → Type κ) (m : Method S (Unit {0})) (k : Method S B) (s : S)
      → Q (m s).1
      → ((t : S) → Q t → Q (k t).1)
      → Q ((m >> k) s).1
  then-keeps Q m k s q f = settled (m s) q
    where
      settled : (r : Outcome (Unit {0}) × S) → Q r.1 → Q (resume (λ _. k) fail r.0 r.1).1
      settled (ok _, t) p = f t p
      settled (err _, t) p = p
      settled (panic, t) p = p
