-- ===== src/Redis/Holding.antt =====
-- When a Redis server holds the jobs of a finite map, for internal/storage/redis/redis.go.
use text.Mathlib.TextLemmas.{append_cancel_left}
use distributed_task_queue_s.Base.{
  String, ◌==◌, eq_iff, eq_refl, true, false, if◌then◌else◌, ◌≡◌, refl, sym, subst, ◌∙◌, ◌⊎◌, inl,
  inr, Bool-cases, Option, none, some, Outcome, ok, Method,
}
use distributed_task_queue_s.Job.{Job}
use distributed_task_queue_s.Memory.Jobs.Access.{JobMap, put}
use distributed_task_queue_s.Redis.{Client, Codec}
use distributed_task_queue_s.Redis.Jobs.{job_key}

-- The text under the key of an identifier is that of the job, which has this identifier.
abbrev pub Fits : {D : Type 0} → Codec D Job → String → Option D → Option Job → Type 0
Fits json id none none = Unit
Fits json id (some text) (some j) = (json.unmarshal text ≡ ok j) × (j.id ≡ id)
Fits json id none (some j) = ⊥
Fits json id (some text) none = ⊥

-- Different identifiers have different keys.
pub job_key-eq : (a b : String) → (job_key a == job_key b) ≡ (a == b)
job_key-eq a b = elim (Bool-cases (a == b)) [
  | inl e ↦ rw ((eq_iff a b).0 e) (eq_refl (job_key b) ∙ sym (eq_refl b))
  | inr e ↦ rw e (different e (Bool-cases (job_key a == job_key b)))
]
  where
    different :
        (a == b) ≡ false
        → ((job_key a == job_key b) ≡ true) ⊎ ((job_key a == job_key b) ≡ false)
        → (job_key a == job_key b) ≡ false
    different e (inl f) = absurd (
        let same : a ≡ b = append_cancel_left "job:" a b ((eq_iff (job_key a) (job_key b)).0 f) in
        let g = (eq_iff a b).1 same in cc)
    different e (inr f) = f

module _ {R D F : Type 0} (c : Client R D F) (json : Codec D Job)
    (values : R → String → Option D) where
  -- The server holds exactly the jobs of the map.
  abbrev pub Holds : R → JobMap → Type 0
  Holds r f = (id : String) → Fits json id (values r (job_key id)) (f id)

  -- A method on the server does what one on the map does, from one state and from all.
  abbrev pub Matches :
      {A : Type 0} → Method R A → (JobMap → Outcome A × JobMap) → R → JobMap → Type 0
  Matches op spec r f = ((op r).0 ≡ (spec f).0) × Holds (op r).1 (spec f).1

  abbrev pub Simulates : {A : Type 0} → Method R A → (JobMap → Outcome A × JobMap) → Type 0
  Simulates op spec = (r : R) (f : JobMap) → Holds r f → Matches op spec r f

  pub same_values :
      (r t : R) (f : JobMap) → ((k : String) → values t k ≡ values r k) → Holds r f → Holds t f
  same_values r t f e h id = subst (λ o. Fits json id o (f id)) (sym (e (job_key id))) (h id)

  pub one_changed :
      (k : String) (v : Option D) (w : Option Job) (r t : R) (f : JobMap)
      → ((l : String) → values t l ≡ (if job_key k == l then v else values r l))
      → Fits json k v w
      → Holds r f
      → Holds t (put k w f)
  one_changed k v w r t f e fits h id =
      subst (λ o. Fits json id o (put k w f id)) (sym (e (job_key id)))
        (by_key (Bool-cases (k == id)))
    where
      by_key :
          ((k == id) ≡ true) ⊎ ((k == id) ≡ false)
          → Fits json id
              (if job_key k == job_key id then v else values r (job_key id))
              (put k w f id)
      by_key (inl g) =
          rw (job_key-eq k id) (rw g (subst (λ x. Fits json x v w) ((eq_iff k id).0 g) fits))
      by_key (inr g) = rw (job_key-eq k id) (rw g (h id))

  -- Whether an identifier is known, on both sides.
  abbrev pub Known : R → JobMap → String → Type 0
  Known r f id =
      ((values r (job_key id) ≡ none) × (f id ≡ none))
      ⊎ ((text : D) × (j : Job) × (values r (job_key id) ≡ some text)
          × (f id ≡ some j)
          × (json.unmarshal text ≡ ok j)
          × (j.id ≡ id))

  pub known : (r : R) (f : JobMap) (id : String) → Holds r f → Known r f id
  known r f id h = by_both (values r (job_key id)) (f id) refl refl (h id)
    where
      by_both :
          (v : Option D) (w : Option Job)
          → values r (job_key id) ≡ v
          → f id ≡ w
          → Fits json id v w
          → Known r f id
      by_both none none a b fits = inl (a, b)
      by_both (some text) (some j) a b fits = inr (text, j, a, b, fits.0, fits.1)
      by_both none (some j) a b fits = absurd fits
      by_both (some text) none a b fits = absurd fits
