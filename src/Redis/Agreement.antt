-- ===== src/Redis/Agreement.antt =====
-- Runs of calls on the jobs of internal/storage/redis/redis.go and of internal/storage/memory/memory.go
-- side by side.
use distributed_task_queue_s.Base.{
  String, ◌==◌, false, ◌≡◌, refl, sym, ap, subst, ◌∙◌, Option, List, [], ◌∷◌, Outcome, Method,
}
use distributed_task_queue_s.Job.{Job}
use distributed_task_queue_s.Memory.{MemoryStore}
use distributed_task_queue_s.Memory.Jobs.{create_job, get_job, update_job, delete_job}
use distributed_task_queue_s.Memory.Jobs.Access.{
  JobMap, view, Implements, create_spec, get_spec, update_spec, delete_spec, create_job-Implements,
  get_job-Implements, update_job-Implements, delete_job-Implements,
}
use distributed_task_queue_s.Redis.{Client, Codec}
use distributed_task_queue_s.Redis.Jobs.{job_key, create, get, update, delete}
use distributed_task_queue_s.Redis.Server.{Strings, RoundTrips}
use distributed_task_queue_s.Redis.Holding.{Fits, Holds, Matches}
use distributed_task_queue_s.Redis.Reading.{create-Simulates, get-Simulates}
use distributed_task_queue_s.Redis.Refinement.{update-Simulates, delete-Simulates}

pub data JobCall : Type 0 where
  creates updates : Job → JobCall
  gets deletes : String → JobCall

pub data Answer : Type 0 where
  done : Outcome (Unit {0}) → Answer
  read : Outcome Job → Answer

abbrev pub answer_of : {A S : Type 0} → (Outcome A → Answer) → Outcome A × S → Answer × S
answer_of f (o, s) = (f o, s)

abbrev pub memory_step : JobCall → MemoryStore → Answer × MemoryStore
memory_step (creates j) m = answer_of done (create_job j m)
memory_step (updates j) m = answer_of done (update_job j m)
memory_step (gets id) m = answer_of read (get_job id m)
memory_step (deletes id) m = answer_of done (delete_job id m)

-- What a backend answers to the calls, one after the other.
abbrev pub answers : {S : Type 0} → (JobCall → S → Answer × S) → List JobCall → S → List Answer
answers step [] s = []
answers step (c ∷ cs) s = (step c s).0 ∷ answers step cs (step c s).1

module _ {R D F : Type 0} (c : Client R D F) (json : Codec D Job) where
  abbrev pub redis_step : JobCall → R → Answer × R
  redis_step (creates j) r = answer_of done (create c json j r)
  redis_step (updates j) r = answer_of done (update c json j r)
  redis_step (gets id) r = answer_of read (get c json id r)
  redis_step (deletes id) r = answer_of done (delete c json id r)

  -- An identifier that is not empty, and a job that comes back from its bytes as it was.
  abbrev pub IsFit : JobCall → Type 0
  IsFit (creates j) = ((j.id == "") ≡ false) × RoundTrips json j
  IsFit (updates j) = ((j.id == "") ≡ false) × RoundTrips json j
  IsFit (gets id) = (id == "") ≡ false
  IsFit (deletes id) = (id == "") ≡ false

  abbrev pub AllFit : List JobCall → Type 0
  AllFit [] = Unit
  AllFit (k ∷ ks) = IsFit k × AllFit ks

module _ {R D F : Type 0} (c : Client R D F) (json : Codec D Job)
    (values : R → String → Option D) where
  -- Two outcomes that are one, and a server that holds the jobs of the store.
  abbrev Agree : {A : Type 0} → Outcome A × R → Outcome A × MemoryStore → Type 0
  Agree p q = (p.0 ≡ q.0) × Holds c json values p.1 (view q.1)

  both_meet :
      {A : Type 0} (rop : Method R A) (mop : MemoryStore → Outcome A × MemoryStore)
      (spec : JobMap → Outcome A × JobMap) (r : R) (m : MemoryStore)
      → Matches c json values rop spec r (view m)
      → Implements mop spec
      → Agree (rop r) (mop m)
  both_meet rop mop spec r m (a, h) i = (
    a ∙ sym (i m).0,
    λ id. subst (Fits json id (values (rop r).1 (job_key id))) (sym ((i m).1 id)) (h id),
  )

  as_answer :
      {A : Type 0} (f : Outcome A → Answer) (p : Outcome A × R) (q : Outcome A × MemoryStore)
      → Agree p q
      → ((answer_of f p).0 ≡ (answer_of f q).0)
        × Holds c json values (answer_of f p).1 (view (answer_of f q).1)
  as_answer f (o, r) (u, m) (e, h) = (ap f e, h)

  module _ (server : Strings c values) where
    step_agrees :
        (k : JobCall) (r : R) (m : MemoryStore)
        → IsFit c json k
        → Holds c json values r (view m)
        → ((redis_step c json k r).0 ≡ (memory_step k m).0)
          × Holds c json values (redis_step c json k r).1 (view (memory_step k m).1)
    step_agrees (creates j) r m (named, codec) h =
        as_answer done (create c json j r) (create_job j m) (
          both_meet (create c json j) (create_job j) (create_spec j) r m
            (create-Simulates c json values server j codec named r (view m) h)
            (create_job-Implements j))
    step_agrees (updates j) r m (named, codec) h =
        as_answer done (update c json j r) (update_job j m) (
          both_meet (update c json j) (update_job j) (update_spec j) r m
            (update-Simulates c json values server j codec named r (view m) h)
            (update_job-Implements j))
    step_agrees (gets id) r m named h = as_answer read (get c json id r) (get_job id m) (
        both_meet (get c json id) (get_job id) (get_spec id) r m
          (get-Simulates c json values server id named r (view m) h) (get_job-Implements id))
    step_agrees (deletes id) r m named h = as_answer done (delete c json id r) (delete_job id m) (
        both_meet (delete c json id) (delete_job id) (delete_spec id) r m
          (delete-Simulates c json values server id named r (view m) h) (delete_job-Implements id))

    -- From a server that holds the jobs of an in-memory store, any run of creating, reading, updating
    -- and deleting calls gets the same answers from both backends, errors included, if the server
    -- answers as documented and is used by no one else, no identifier is empty, and every job that is to
    -- be written comes back from its bytes as it was.
    pub answers_agree :
        (ks : List JobCall) (r : R) (m : MemoryStore)
        → AllFit c json ks
        → Holds c json values r (view m)
        → answers (redis_step c json) ks r ≡ answers memory_step ks m
    answers_agree [] r m fit h = refl
    answers_agree (k ∷ ks) r m (f, fit) h =
        let (e, after) = step_agrees k r m f h in
        ap (λ a. a ∷ answers (redis_step c json) ks (redis_step c json k r).1) e
        ∙ ap (◌∷◌ (memory_step k m).0)
            (answers_agree ks (redis_step c json k r).1 (memory_step k m).1 fit after)
