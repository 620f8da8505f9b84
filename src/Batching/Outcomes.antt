-- ===== src/Batching/Outcomes.antt =====
-- What the jobs of a processed batch of internal/features/batching.go become in the in-memory store.
use distributed_task_queue_s.Base.{
  String, ◌==◌, false, ◌≡◌, refl, sym, ap, ◌∙◌, subst, eq_refl, eq_iff, Bool-cases, inl, inr,
  Option, none, some, Option-cases, List, [], ◌∷◌, ◌++◌, map, All, Dict, lookup, insert,
  lookup-insert, Error, error_text, ◌⊎◌,
}
use mathlib.Core.List.{map-append}
use distributed_task_queue_s.Job.{Job, success, failed}
use distributed_task_queue_s.Memory.{MemoryStore}
use distributed_task_queue_s.Memory.Jobs
use distributed_task_queue_s.Manager.Storage.{memory_storage}
use distributed_task_queue_s.Manager.Enqueueing.{MemoryManager}
use distributed_task_queue_s.Manager.Jobs.{update_job}
use distributed_task_queue_s.Batching.{Flight, World}
use distributed_task_queue_s.Batching.Batches.{with_outcome, update_jobs, finish_batch}

-- The jobs of a manager's store, and the manager with others.
abbrev jobs_of : MemoryManager → Dict Job
jobs_of g = g.storage.jobs

abbrev with_jobs : Dict Job → MemoryManager → MemoryManager
with_jobs ds g = record g { storage = record g.storage { jobs = ds } }

-- A job that is stored is written over; one that is not stays unknown.
abbrev overwritten : Option Job → Job → Dict Job → Dict Job
overwritten none j ds = ds
overwritten (some old) j ds = insert j.id j ds

abbrev after_update : Job → MemoryManager → MemoryManager
after_update j g = with_jobs (overwritten (lookup j.id (jobs_of g)) j (jobs_of g)) g

update_jobs_step :
    (j : Job) (js : List Job) (g : MemoryManager)
    → update_jobs memory_storage (j ∷ js) g ≡ update_jobs memory_storage js (after_update j g)
unfolding update_jobs update_job Jobs.update_job
update_jobs_step j js g = elim (Option-cases (lookup j.id (jobs_of g))) [
  | inl e ↦ rw (e, Jobs.update_job) refl
  | inr (old, e) ↦ rw (e, Jobs.update_job) refl
]

abbrev IsKnown : String → MemoryManager → Type 0
IsKnown id g = (j : Job) × (lookup id (jobs_of g) ≡ some j)

lookup_other :
    (k : Job) (id : String) (g : MemoryManager)
    → (k.id == id) ≡ false
    → lookup id (jobs_of (after_update k g)) ≡ lookup id (jobs_of g)
lookup_other k id g e = elim (Option-cases (lookup k.id (jobs_of g))) [
  | inl f ↦ rw f refl
  | inr (old, f) ↦ rw f (lookup-insert k.id id k (jobs_of g) ∙ rw e refl)
]

lookup_own :
    (j : Job) (g : MemoryManager)
    → IsKnown j.id g
    → lookup j.id (jobs_of (after_update j g)) ≡ some j
lookup_own j g (old, e) = rw e (lookup-insert j.id j.id j (jobs_of g) ∙ rw (eq_refl j.id) refl)

after_update-IsKnown :
    (k : Job) (id : String) (g : MemoryManager) → IsKnown id g → IsKnown id (after_update k g)
after_update-IsKnown k id g (j, e) = elim (Bool-cases (k.id == id)) [
  | inl f ↦ (
    k,
    subst (λ x. lookup x (jobs_of (after_update k g)) ≡ some k) ((eq_iff k.id id).0 f)
        (lookup_own k g
          (j, subst (λ x. lookup x (jobs_of g) ≡ some j) (sym ((eq_iff k.id id).0 f)) e)),
  )
  | inr f ↦ (j, lookup_other k id g f ∙ e)
]

-- Later jobs of other identifiers leave a job alone.
update_jobs_others :
    (js : List Job) (id : String) (g : MemoryManager)
    → All (λ k. (k.id == id) ≡ false) js
    → lookup id (jobs_of (update_jobs memory_storage js g).1) ≡ lookup id (jobs_of g)
unfolding update_jobs
update_jobs_others [] id g h = refl
update_jobs_others (k ∷ ks) id g (e, h) =
    ap (λ r. lookup id (jobs_of r.1)) (update_jobs_step k ks g)
    ∙ update_jobs_others ks id (after_update k g) h
    ∙ lookup_other k id g e

update_jobs_writes :
    (pre post : List Job) (j : Job) (g : MemoryManager)
    → IsKnown j.id g
    → All (λ k. (k.id == j.id) ≡ false) post
    → lookup j.id (jobs_of (update_jobs memory_storage (pre ++ j ∷ post) g).1) ≡ some j
update_jobs_writes [] post j g known others =
    ap (λ r. lookup j.id (jobs_of r.1)) (update_jobs_step j post g)
    ∙ update_jobs_others post j.id (after_update j g) others
    ∙ lookup_own j g known
update_jobs_writes (k ∷ pre) post j g known others =
    ap (λ r. lookup j.id (jobs_of r.1)) (update_jobs_step k (pre ++ j ∷ post) g)
    ∙ update_jobs_writes pre post j (after_update k g) (after_update-IsKnown k j.id g known) others

same_id : (o : Option Error) (j : Job) → (with_outcome o j).id ≡ j.id
same_id none j = refl
same_id (some e) j = refl

others_after :
    (o : Option Error) (id : String) (js : List Job)
    → All (λ k. (k.id == id) ≡ false) js
    → All (λ k. (k.id == id) ≡ false) (map (with_outcome o) js)
others_after o id [] h = tt
others_after o id (k ∷ ks) (e, h) =
    (subst (λ x. (x == id) ≡ false) (sym (same_id o k)) e, others_after o id ks h)

finish_batch_lem :
    (f : Flight) (w : World MemoryStore) (o : Option Error) (pre post : List Job) (j old : Job)
    → f.processor f.jobs ≡ (o, pre ++ j ∷ post)
    → lookup j.id w.bp.queue_manager.storage.jobs ≡ some old
    → All (λ k. (k.id == j.id) ≡ false) post
    → lookup j.id (finish_batch memory_storage f w).bp.queue_manager.storage.jobs
      ≡ some (with_outcome o j)
unfolding finish_batch
finish_batch_lem f w o pre post j old made stored others =
    let g = w.bp.queue_manager in
    let k : Job = with_outcome o j in
    ap (λ r. lookup j.id (jobs_of (update_jobs memory_storage (map (with_outcome r.0) r.1) g).1))
      made
    ∙ ap (λ js. lookup j.id (jobs_of (update_jobs memory_storage js g).1))
        (map-append (with_outcome o) pre (j ∷ post))
    ∙ ap
        (λ x. lookup x (
          jobs_of
            (update_jobs memory_storage (map (with_outcome o) pre ++ k ∷ map (with_outcome o) post)
              g).1))
        (sym (same_id o j))
    ∙ update_jobs_writes (map (with_outcome o) pre) (map (with_outcome o) post) k g
        (old, ap (λ x. lookup x (jobs_of g)) (same_id o j) ∙ stored)
        (subst (λ x. All (λ y. (y.id == x) ≡ false) (map (with_outcome o) post)) (sym (same_id o j))
          (others_after o j.id post others))

-- When a batch has been processed, each job of it that the store knows is stored as the processor left
-- it, with the status SUCCESS if the processor returned no error, and with the status FAILED and the
-- text of the error if it returned one; of two jobs of one identifier, the later one counts.
pub finish_batch-writes :
    (f : Flight) (w : World MemoryStore) (o : Option Error) (pre post : List Job) (j old : Job)
    → f.processor f.jobs ≡ (o, pre ++ j ∷ post)
    → lookup j.id w.bp.queue_manager.storage.jobs ≡ some old
    → All (λ k. (k.id == j.id) ≡ false) post
    → ((o ≡ none)
        × (lookup j.id (finish_batch memory_storage f w).bp.queue_manager.storage.jobs
            ≡ some (record j { status = success })))
      ⊎ ((e : Error) × (o ≡ some e)
          × (lookup j.id (finish_batch memory_storage f w).bp.queue_manager.storage.jobs
              ≡ some (record j { status = failed; error = error_text e })))
finish_batch-writes f w none pre post j old made stored others =
    inl (refl, finish_batch_lem f w none pre post j old made stored others)
finish_batch-writes f w (some e) pre post j old made stored others =
    inr (e, refl, finish_batch_lem f w (some e) pre post j old made stored others)
