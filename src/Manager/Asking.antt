-- ===== src/Manager/Asking.antt =====
-- selectQueue of internal/queue/manager.go asks the in-memory backend without changing it, and it names
-- a queue that it was asked about.
use distributed_task_queue_s.Base.{
  wrap64, ℕ, zero, suc, ℤ, pos, negsuc, ◌+ℤ◌, ltb_ℤ, eqb_ℤ, nat_eq, String, Bool, true, false,
  if◌then◌else◌, ◌≡◌, refl, ◌⊎◌, inl, inr, Option, none, some, Option-cases, Bool-cases, List, [],
  ◌∷◌, All, length, select, lookup, lookup_or, Outcome, ok, err, panic,
}
use distributed_task_queue_s.Job.{priority_low}
use distributed_task_queue_s.Job.Queue.{QueueConfig}
use distributed_task_queue_s.Memory.Queues.{is_queue_paused, queue_length, entries}
use distributed_task_queue_s.Manager.Storage.{memory_storage}
use distributed_task_queue_s.Manager.Selection.{
  Candidate, walk, walked, roll, pick, choose, max_priority, ask, as_candidate, add_candidate,
  candidate, gather, select_queue,
}
use distributed_task_queue_s.Manager.Enqueueing.{MemoryManager}

module _ (P : String → Type 0) where
  -- The name, if there is one, satisfies the predicate or is empty.
  abbrev pub Names : Outcome String → Type 0
  Names (ok x) = (x ≡ "") ⊎ P x
  Names (err e) = Unit
  Names panic = Unit

  abbrev Named : List Candidate → Type 0
  Named cs = All (λ c. P c.name) cs

  select-Named : (p : Candidate → Bool) (cs : List Candidate) → Named cs → Named (select p cs)
  select-Named p [] h = tt
  select-Named p (c ∷ cs) (h, k) = kept (p c) (select-Named p cs k)
    where
      kept : (b : Bool) → Named (select p cs) → Named (if b then c ∷ select p cs else select p cs)
      kept true i = (h, i)
      kept false i = i

  abbrev Found : Option String → Type 0
  Found none = Unit
  Found (some x) = P x

  walk-Found : (r cum : ℤ) (cs : List Candidate) → Named cs → Found (walk r cum cs)
  unfolding walk
  walk-Found r cum [] h = tt
  walk-Found r cum (c ∷ cs) (h, k) =
      here (ltb_ℤ r (wrap64 (cum +ℤ c.weight))) (walk r (wrap64 (cum +ℤ c.weight)) cs)
        (walk-Found r (wrap64 (cum +ℤ c.weight)) cs k)
    where
      here : (b : Bool) (o : Option String) → Found o → Found (if b then some c.name else o)
      here true o f = h
      here false o f = f

  walked-Names :
      (cs : List Candidate) (o : Option String) → Named cs → Found o → Names (walked cs o)
  walked-Names [] none h f = tt
  walked-Names (c ∷ cs) none h f = inr h.0
  walked-Names cs (some x) h f = inr f

  roll-Names : (intn : ℕ → ℕ) (cs : List Candidate) (t : ℤ) → Named cs → Names (roll intn cs t)
  unfolding roll
  roll-Names intn cs (pos zero) h = tt
  roll-Names intn cs (negsuc n) h = tt
  roll-Names intn cs (pos (suc n)) h = walked-Names cs _ h (walk-Found _ _ cs h)

  pick-Names : (intn : ℕ → ℕ) (cs : List Candidate) → Named cs → Names (pick intn cs)
  unfolding pick
  pick-Names intn [] h = roll-Names intn [] _ h
  pick-Names intn (c ∷ []) h = inr h.0
  pick-Names intn (c ∷ d ∷ cs) h = roll-Names intn (c ∷ d ∷ cs) _ h

  choose-Names : (intn : ℕ → ℕ) (cs : List Candidate) → Named cs → Names (choose intn cs)
  unfolding choose
  choose-Names intn [] h = inl refl
  choose-Names intn (c ∷ cs) h =
      pick-Names intn _
        (select-Named (λ d. eqb_ℤ d.priority (max_priority priority_low (c ∷ cs))) (c ∷ cs) h)

  abbrev Proposed : Option Candidate → Type 0
  Proposed none = Unit
  Proposed (some c) = P c.name

  ask_lem :
      (q : String) (c : QueueConfig) (g : MemoryManager)
      → P q
      → (o : Option Candidate) × (ask memory_storage q c g ≡ (ok o, g)) × Proposed o
  unfolding ask is_queue_paused queue_length
  ask_lem q c g h = elim (Bool-cases (lookup_or false q g.storage.paused)) [
    | inl e ↦ (none, rw e, tt)
    | inr e ↦ elim (Bool-cases (nat_eq (length (entries g.storage q)) 0)) [
      | inl f ↦ (none, rw (e, f), tt)
      | inr f ↦ (some (as_candidate q c (length (entries g.storage q))), rw (e, f), h)
    ]
  ]

  candidate_lem :
      (q : String) (g : MemoryManager)
      → P q
      → (o : Option Candidate) × (candidate memory_storage q g ≡ (ok o, g)) × Proposed o
  unfolding candidate
  candidate_lem q g h = elim (Option-cases (lookup q g.configs)) [
    | inl e ↦ (none, rw (e, candidate), tt)
    | inr (c, e) ↦ rw (e, candidate) (ask_lem q c g h)
  ]

  add_candidate-Named :
      (o : Option Candidate) (cs : List Candidate)
      → Proposed o
      → Named cs
      → Named (add_candidate memory_storage o cs)
  add_candidate-Named none cs f h = h
  add_candidate-Named (some c) cs f h = (f, h)

  gather_lem :
      (qs : List String) (g : MemoryManager)
      → All P qs
      → (cs : List Candidate) × (gather memory_storage qs g ≡ (ok cs, g)) × Named cs
  unfolding gather
  gather_lem [] g h = ([], refl, tt)
  gather_lem (q ∷ qs) g (h, k) =
      let (o, e, f) = candidate_lem q g h in
      let (cs, e', i) = gather_lem qs g k in
      (add_candidate memory_storage o cs, rw (e, e'), add_candidate-Named o cs f i)

  -- The selection changes nothing, and names none but a queue of the list, or no queue.
  pub select_queue_lem :
      (intn : ℕ → ℕ) (qs : List String) (g : MemoryManager)
      → All P qs
      → (o : Outcome String) × (select_queue memory_storage intn qs g ≡ (o, g)) × Names o
  unfolding select_queue
  select_queue_lem intn qs g h =
      let (cs, e, i) = gather_lem qs g h in (choose intn cs, rw e, choose-Names intn cs i)
