-- ===== src/Manager/Selection.antt =====
-- selectQueue of internal/queue/manager.go. The random source is the argument `intn`, which stands
-- for `rand.Intn`.
use distributed_task_queue_s.Base.{
  ℕ, zero, suc, ℤ, pos, negsuc, ◌+ℤ◌, wrap64, ltb_ℤ, eqb_ℤ, nat_eq, String, if◌then◌else◌, Option,
  none, some, List, [], ◌∷◌, select, lookup, Method, Outcome, ok, err, panic, handle, give, ◌>>=◌,
}
use distributed_task_queue_s.Job.{Priority, priority_low}
use distributed_task_queue_s.Job.Queue.{QueueConfig}
use distributed_task_queue_s.Manager.{Manager, call}
use distributed_task_queue_s.Manager.Storage.{Storage}

pub record Candidate : Type 0 where
  pub name : String
  pub priority : Priority
  pub weight : ℤ
  pub length : ℕ

unfoldable pub max_priority : Priority → List Candidate → Priority
max_priority p [] = p
max_priority p (c ∷ cs) = max_priority (if ltb_ℤ p c.priority then c.priority else p) cs

unfoldable pub total_weight : ℤ → List Candidate → ℤ
total_weight t [] = t
total_weight t (c ∷ cs) = total_weight (wrap64 (t +ℤ c.weight)) cs

-- The loop over the cumulated weights; `none` is the fall through to the first queue.
unfoldable pub walk : ℤ → ℤ → List Candidate → Option String
walk r cum [] = none
walk r cum (c ∷ cs) =
    let cum' = wrap64 (cum +ℤ c.weight) in
    let rest = walk r cum' cs in if ltb_ℤ r cum' then some c.name else rest

-- `highPriorityQueues[0].name`.
abbrev pub first_name : List Candidate → Outcome String
first_name [] = panic
first_name (c ∷ cs) = ok c.name

abbrev pub walked : List Candidate → Option String → Outcome String
walked high none = first_name high
walked high (some name) = ok name

-- `rand.Intn(n)` panics unless n is positive.
unfoldable pub roll : (ℕ → ℕ) → List Candidate → ℤ → Outcome String
roll intn high (pos zero) = panic
roll intn high (negsuc n) = panic
roll intn high (pos (suc n)) = walked high (walk (pos (intn (suc n))) (pos 0) high)

unfoldable pub pick : (ℕ → ℕ) → List Candidate → Outcome String
pick intn (c ∷ []) = ok c.name
pick intn high = roll intn high (total_weight (pos 0) high)

unfoldable pub choose : (ℕ → ℕ) → List Candidate → Outcome String
choose intn [] = ok ""
choose intn (c ∷ cs) =
    let best = max_priority priority_low (c ∷ cs) in
    pick intn (select (λ d. eqb_ℤ d.priority best) (c ∷ cs))

abbrev pub as_candidate : String → QueueConfig → ℕ → Candidate
as_candidate name c n = record { name = name; priority = c.priority; weight = c.weight; length = n }

module _ {S : Type 0} (st : Storage S) where
  -- A queue that is paused, empty or cannot be asked is no candidate.
  unfoldable pub ask : String → QueueConfig → Method (Manager S) (Option Candidate)
  ask q c =
      handle (call (st.is_queue_paused q))
        (λ paused.
          if paused
          then give none
          else handle (call (st.queue_length q))
              (λ n. if nat_eq n 0 then give none else give (some (as_candidate q c n)))
              (λ _. give none))
        (λ _. give none)

  unfoldable pub candidate : String → Method (Manager S) (Option Candidate)
  candidate q g = elim (lookup q g.configs) [ none ↦ (ok none, g) | some c ↦ ask q c g ]

  abbrev pub add_candidate : Option Candidate → List Candidate → List Candidate
  add_candidate none cs = cs
  add_candidate (some c) cs = c ∷ cs

  unfoldable pub gather : List String → Method (Manager S) (List Candidate)
  gather [] = give []
  gather (q ∷ qs) =
      let rest = gather qs in
      handle (candidate q) (λ c. handle rest (λ cs. give (add_candidate c cs)) (λ e g. (err e, g)))
        (λ e g. (err e, g))

  unfoldable pub select_queue : (ℕ → ℕ) → List String → Method (Manager S) String
  select_queue intn queues = do candidates ← gather queues; λ g. (choose intn candidates, g)
