-- ===== src/Manager/Ranking.antt =====
-- The loops of selectQueue in internal/queue/manager.go: the highest priority, and the walk over the
-- cumulated weights.
use mathlib.Core.List.{Memᴰ}
use distributed_task_queue_s.Base.{
  ℤ, ◌+ℤ◌, ◌≤ℤ◌, ◌<ℤ◌, ltb_ℤ, ltb_ℤ→lt, ltb_ℤ→ge, wrap64, false, ◌≡◌, refl, sym, ap, subst, ◌⊎◌,
  inl, inr, Bool-cases, some, List, [], ◌∷◌, ◌++◌, All, if◌then◌else◌, arith,
}
use distributed_task_queue_s.Job.{Priority}
use distributed_task_queue_s.Manager.Selection.{Candidate, max_priority, total_weight, walk}

-- An upper bound that is reached, by the start value or by a candidate.
pub record Top (p : Priority) (cs : List Candidate) (m : Priority) : Type 0 where
  pub start : p ≤ℤ m
  pub all : All (λ x. x.priority ≤ℤ m) cs
  pub reached : (m ≡ p) ⊎ ((d : Candidate) × Memᴰ d cs × (d.priority ≡ m))

Top-raise :
    {p m : Priority} {c : Candidate} {cs : List Candidate}
    → p <ℤ c.priority
    → Top c.priority cs m
    → Top p (c ∷ cs) m
Top-raise {p = p} {m = m} {c = c} {cs = cs} up t = record {
  start = let s = t.start in omega arith;
  all = (t.start, t.all);
  reached = found t.reached;
}
  where
    found :
        (m ≡ c.priority) ⊎ ((d : Candidate) × Memᴰ d cs × (d.priority ≡ m))
        → (m ≡ p) ⊎ ((d : Candidate) × Memᴰ d (c ∷ cs) × (d.priority ≡ m))
    found (inl e) = inr (c, Memᴰ.head refl, sym e)
    found (inr (d, i, e)) = inr (d, Memᴰ.tail i, e)

Top-keep :
    {p m : Priority} {c : Candidate} {cs : List Candidate}
    → c.priority ≤ℤ p
    → Top p cs m
    → Top p (c ∷ cs) m
Top-keep {p = p} {m = m} {c = c} {cs = cs} down t = record {
  start = t.start;
  all = (let s = t.start in omega arith, t.all);
  reached = found t.reached;
}
  where
    found :
        (m ≡ p) ⊎ ((d : Candidate) × Memᴰ d cs × (d.priority ≡ m))
        → (m ≡ p) ⊎ ((d : Candidate) × Memᴰ d (c ∷ cs) × (d.priority ≡ m))
    found (inl e) = inl e
    found (inr (d, i, e)) = inr (d, Memᴰ.tail i, e)

pub max_priority-Top : (p : Priority) (cs : List Candidate) → Top p cs (max_priority p cs)
unfolding max_priority
max_priority-Top p [] = record { start = omega arith; all = tt; reached = inl refl }
max_priority-Top p (c ∷ cs) = elim (Bool-cases (ltb_ℤ p c.priority)) [
  | inl e ↦
      subst (Top p (c ∷ cs)) (ap (λ b. max_priority (if b then c.priority else p) cs) (sym e))
        (Top-raise (ltb_ℤ→lt p c.priority e) (max_priority-Top c.priority cs))
  | inr e ↦
      subst (Top p (c ∷ cs)) (ap (λ b. max_priority (if b then c.priority else p) cs) (sym e))
        (Top-keep (ltb_ℤ→ge p c.priority e) (max_priority-Top p cs))
]

-- The loop over cumulated weights stops in the stretch of `r` that belongs to a candidate.
pub walk_lem :
    (r cum : ℤ) (cs : List Candidate)
    → cum ≤ℤ r
    → r <ℤ total_weight cum cs
    → (before : List Candidate) × (d : Candidate) × (behind : List Candidate) × (cs
        ≡ before ++ d ∷ behind)
      × (walk r cum cs ≡ some d.name)
      × (total_weight cum before ≤ℤ r)
      × (r <ℤ wrap64 (total_weight cum before +ℤ d.weight))
unfolding walk total_weight
walk_lem r cum [] h k = absurd (omega arith)
walk_lem r cum (c ∷ cs) h k = elim (Bool-cases (ltb_ℤ r (wrap64 (cum +ℤ c.weight)))) [
  | inl e ↦ ([], c, cs, refl, rw e, h, ltb_ℤ→lt r (wrap64 (cum +ℤ c.weight)) e)
  | inr e ↦
      further e
        (walk_lem r (wrap64 (cum +ℤ c.weight)) cs (ltb_ℤ→ge r (wrap64 (cum +ℤ c.weight)) e) k)
]
  where
    further :
        ltb_ℤ r (wrap64 (cum +ℤ c.weight)) ≡ false
        → (before : List Candidate) × (d : Candidate) × (behind : List Candidate) × (cs
            ≡ before ++ d ∷ behind)
          × (walk r (wrap64 (cum +ℤ c.weight)) cs ≡ some d.name)
          × (total_weight (wrap64 (cum +ℤ c.weight)) before ≤ℤ r)
          × (r <ℤ wrap64 (total_weight (wrap64 (cum +ℤ c.weight)) before +ℤ d.weight))
        → (before : List Candidate) × (d : Candidate) × (behind : List Candidate) × (c ∷ cs
            ≡ before ++ d ∷ behind)
          × (walk r cum (c ∷ cs) ≡ some d.name)
          × (total_weight cum before ≤ℤ r)
          × (r <ℤ wrap64 (total_weight cum before +ℤ d.weight))
    further e (before, d, behind, s, w, low, high) =
        (c ∷ before, d, behind, ap (◌∷◌ c) s, rw e w, low, high)
