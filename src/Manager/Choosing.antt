-- ===== src/Manager/Choosing.antt =====
-- Which queue selectQueue of internal/queue/manager.go takes, and when it panics.
use mathlib.Core.List.{Memᴰ}
use distributed_task_queue_s.Base.{
  ℕ, zero, suc, ◌<◌, ℤ, pos, negsuc, ◌+ℤ◌, ◌≤ℤ◌, ◌<ℤ◌, eqb_ℤ, eqb_ℤ_iff, int_laws, wrap64,
  wrap64_within, Bool, true, false, ◌≢◌, eq_of_parts, pos_part, neg_part, ◌≡◌, refl, sym, ap, ◌∙◌,
  subst, inl, inr, Bool-cases, some, List, [], ◌∷◌, ◌++◌, All, All-map, All-select, select, ok,
  panic, arith,
}
use distributed_task_queue_s.Job.{Priority, priority_low}
use distributed_task_queue_s.Manager.Selection.{
  Candidate, max_priority, total_weight, walk, roll, pick, choose, walked,
}
use distributed_task_queue_s.Manager.Ranking.{Top, max_priority-Top, walk_lem}

Memᴰ-select :
    (p : Candidate → Bool) (d : Candidate) (cs : List Candidate)
    → Memᴰ d cs
    → p d ≡ true
    → Memᴰ d (select p cs)
Memᴰ-select p d [] m h = elim m [ ]
Memᴰ-select p d (c ∷ cs) (Memᴰ.head e) h = rw (subst (λ x. p x ≡ true) e h) (Memᴰ.head e)
Memᴰ-select p d (c ∷ cs) (Memᴰ.tail m) h = elim (Bool-cases (p c)) [
  | inl e ↦ rw e (Memᴰ.tail (Memᴰ-select p d cs m h))
  | inr e ↦ rw e (Memᴰ-select p d cs m h)
]

Memᴰ-cons_of :
    (c d : Candidate) (cs ds : List Candidate)
    → (Memᴰ d ds → Memᴰ d cs)
    → Memᴰ d (c ∷ ds)
    → Memᴰ d (c ∷ cs)
Memᴰ-cons_of c d cs ds f (Memᴰ.head e) = Memᴰ.head e
Memᴰ-cons_of c d cs ds f (Memᴰ.tail m) = Memᴰ.tail (f m)

select-Memᴰ :
    (p : Candidate → Bool) (d : Candidate) (cs : List Candidate) → Memᴰ d (select p cs) → Memᴰ d cs
select-Memᴰ p d [] m = elim m [ ]
select-Memᴰ p d (c ∷ cs) m = elim (Bool-cases (p c)) [
  | inl e ↦ Memᴰ-cons_of c d cs (select p cs) (select-Memᴰ p d cs) (rw e at m)
  | inr e ↦ Memᴰ.tail (select-Memᴰ p d cs (rw e at m))
]

Memᴰ-middle : (before behind : List Candidate) (d : Candidate) → Memᴰ d (before ++ d ∷ behind)
Memᴰ-middle [] behind d = Memᴰ.head refl
Memᴰ-middle (x ∷ before) behind d = Memᴰ.tail (Memᴰ-middle before behind d)

All-Memᴰ :
    (P : Candidate → Type 0) (d : Candidate) (cs : List Candidate) → Memᴰ d cs → All P cs → P d
All-Memᴰ P d [] m h = elim m [ ]
All-Memᴰ P d (c ∷ cs) (Memᴰ.head e) h = subst P (sym e) h.0
All-Memᴰ P d (c ∷ cs) (Memᴰ.tail m) h = All-Memᴰ P d cs m h.1

-- The sum of the weights, over unbounded numbers.
abbrev pub sum_of_weights : List Candidate → ℤ
sum_of_weights [] = pos 0
sum_of_weights (c ∷ cs) = c.weight +ℤ sum_of_weights cs

sum_of_weights-positive :
    (cs : List Candidate) → All (λ c. pos 1 ≤ℤ c.weight) cs → pos 0 ≤ℤ sum_of_weights cs
sum_of_weights-positive [] h = omega arith
sum_of_weights-positive (c ∷ cs) h =
    let rest = sum_of_weights-positive cs h.1 in let one = h.0 in omega int_laws

sum_of_weights-select :
    (p : Candidate → Bool) (cs : List Candidate)
    → All (λ c. pos 1 ≤ℤ c.weight) cs
    → sum_of_weights (select p cs) ≤ℤ sum_of_weights cs
sum_of_weights-select p [] h = omega arith
sum_of_weights-select p (c ∷ cs) h = elim (Bool-cases (p c)) [
  | inl e ↦ rw e (let less = sum_of_weights-select p cs h.1 in omega int_laws)
  | inr e ↦ rw e (let less = sum_of_weights-select p cs h.1 in let one = h.0 in omega int_laws)
]

-- No step of the total wraps.
total_weight-grows :
    (t : ℤ) (cs : List Candidate)
    → pos 0 ≤ℤ t
    → All (λ c. pos 1 ≤ℤ c.weight) cs
    → t +ℤ sum_of_weights cs ≤ℤ pos 9223372036854775807
    → t +ℤ sum_of_weights cs ≤ℤ total_weight t cs
unfolding total_weight
total_weight-grows t [] low h fits = omega int_laws
total_weight-grows t (c ∷ cs) low h fits =
    let one = h.0 in
    let rest = sum_of_weights-positive cs h.1 in
    let sum : t +ℤ (c.weight +ℤ sum_of_weights cs) ≤ℤ pos 9223372036854775807 = fits in
    let exact : wrap64 (t +ℤ c.weight) ≡ t +ℤ c.weight =
      wrap64_within (t +ℤ c.weight) (omega int_laws) (omega int_laws) in
    rw exact (
      let more = total_weight-grows (t +ℤ c.weight) cs (omega int_laws) h.1 (omega int_laws) in
      omega int_laws)

roll_lem :
    (intn : ℕ → ℕ) (high : List Candidate) (n : ℕ)
    → ((n : ℕ) → 0 < n → intn n < n)
    → total_weight (pos 0) high ≡ pos (suc n)
    → (d : Candidate) × Memᴰ d high × (roll intn high (pos (suc n)) ≡ ok d.name)
unfolding roll
roll_lem intn high n fair e = within (
    walk_lem (pos (intn (suc n))) (pos 0) high (omega arith)
      (rw e (let r = fair (suc n) (omega arith) in omega arith)))
  where
    within :
        (before : List Candidate) × (d : Candidate) × (behind : List Candidate) × (high
            ≡ before ++ d ∷ behind)
          × (walk (pos (intn (suc n))) (pos 0) high ≡ some d.name)
          × (total_weight (pos 0) before ≤ℤ pos (intn (suc n)))
          × (pos (intn (suc n)) <ℤ wrap64 (total_weight (pos 0) before +ℤ d.weight))
        → (d : Candidate) × Memᴰ d high
          × (walked high (walk (pos (intn (suc n))) (pos 0) high) ≡ ok d.name)
    within (before, d, behind, s, w, _, _) = (d, rw s (Memᴰ-middle before behind d), rw w)

-- What `pick` returns from a list of positive weights: one of its candidates.
pick_lem :
    (intn : ℕ → ℕ) (high : List Candidate)
    → ((n : ℕ) → 0 < n → intn n < n)
    → high ≢ []
    → All (λ c. pos 1 ≤ℤ c.weight) high
    → sum_of_weights high ≤ℤ pos 9223372036854775807
    → (d : Candidate) × Memᴰ d high × (pick intn high ≡ ok d.name)
unfolding pick total_weight
pick_lem intn [] fair ne w fits = absurd (ne refl)
pick_lem intn (c ∷ []) fair ne w fits = (c, Memᴰ.head refl, refl)
pick_lem intn (c ∷ d ∷ cs) fair ne w fits = rolled (total_weight (pos 0) (c ∷ d ∷ cs)) refl
  where
    high : List Candidate
    high = c ∷ d ∷ cs

    positive : pos 1 ≤ℤ total_weight (pos 0) high
    positive =
        let one = w.0 in
        let rest = sum_of_weights-positive (d ∷ cs) w.1 in
        let sum : c.weight +ℤ sum_of_weights (d ∷ cs) ≤ℤ pos 9223372036854775807 = fits in
        let all : pos 0 +ℤ (c.weight +ℤ sum_of_weights (d ∷ cs)) ≤ℤ total_weight (pos 0) high =
          total_weight-grows (pos 0) high (omega arith) w (omega int_laws) in
        omega int_laws

    rolled :
        (t : ℤ)
        → total_weight (pos 0) high ≡ t
        → (x : Candidate) × Memᴰ x high × (roll intn high t ≡ ok x.name)
    rolled (pos zero) e = absurd (let p = positive in omega (arith, ap pos_part e, ap neg_part e))
    rolled (negsuc n) e = absurd (let p = positive in omega (arith, ap pos_part e, ap neg_part e))
    rolled (pos (suc n)) e = roll_lem intn high n fair e

-- A candidate reaches the highest priority, if none is below PriorityLow.
best_exists :
    (c : Candidate) (cs : List Candidate)
    → All (λ d. pos 0 ≤ℤ d.priority) (c ∷ cs)
    → (d : Candidate) × Memᴰ d (c ∷ cs) × (d.priority ≡ max_priority priority_low (c ∷ cs))
best_exists c cs h = reach (max_priority-Top priority_low (c ∷ cs))
  where
    reach :
        Top priority_low (c ∷ cs) (max_priority priority_low (c ∷ cs))
        → (d : Candidate) × Memᴰ d (c ∷ cs) × (d.priority ≡ max_priority priority_low (c ∷ cs))
    reach t = elim t.reached [
      | inl e ↦ (
        c,
        Memᴰ.head refl,
        eq_of_parts _ _
            (let low = h.0 in let high = t.all.0 in omega (arith, ap pos_part e, ap neg_part e)),
      )
      | inr found ↦ found
    ]

not_nil_of : (d : Candidate) (cs : List Candidate) → Memᴰ d cs → cs ≢ []
not_nil_of d [] m e = elim m [ ]
not_nil_of d (c ∷ cs) m e = cc

All-select_of :
    (P : Candidate → Type 0) (p : Candidate → Bool) (cs : List Candidate)
    → All P cs
    → All P (select p cs)
All-select_of P p [] h = tt
All-select_of P p (c ∷ cs) h = elim (Bool-cases (p c)) [
  | inl e ↦ rw e (h.0, All-select_of P p cs h.1)
  | inr e ↦ rw e (All-select_of P p cs h.1)
]

select_none :
    (p : Candidate → Bool) (cs : List Candidate) → All (λ c. p c ≡ false) cs → select p cs ≡ []
select_none p [] h = refl
select_none p (c ∷ cs) h = rw h.0 (select_none p cs h.1)

abbrev of_priority : Priority → Candidate → Bool
of_priority p d = eqb_ℤ d.priority p

-- Among candidates with positive weights, the sum of which is an int64, and no priority below
-- PriorityLow the queue that is chosen is one of the candidates, and none has a higher priority,
-- whatever number below its argument the random source answers.
pub choose_best :
    (intn : ℕ → ℕ) (c : Candidate) (cs : List Candidate)
    → ((n : ℕ) → 0 < n → intn n < n)
    → All (λ d. pos 0 ≤ℤ d.priority) (c ∷ cs)
    → All (λ d. pos 1 ≤ℤ d.weight) (c ∷ cs)
    → sum_of_weights (c ∷ cs) ≤ℤ pos 9223372036854775807
    → (d : Candidate) × Memᴰ d (c ∷ cs)
      × (choose intn (c ∷ cs) ≡ ok d.name)
      × All (λ x. x.priority ≤ℤ d.priority) (c ∷ cs)
unfolding choose
choose_best intn c cs fair low heavy fits =
    let (b, m, e) = best_exists c cs low in
    let present = Memᴰ-select test b (c ∷ cs) m ((eqb_ℤ_iff b.priority best).1 e) in
    let (d, i, r) =
      pick_lem intn (select test (c ∷ cs)) fair (not_nil_of b _ present)
        (All-select_of _ test (c ∷ cs) heavy)
        (let less = sum_of_weights-select test (c ∷ cs) heavy in omega int_laws) in
    let top = (eqb_ℤ_iff d.priority best).0 (All-Memᴰ _ d _ i (All-select test (c ∷ cs))) in
    (
      d,
      select-Memᴰ test d (c ∷ cs) i,
      r,
      subst (λ p. All (λ x. x.priority ≤ℤ p) (c ∷ cs)) (sym top)
          (max_priority-Top priority_low (c ∷ cs)).all,
    )
  where
    best : Priority
    best = max_priority priority_low (c ∷ cs)

    test : Candidate → Bool
    test = of_priority best

zero_best :
    (cs : List Candidate) → All (λ d. d.priority <ℤ pos 0) cs → max_priority priority_low cs ≡ pos 0
zero_best cs h = reach (max_priority-Top priority_low cs)
  where
    reach :
        Top priority_low cs (max_priority priority_low cs) → max_priority priority_low cs ≡ pos 0
    reach t = elim t.reached [
      | inl e ↦ e
      | inr (d, m, e) ↦ absurd (
          let low = All-Memᴰ (λ x. x.priority <ℤ pos 0) d cs m h in
          let high = t.start in omega (arith, ap pos_part e, ap neg_part e))
    ]

-- With every candidate below PriorityLow the selection panics.
pub choose_panics :
    (intn : ℕ → ℕ) (c : Candidate) (cs : List Candidate)
    → All (λ d. d.priority <ℤ pos 0) (c ∷ cs)
    → choose intn (c ∷ cs) ≡ panic
unfolding choose
choose_panics intn c cs h =
    ap (pick intn) (
      select_none (of_priority (max_priority priority_low (c ∷ cs))) (c ∷ cs) (
        subst (λ p. All (λ x. of_priority p x ≡ false) (c ∷ cs)) (sym (zero_best (c ∷ cs) h))
          (All-map _ (λ x. of_priority (pos 0) x ≡ false) (λ x low. ground arith) (c ∷ cs) h)))
    ∙ pick_none
  where
    pick_none : pick intn [] ≡ panic
    pick_none = unfold pick roll total_weight in refl
