-- ===== src/Batching/Places.antt =====
-- Where a list holds an element, for the timers and calls of internal/features/batching.go.
use distributed_task_queue_s.Base.{
  ℕ, zero, suc, Bool, true, ◌≡◌, sym, subst, Bool-cases, ◌⊎◌, inl, inr, some, List, [], ◌∷◌, ◌++◌,
  length, select, get_elem?, get_elem?-append,
}
use distributed_task_queue_s.Batching.Schedule.{remove_at}

-- Where a list holds an element.
abbrev pub At {ℓ} : {A : Type ℓ} → A → List A → Type ℓ
At x xs = (k : ℕ) × (get_elem? xs k ≡ some x)

module _ {ℓ} {A : Type ℓ} where
  pub At-append_left : (x : A) (xs ys : List A) → At x xs → At x (xs ++ ys)
  At-append_left x (y ∷ xs) ys (zero, e) = (0, e)
  At-append_left x (y ∷ xs) ys (suc k, e) = let (l, f) = At-append_left x xs ys (k, e) in (suc l, f)
  At-append_left x [] ys (k, e) = absurd (cc)

  pub At-append_last : (x : A) (xs : List A) → At x (xs ++ x ∷ [])
  At-append_last x xs = (length xs, get_elem?-append xs x [])

  -- An element that is removed is the one that was at the place.
  pub At-remove_at :
      (x : A) (n : ℕ) (xs : List A) → At x xs → At x (remove_at n xs) ⊎ (get_elem? xs n ≡ some x)
  At-remove_at x n [] (k, e) = absurd (cc)
  At-remove_at x zero (y ∷ xs) (zero, e) = inr e
  At-remove_at x zero (y ∷ xs) (suc k, e) = inl (k, e)
  At-remove_at x (suc n) (y ∷ xs) (zero, e) = inl (0, e)
  At-remove_at x (suc n) (y ∷ xs) (suc k, e) = elim (At-remove_at x n xs (k, e)) [
    | inl (l, f) ↦ inl (suc l, f)
    | inr f ↦ inr f
  ]

  pub At-select : (p : A → Bool) (x : A) (xs : List A) → p x ≡ true → At x xs → At x (select p xs)
  At-select p x [] h (k, e) = absurd (cc)
  At-select p x (y ∷ xs) h (zero, e) = rw (subst (λ z. p z ≡ true) (sym (some_inj e)) h) (0, e)
    where
      some_inj : {a b : A} → some a ≡ some b → a ≡ b
      some_inj f = cc
  At-select p x (y ∷ xs) h (suc k, e) =
      let (l, f) = At-select p x xs h (k, e) in
      elim (Bool-cases (p y)) [ inl g ↦ rw g (suc l, f) | inr g ↦ rw g (l, f) ]
