-- ===== src/Memory/Jobs/Paging.antt =====
-- ListJobs of internal/storage/memory/memory.go: consecutive pages, when each call walks the map of the
-- jobs in an order of its own.
use mathlib.Core.List.{Memᴰ, Permᴰ}
use distributed_task_queue_s.Base.{
  ℕ, ◌+◌, ◌<◌, pos, String, Bool, true, false, ◌≡◌, refl, sym, ap, ◌∙◌, inl, inr, Bool-cases,
  eq_of_parts, ltb_ℤ→ge, List, [], ◌∷◌, ◌++◌, take-add, drop-add, drop, select, values, ok, arith,
  if◌then◌else◌,
}
use distributed_task_queue_s.Job.{Job, StatusFilter, after}
use distributed_task_queue_s.Memory.{MemoryStore}
use distributed_task_queue_s.Memory.Jobs.{
  job_matches, place_newest, newest_first, paginate, list_jobs,
}
use distributed_task_queue_s.Memory.Jobs.Listing.{paginate-take}

-- Of two different jobs, one was created later.
abbrev pub HasOwnTimes : List Job → Type 0
HasOwnTimes js = (j k : Job) → Memᴰ j js → Memᴰ k js → j.created_at ≡ k.created_at → j ≡ k

after_trans :
    (z k j : Job)
    → after z.created_at k.created_at ≡ true
    → after k.created_at j.created_at ≡ true
    → after z.created_at j.created_at ≡ true
after_trans z k j a b = ground arith

after_asym :
    (k j : Job) → after k.created_at j.created_at ≡ true → after j.created_at k.created_at ≡ false
after_asym k j a = ground arith

-- It does not matter which of two jobs is placed first.
place_older :
    (j k : Job) (zs : List Job)
    → after k.created_at j.created_at ≡ true
    → place_newest j (place_newest k zs) ≡ place_newest k (place_newest j zs)
unfolding place_newest
place_older j k [] e = rw (e, after_asym k j e) refl
place_older j k (z ∷ zs) e = elim (Bool-cases (after z.created_at k.created_at)) [
  | inl a ↦ let b = after_trans z k j a e in rw (a, b) (rw a (ap (◌∷◌ z) (place_older j k zs e)))
  | inr a ↦ elim (Bool-cases (after z.created_at j.created_at)) [
    | inl b ↦ rw (a, b) (rw e (rw a refl))
    | inr b ↦ rw (a, b) (rw (e, after_asym k j e) refl)
  ]
]

place_newest_comm :
    (j k : Job) (zs : List Job)
    → (j.created_at ≡ k.created_at → j ≡ k)
    → place_newest j (place_newest k zs) ≡ place_newest k (place_newest j zs)
place_newest_comm j k zs own = elim (Bool-cases (after k.created_at j.created_at)) [
  | inl a ↦ place_older j k zs a
  | inr a ↦ elim (Bool-cases (after j.created_at k.created_at)) [
    | inl b ↦ sym (place_older k j zs b)
    | inr b ↦
        let same = own (same_time a b) in
        ap (λ x. place_newest x (place_newest k zs)) same
        ∙ ap (λ x. place_newest k (place_newest x zs)) (sym same)
  ]
]
  where
    same_time :
        after k.created_at j.created_at ≡ false
        → after j.created_at k.created_at ≡ false
        → j.created_at ≡ k.created_at
    same_time a b =
        let low = ltb_ℤ→ge j.created_at k.created_at a in
        let high = ltb_ℤ→ge k.created_at j.created_at b in
        eq_of_parts j.created_at k.created_at (omega arith)

Memᴰ-Permᴰ : {j : Job} {xs ys : List Job} → Permᴰ xs ys → Memᴰ j ys → Memᴰ j xs
Memᴰ-Permᴰ Permᴰ.nil m = m
Memᴰ-Permᴰ (Permᴰ.cons e p) (Memᴰ.head f) = Memᴰ.head (f ∙ sym e)
Memᴰ-Permᴰ (Permᴰ.cons e p) (Memᴰ.tail m) = Memᴰ.tail (Memᴰ-Permᴰ p m)
Memᴰ-Permᴰ (Permᴰ.swap e f) (Memᴰ.head g) = Memᴰ.tail (Memᴰ.head (g ∙ sym f))
Memᴰ-Permᴰ (Permᴰ.swap e f) (Memᴰ.tail (Memᴰ.head g)) = Memᴰ.head (g ∙ sym e)
Memᴰ-Permᴰ (Permᴰ.swap e f) (Memᴰ.tail (Memᴰ.tail m)) = Memᴰ.tail (Memᴰ.tail m)
Memᴰ-Permᴰ (Permᴰ.trans p q) m = Memᴰ-Permᴰ p (Memᴰ-Permᴰ q m)

-- The jobs that pass a test, in the order of a listing.
abbrev listed : (Job → Bool) → List Job → List Job
listed t js = newest_first (select t js)

abbrev add_listed : Bool → Job → List Job → List Job
add_listed b j js = if b then place_newest j js else js

listed_cons :
    (t : Job → Bool) (j : Job) (js : List Job)
    → listed t (j ∷ js) ≡ add_listed (t j) j (listed t js)
unfolding newest_first
listed_cons t j js = elim (Bool-cases (t j)) [ inl e ↦ rw e refl | inr e ↦ rw e refl ]

add_listed_comm :
    (a b : Bool) (j k : Job) (zs : List Job)
    → (j.created_at ≡ k.created_at → j ≡ k)
    → add_listed a j (add_listed b k zs) ≡ add_listed b k (add_listed a j zs)
add_listed_comm true true j k zs own = place_newest_comm j k zs own
add_listed_comm true false j k zs own = refl
add_listed_comm false true j k zs own = refl
add_listed_comm false false j k zs own = refl

listed-Permᴰ :
    (t : Job → Bool) {xs ys : List Job} → HasOwnTimes xs → Permᴰ xs ys → listed t xs ≡ listed t ys
listed-Permᴰ t own Permᴰ.nil = refl
listed-Permᴰ t own (Permᴰ.cons {a = a} {b = b} {l₁ = l} {l₂ = r} e p) =
    listed_cons t a l
    ∙ ap (add_listed (t a) a) (listed-Permᴰ t (λ j k m n. own j k (Memᴰ.tail m) (Memᴰ.tail n)) p)
    ∙ ap (λ x. add_listed (t x) x (listed t r)) e
    ∙ sym (listed_cons t b r)
listed-Permᴰ t own (Permᴰ.swap {a = a} {b = b} {a' = c} {b' = d} {l = l} e f) =
    listed_cons t a (b ∷ l)
    ∙ ap (add_listed (t a) a) (listed_cons t b l)
    ∙ add_listed_comm (t a) (t b) a b (listed t l)
        (own a b (Memᴰ.head refl) (Memᴰ.tail (Memᴰ.head refl)))
    ∙ ap (λ x. add_listed (t b) b (add_listed (t x) x (listed t l))) e
    ∙ ap (λ x. add_listed (t x) x (add_listed (t d) d (listed t l))) f
    ∙ ap (add_listed (t c) c) (sym (listed_cons t d l))
    ∙ sym (listed_cons t c (d ∷ l))
listed-Permᴰ t own (Permᴰ.trans p q) =
    listed-Permᴰ t own p ∙ listed-Permᴰ t (λ j k m n. own j k (Memᴰ-Permᴰ p m) (Memᴰ-Permᴰ p n)) q

-- If no two jobs of the store were created at the same time, two consecutive pages of positive lengths
-- are together the page of both lengths, also when the second call walks the map of the jobs in another order than the
-- first: no job is repeated or missed between them.
pub list_jobs-append :
    (queue : String) (status : StatusFilter) (k l offset : ℕ) (m n : MemoryStore) {js ks : List Job}
    → 0 < k
    → 0 < l
    → HasOwnTimes (values m.jobs)
    → Permᴰ (values m.jobs) (values n.jobs)
    → (list_jobs queue status (pos k) (pos offset) m).0 ≡ ok js
    → (list_jobs queue status (pos l) (pos (offset + k)) n).0 ≡ ok ks
    → (list_jobs queue status (pos (k + l)) (pos offset) m).0 ≡ ok (js ++ ks)
unfolding list_jobs
list_jobs-append queue status k l offset m n {js} {ks} hk hl own p first second =
    let all = listed (job_matches queue status) (values m.jobs) in
    let again : paginate (pos l) (pos (offset + k)) all ≡ ok ks =
      ap (paginate (pos l) (pos (offset + k))) (listed-Permᴰ (job_matches queue status) own p)
      ∙ second in
    ground (
      arith,
      paginate-take k offset all,
      paginate-take l (offset + k) all,
      paginate-take (k + l) offset all,
      drop-add offset k all,
      take-add k l (drop offset all),
    )
