-- ===== src/Memory/Jobs/Listing.antt =====
-- ListJobs of internal/storage/memory/memory.go: what a page holds.
use mathlib.Core.List.{Perm}
use mathlib.Core.List.Perm
use distributed_task_queue_s.Base.{
  ℕ, zero, suc, ◌<◌, ℤ, pos, negsuc, ◌≤ℤ◌, String, true, false, ◌≡◌, refl, ap, ◌∙◌, Bool-cases, inl,
  inr, leb, List, [], ◌∷◌, All, All-map, All-take, All-drop, All-select, length, length-take,
  length-drop, leb→le, sym, take_all, drop_all, take, drop, select, values, ok, arith,
}
use distributed_task_queue_s.Job.{Job, StatusFilter, after}
use distributed_task_queue_s.Memory.{MemoryStore}
use distributed_task_queue_s.Memory.Jobs.{
  job_matches, place_newest, newest_first, limit_page, paginate, list_jobs,
}

-- No job stands before one that was created later.
abbrev pub IsNewestFirst : List Job → Type 0
IsNewestFirst [] = Unit
IsNewestFirst (j ∷ js) = All (λ k. k.created_at ≤ℤ j.created_at) js × IsNewestFirst js

place_newest-perm : (j : Job) (js : List Job) → Perm (place_newest j js) (j ∷ js)
unfolding place_newest
place_newest-perm j [] = Perm.refl (j ∷ [])
place_newest-perm j (k ∷ ks) = elim (Bool-cases (after k.created_at j.created_at)) [
  | inl e ↦ rw e (Perm.trans (Perm.cons k (place_newest-perm j ks)) (Perm.swap j k ks))
  | inr e ↦ rw e (Perm.refl (j ∷ k ∷ ks))
]

newest_first-perm : (js : List Job) → Perm (newest_first js) js
unfolding newest_first
newest_first-perm [] = Perm.refl []
newest_first-perm (j ∷ js) =
    Perm.trans (place_newest-perm j (newest_first js)) (Perm.cons j (newest_first-perm js))

module _ (P : Job → Type 0) where
  All-place_newest : (j : Job) (js : List Job) → P j → All P js → All P (place_newest j js)
  unfolding place_newest
  All-place_newest j [] p h = (p, tt)
  All-place_newest j (k ∷ ks) p h = elim (Bool-cases (after k.created_at j.created_at)) [
    | inl e ↦ rw e (h.0, All-place_newest j ks p h.1)
    | inr e ↦ rw e (p, h)
  ]

  All-newest_first : (js : List Job) → All P js → All P (newest_first js)
  unfolding newest_first
  All-newest_first [] h = tt
  All-newest_first (j ∷ js) h = All-place_newest j (newest_first js) h.0 (All-newest_first js h.1)

after-le : (j k : Job) → after k.created_at j.created_at ≡ true → j.created_at ≤ℤ k.created_at
after-le j k h = ground arith

not_after-le : (j k : Job) → after k.created_at j.created_at ≡ false → k.created_at ≤ℤ j.created_at
not_after-le j k h = ground arith

place_newest-IsNewestFirst :
    (j : Job) (js : List Job) → IsNewestFirst js → IsNewestFirst (place_newest j js)
unfolding place_newest
place_newest-IsNewestFirst j [] s = (tt, tt)
place_newest-IsNewestFirst j (k ∷ ks) s = elim (Bool-cases (after k.created_at j.created_at)) [
  | inl e ↦ rw e (
    All-place_newest (λ x. x.created_at ≤ℤ k.created_at) j ks (after-le j k e) s.0,
    place_newest-IsNewestFirst j ks s.1,
  )
  | inr e ↦
      let below = not_after-le j k e in rw e ((below, All-map _ _ (λ x h. omega arith) ks s.0), s)
]

newest_first-IsNewestFirst : (js : List Job) → IsNewestFirst (newest_first js)
unfolding newest_first
newest_first-IsNewestFirst [] = tt
newest_first-IsNewestFirst (j ∷ js) =
    place_newest-IsNewestFirst j (newest_first js) (newest_first-IsNewestFirst js)

IsNewestFirst-take : (n : ℕ) (js : List Job) → IsNewestFirst js → IsNewestFirst (take n js)
IsNewestFirst-take zero js s = tt
IsNewestFirst-take (suc n) [] s = tt
IsNewestFirst-take (suc n) (j ∷ js) s = (All-take _ n js s.0, IsNewestFirst-take n js s.1)

IsNewestFirst-drop : (n : ℕ) (js : List Job) → IsNewestFirst js → IsNewestFirst (drop n js)
IsNewestFirst-drop zero js s = s
IsNewestFirst-drop (suc n) [] s = tt
IsNewestFirst-drop (suc n) (j ∷ js) s = IsNewestFirst-drop n js s.1

limit_page-take : (l : ℕ) (js : List Job) → 0 < l → limit_page (pos l) js ≡ take l js
limit_page-take l js h = ground (arith, take_all l js)

pub paginate-take :
    (l n : ℕ) (js : List Job) → 0 < l → paginate (pos l) (pos n) js ≡ ok (take l (drop n js))
unfolding paginate
paginate-take l n js h = elim (Bool-cases (leb (length js) n)) [
  | inl e ↦ rw (e, drop_all n js (leb→le _ _ e)) (ap ok (sym (take_all l [] (omega arith))))
  | inr e ↦ rw e (ap ok (limit_page-take l (drop n js) h))
]

paginate_unlimited :
    (limit : ℤ) (n : ℕ) (js : List Job)
    → limit ≤ℤ pos 0
    → paginate limit (pos n) js ≡ ok (drop n js)
unfolding paginate
paginate_unlimited limit n js h = elim (Bool-cases (leb (length js) n)) [
  | inl e ↦ rw (e, drop_all n js (leb→le _ _ e))
  | inr e ↦ rw e (ap ok (unlimited limit h))
]
  where
    unlimited : (i : ℤ) → i ≤ℤ pos 0 → limit_page i (drop n js) ≡ drop n js
    unlimited (pos zero) h = refl
    unlimited (pos (suc l)) h = absurd (omega arith)
    unlimited (negsuc l) h = refl

-- A page is a stretch of the list.
paginate_cases :
    (limit : ℤ) (n : ℕ) (js : List Job)
    → (k : ℕ) × (paginate limit (pos n) js ≡ ok (take k (drop n js)))
      × (pos 1 ≤ℤ limit → pos k ≤ℤ limit)
paginate_cases (pos (suc l)) n js =
    (suc l, paginate-take (suc l) n js (omega arith), λ h. omega arith)
paginate_cases (pos zero) n js = (
  length js,
  paginate_unlimited (pos zero) n js (omega arith)
      ∙ ap ok (sym (take_all (length js) (drop n js) (omega (arith, length-drop n js)))),
  λ h. absurd (omega arith),
)
paginate_cases (negsuc l) n js = (
  length js,
  paginate_unlimited (negsuc l) n js (omega arith)
      ∙ ap ok (sym (take_all (length js) (drop n js) (omega (arith, length-drop n js)))),
  λ h. absurd (omega arith),
)

-- Every page holds matching jobs only, newest first, and no more than the limit if there is one.
pub list_jobs-page :
    (queue : String) (status : StatusFilter) (limit : ℤ) (offset : ℕ) (m : MemoryStore)
    → (js : List Job) × ((list_jobs queue status limit (pos offset) m).0 ≡ ok js)
      × All (λ j. job_matches queue status j ≡ true) js
      × IsNewestFirst js
      × (pos 1 ≤ℤ limit → pos (length js) ≤ℤ limit)
unfolding list_jobs
list_jobs-page queue status limit offset m =
    let found = select (job_matches queue status) (values m.jobs) in
    let sorted = newest_first found in
    let (k, e, bound) = paginate_cases limit offset sorted in
    (
      take k (drop offset sorted),
      e,
      All-take _ k _
          (All-drop _ offset _ (All-newest_first _ found (All-select _ (values m.jobs)))),
      IsNewestFirst-take k _ (IsNewestFirst-drop offset _ (newest_first-IsNewestFirst found)),
      λ h. let b = bound h in omega (arith, length-take k (drop offset sorted)),
    )

-- With no limit and no offset every matching stored job is listed, as often as it is stored.
pub list_jobs-perm :
    (queue : String) (status : StatusFilter) (m : MemoryStore)
    → (js : List Job) × ((list_jobs queue status (pos 0) (pos 0) m).0 ≡ ok js)
      × Perm js (select (job_matches queue status) (values m.jobs))
unfolding list_jobs
list_jobs-perm queue status m = (
  newest_first (select (job_matches queue status) (values m.jobs)),
  paginate_unlimited (pos 0) 0 _ (omega arith),
  newest_first-perm (select (job_matches queue status) (values m.jobs)),
)
