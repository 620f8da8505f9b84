-- ===== src/Memory/Queues/Choice.antt =====
-- Which entry Dequeue of internal/storage/memory/memory.go takes.
use mathlib.Core.List.{append-nil, append_assoc}
use distributed_task_queue_s.Base.{
  ℕ, ◌+◌, ℤ, ltb_ℤ, ltb_ℤ→lt, ltb_ℤ→ge, ◌<ℤ◌, ◌≤ℤ◌, All-map, Bool-cases, subst, true, false, ◌≡◌,
  refl, ◌⊎◌, inl, inr, none, some, List, [], ◌∷◌, ◌++◌, All, All-append, length, length-append,
  arith,
}
use distributed_task_queue_s.Job.{Time, after}
use distributed_task_queue_s.Memory.{QueueEntry}
use distributed_task_queue_s.Memory.Queues.{Best, consider, scan, no_best}

-- An entry whose time has come.
abbrev pub IsReady : Time → QueueEntry → Type 0
IsReady now e = after e.timestamp now ≡ false

-- `e` stands between `before` and `behind`, is ready, outranks every ready entry before it, and is
-- outranked by none behind it.
pub record IsChoice (now : Time) (before : List QueueEntry) (e : QueueEntry)
    (behind : List QueueEntry) : Type 0 where
  pub ready : IsReady now e
  pub above : All (λ x. IsReady now x → x.priority <ℤ e.priority) before
  pub first : All (λ x. IsReady now x → x.priority ≤ℤ e.priority) behind

-- What the loop knows after the entries `seen`.
data Knows (now : Time) (seen : List QueueEntry) (b : Best) : Type 0 where
  nothing : b.idx ≡ none → All (λ x. after x.timestamp now ≡ true) seen → Knows now seen b
  choice :
      (before : List QueueEntry) (e : QueueEntry) (behind : List QueueEntry)
      → seen ≡ before ++ e ∷ behind
      → b.idx ≡ some (length before)
      → b.priority ≡ e.priority
      → IsChoice now before e behind
      → Knows now seen b

-- The facts about `consider` on its three branches.
consider_late :
    (now : Time) (e : QueueEntry) (i : ℕ) (b : Best)
    → after e.timestamp now ≡ true
    → consider now e i b ≡ b
unfolding consider
consider_late now e i b h = rw h

consider_takes :
    (now : Time) (e : QueueEntry) (i : ℕ) (b : Best)
    → IsReady now e
    → (b.idx ≡ none) ⊎ (b.priority <ℤ e.priority)
    → consider now e i b ≡ record { idx = some i; priority = e.priority }
unfolding consider
consider_takes now e i b r (inl h) = rw (r, h)
consider_takes now e i b r (inr h) = ground arith

consider_keeps :
    (now : Time) (e : QueueEntry) (i k : ℕ) (b : Best)
    → b.idx ≡ some k
    → e.priority ≤ℤ b.priority
    → consider now e i b ≡ b
unfolding consider
consider_keeps now e i k b s h = ground arith

All-not-IsReady :
    (now : Time) (p : ℤ) (xs : List QueueEntry)
    → All (λ x. after x.timestamp now ≡ true) xs
    → All (λ x. IsReady now x → x.priority <ℤ p) xs
All-not-IsReady now p xs h = All-map _ _ (λ x late ready. cc) xs h

IsChoice-extend :
    {now : Time} {before behind : List QueueEntry} {e : QueueEntry} (x : QueueEntry)
    → (IsReady now x → x.priority ≤ℤ e.priority)
    → IsChoice now before e behind
    → IsChoice now before e (behind ++ x ∷ [])
IsChoice-extend {behind = behind} x h c = record {
  ready = c.ready;
  above = c.above;
  first = All-append _ behind (x ∷ []) c.first (h, tt);
}

IsChoice-beaten :
    {now : Time} {before behind : List QueueEntry} {e : QueueEntry} (x : QueueEntry)
    → e.priority <ℤ x.priority
    → IsChoice now before e behind
    → All (λ y. IsReady now y → y.priority <ℤ x.priority) (before ++ e ∷ behind)
IsChoice-beaten {before = before} {behind = behind} {e = e} x h c =
    All-append _ before (e ∷ behind)
      (All-map _ _ (λ y k r. let k' = k r in omega arith) before c.above)
      (λ _. h, All-map _ _ (λ y k r. let k' = k r in omega arith) behind c.first)

consider-Knows :
    (now : Time) (seen : List QueueEntry) (e : QueueEntry) (b : Best)
    → Knows now seen b
    → Knows now (seen ++ e ∷ []) (consider now e (length seen) b)
consider-Knows now seen e b k = elim (Bool-cases (after e.timestamp now)) [
  | inl late ↦ rw (consider_late now e (length seen) b late) (skip late k)
  | inr ready ↦ on_ready ready k
]
  where
    skip : after e.timestamp now ≡ true → Knows now seen b → Knows now (seen ++ e ∷ []) b
    skip late (nothing n h) = nothing n (All-append _ seen (e ∷ []) h (late, tt))
    skip late (choice before x behind s i p c) =
        choice before x (behind ++ e ∷ []) (rw s (append_assoc before (x ∷ behind) (e ∷ []))) i p
          (IsChoice-extend e (λ ready. cc) c)

    on_ready :
        IsReady now e
        → Knows now seen b
        → Knows now (seen ++ e ∷ []) (consider now e (length seen) b)
    on_ready ready (nothing n h) = rw (consider_takes now e (length seen) b ready (inl n)) (
        choice seen e [] refl refl refl
          (record { ready = ready; above = All-not-IsReady now e.priority seen h; first = tt }))
    on_ready ready (choice before x behind s i p c) =
        elim (Bool-cases (ltb_ℤ b.priority e.priority)) [
          | inl lower ↦
              rw
                (consider_takes now e (length seen) b ready
                  (inr (ltb_ℤ→lt b.priority e.priority lower)))
                (choice seen e [] refl refl refl (record {
                  ready = ready;
                  above = rw s (
                      IsChoice-beaten e
                        (subst (λ z. z <ℤ e.priority) p (ltb_ℤ→lt b.priority e.priority lower)) c);
                  first = tt;
                }))
          | inr higher ↦
              rw
                (consider_keeps now e (length seen) (length before) b i
                  (ltb_ℤ→ge b.priority e.priority higher))
                (choice before x (behind ++ e ∷ [])
                  (rw s (append_assoc before (x ∷ behind) (e ∷ []))) i p
                  (IsChoice-extend e
                    (λ _. subst (λ z. e.priority ≤ℤ z) p (ltb_ℤ→ge b.priority e.priority higher))
                    c))
        ]

scan-Knows :
    (now : Time) (seen es : List QueueEntry) (i : ℕ) (b : Best)
    → i ≡ length seen
    → Knows now seen b
    → Knows now (seen ++ es) (scan now es i b)
unfolding scan
scan-Knows now seen [] i b h k = rw (append-nil seen) k
scan-Knows now seen (e ∷ es) i b h k =
    subst (λ l. Knows now l (scan now es (i + 1) (consider now e i b)))
      (append_assoc seen (e ∷ []) es)
      (scan-Knows now (seen ++ e ∷ []) es (i + 1) (consider now e i b)
        (omega (arith, length-append seen (e ∷ []))) (rw h (consider-Knows now seen e b k)))

-- The loop of Dequeue over all entries: it finds a choice, or no entry is ready.
pub scan_lem :
    (now : Time) (es : List QueueEntry)
    → ((before : List QueueEntry) × (e : QueueEntry) × (behind : List QueueEntry) × (es
          ≡ before ++ e ∷ behind)
        × ((scan now es 0 no_best).idx ≡ some (length before))
        × IsChoice now before e behind)
      ⊎ (((scan now es 0 no_best).idx ≡ none) × All (λ x. after x.timestamp now ≡ true) es)
scan_lem now es = read (scan-Knows now [] es 0 no_best refl (nothing refl tt))
  where
    read :
        Knows now es (scan now es 0 no_best)
        → ((before : List QueueEntry) × (e : QueueEntry) × (behind : List QueueEntry) × (es
              ≡ before ++ e ∷ behind)
            × ((scan now es 0 no_best).idx ≡ some (length before))
            × IsChoice now before e behind)
          ⊎ (((scan now es 0 no_best).idx ≡ none) × All (λ x. after x.timestamp now ≡ true) es)
    read (nothing n h) = inr (n, h)
    read (choice before e behind s i p c) = inl (before, e, behind, s, i, c)
