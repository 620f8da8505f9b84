-- ===== src/Pool/Stopping.antt =====
-- Stop of internal/worker/pool.go can always come to its end.
use mathlib.Core.List.{append_assoc}
use distributed_task_queue_s.Base.{
  ℕ, false, if◌then◌else◌, ◌≡◌, refl, ap, sym, subst, ◌∙◌, List, [], ◌∷◌, ◌++◌, length, get_elem?,
  get_elem?-append,
}
use distributed_task_queue_s.Job.{Job, Time}
use distributed_task_queue_s.Manager.Storage.{Storage}
use distributed_task_queue_s.Manager.Jobs.{dequeue}
use distributed_task_queue_s.Pool.Running.{process_job}
use distributed_task_queue_s.Pool.Panics.{Calm, NoPanics}
use distributed_task_queue_s.Pool.Returning.{process_job-ok}
use distributed_task_queue_s.Pool.Setup.{manage}
use distributed_task_queue_s.Pool.Loops.{
  returned, Hand, free, busy, gone, Run, beat_stops, leave, process, set_at, finish_job, process_in,
  move,
}
use distributed_task_queue_s.Pool.Shutdown.{
  Stopping, Reaches, Onward, onward, leaves, fetcher_returns, joined, settle_lem, stays, steps,
  all_gone, set_at-append,
}

module _ {S : Type 0} (st : Storage S) (np : NoPanics st) (now : ℕ → Time) where
  one_leaves :
      (pre hs : List Hand) (r : Run S)
      → Stopping r
      → r.hands ≡ pre ++ free ∷ hs
      → ((t : Run S)
          → Stopping t
          → t.hands ≡ pre ++ gone ∷ hs
          → Onward st t t.fetcher (pre ++ gone ∷ all_gone hs))
      → Onward st r r.fetcher (pre ++ gone ∷ all_gone hs)
  one_leaves pre hs r s e rest =
      let t : Run S = record r { hands = pre ++ gone ∷ hs } in
      onward st (leave (length pre)) r t r.fetcher (pre ++ gone ∷ all_gone hs) s.running
        (leaves st pre hs r s e) refl
        (rest t (record { stopping = s.stopping; running = s.running }) refl)

  one_finishes :
      (j : Job) (pre hs : List Hand) (r : Run S)
      → r.hands ≡ pre ++ busy j ∷ hs
      → move st (process (length pre) now) r
        ≡ finish_job
            (length pre)
            j
            r
            (manage (process_job st r.pool.worker.id r.pool.handlers j now) r.pool).1
  unfolding move
  one_finishes j pre hs r e =
      ap (λ o. process_in st (length pre) now o r)
        (ap (λ h. get_elem? h (length pre)) e ∙ get_elem?-append pre (busy j) hs)
      ∙ settle_lem (manage (process_job st r.pool.worker.id r.pool.handlers j now) r.pool)
          (finish_job (length pre) j r) r
          (subst Calm
            (sym (process_job-ok st np r.pool.worker.id r.pool.handlers j now r.pool.queue_manager))
            tt)

  one_busy_leaves :
      (j : Job) (pre hs : List Hand) (r : Run S)
      → Stopping r
      → r.hands ≡ pre ++ busy j ∷ hs
      → ((t : Run S)
          → Stopping t
          → t.hands ≡ pre ++ gone ∷ hs
          → Onward st t t.fetcher (pre ++ gone ∷ all_gone hs))
      → Onward st r r.fetcher (pre ++ gone ∷ all_gone hs)
  one_busy_leaves j pre hs r s e rest =
      let t : Run S =
        finish_job (length pre) j r
          (manage (process_job st r.pool.worker.id r.pool.handlers j now) r.pool).1 in
      onward st (process (length pre) now) r t r.fetcher (pre ++ gone ∷ all_gone hs) s.running
        (one_finishes j pre hs r e) refl
        (one_leaves pre hs t (record { stopping = s.stopping; running = s.running })
          (ap (set_at (length pre) free) e ∙ set_at-append pre (busy j) free hs) rest)

  -- The worker loops return one after the other; those before them have.
  hands_leave :
      (pre hs : List Hand) (r : Run S)
      → Stopping r
      → r.hands ≡ pre ++ hs
      → Onward st r r.fetcher (pre ++ all_gone hs)
  hands_leave pre [] r s e = record {
    final = r;
    reached = stays st r;
    still = s;
    fetcher = refl;
    hands = e;
    channel = refl;
  }
  hands_leave pre (h ∷ hs) r s e = by_hand h e (λ t u f.
      subst (Onward st t t.fetcher) (append_assoc pre (gone ∷ []) (all_gone hs))
        (hands_leave (pre ++ gone ∷ []) hs t u (f ∙ sym (append_assoc pre (gone ∷ []) hs))))
    where
      by_hand :
          (k : Hand)
          → r.hands ≡ pre ++ k ∷ hs
          → ((t : Run S)
              → Stopping t
              → t.hands ≡ pre ++ gone ∷ hs
              → Onward st t t.fetcher (pre ++ gone ∷ all_gone hs))
          → Onward st r r.fetcher (pre ++ gone ∷ all_gone hs)
      by_hand free e rest = one_leaves pre hs r s e rest
      by_hand (busy j) e rest = one_busy_leaves j pre hs r s e rest
      by_hand gone e rest = rest r s e

  -- Once stopCh is closed, from any state in which no panic has ended the program, the goroutines can
  -- move so that all have returned, over a backend whose methods do not panic and when a Dequeue now
  -- would not either; the channel then holds the jobs that it held before.
  pub moves-stops :
      (intn : ℕ → ℕ) (r : Run S)
      → Stopping r
      → Calm (dequeue st intn r.pool.queues now r.pool.queue_manager).0
      → (t : Run S) × Reaches st r t
        × (t.fetcher ≡ returned)
        × (t.hands ≡ all_gone r.hands)
        × (t.beating ≡ false)
        × (t.ended ≡ false)
        × (t.job_ch ≡ r.job_ch)
  unfolding move
  moves-stops intn r s c =
      let o1 = fetcher_returns st np r.fetcher intn now r s refl c in
      let o2 = hands_leave [] o1.final.hands o1.final o1.still refl in
      let t : Run S = record o2.final { beating = false } in
      let quiet : move st beat_stops o2.final ≡ t =
        ap (λ b. if b then t else o2.final) o2.still.stopping in
      (
        t,
        joined st r o1.final t o1.reached (
            joined st o1.final o2.final t o2.reached
              (steps st beat_stops o2.final t t o2.still.running quiet (stays st t))),
        o2.fetcher ∙ o1.fetcher,
        o2.hands ∙ ap all_gone o1.hands,
        refl,
        o2.still.running,
        o2.channel ∙ o1.channel,
      )
