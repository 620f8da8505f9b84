-- ===== src/Pool/Shutdown.antt =====
-- How the fetch loop of internal/worker/pool.go comes to its end after Stop, and one worker loop.
use distributed_task_queue_s.Base.{
  ℕ, pos, ltb_ℤ, Bool, true, false, ◌||◌, if◌then◌else◌, ◌≡◌, refl, ap, ◌∙◌, inl, inr, Bool-cases,
  List, [], ◌∷◌, ◌++◌, length, get_elem?, get_elem?-append, Outcome, ok, err, panic,
}
use distributed_task_queue_s.Job.{Job, Time}
use distributed_task_queue_s.Manager.Storage.{Storage}
use distributed_task_queue_s.Manager.Jobs.{dequeue, requeue}
use distributed_task_queue_s.Pool.Panics.{Calm, NoPanics}
use distributed_task_queue_s.Pool.Returning.{requeue-Safe}
use distributed_task_queue_s.Pool.Setup.{Pool, manage}
use distributed_task_queue_s.Pool.Loops.{
  Fetcher, polling, filling, sending, returned, Hand, free, gone, Run, Event, fetcher_stops, fetch,
  give_back, leave, set_at, leave_in, fetched_one, settle, give_job_back, fetch_in, give_back_from,
  stop_in, move, moves, drained,
}

abbrev pub all_gone : List Hand → List Hand
all_gone [] = []
all_gone (h ∷ hs) = gone ∷ all_gone hs

pub set_at-append {ℓ} :
    {A : Type ℓ} (xs : List A) (y z : A) (ys : List A)
    → set_at (length xs) z (xs ++ y ∷ ys) ≡ xs ++ z ∷ ys
set_at-append [] y z ys = refl
set_at-append (x ∷ xs) y z ys = ap (◌∷◌ x) (set_at-append xs y z ys)

module _ {S : Type 0} where
  pub settle_lem :
      (o : Outcome (Unit {0}) × Pool S) (f : Pool S → Run S) (r : Run S)
      → Calm o.0
      → settle o f r ≡ f o.1
  settle_lem (ok a, q) f r c = refl
  settle_lem (err e, q) f r c = refl
  settle_lem (panic, q) f r c = absurd c

  -- Stop has been called, and no panic has ended the program.
  pub record Stopping (r : Run S) : Type 0 where
    pub stopping : r.stopping ≡ true
    pub running : r.ended ≡ false

module _ {S : Type 0} (st : Storage S) where
  -- A run leads from one state to the other.
  abbrev pub Reaches : Run S → Run S → Type 0
  Reaches r t = (es : List Event) × (moves st es r ≡ t)

  pub stays : (r : Run S) → Reaches r r
  unfolding moves
  stays r = ([], refl)

  pub steps :
      (e : Event) (r s t : Run S) → r.ended ≡ false → move st e r ≡ s → Reaches s t → Reaches r t
  unfolding moves
  steps e r s t run m (es, p) =
      (e ∷ es, ap (λ b. moves st es (if b then r else move st e r)) run ∙ ap (moves st es) m ∙ p)

  moves-append :
      (es fs : List Event) (r : Run S) → moves st (es ++ fs) r ≡ moves st fs (moves st es r)
  unfolding moves
  moves-append [] fs r = refl
  moves-append (e ∷ es) fs r = moves-append es fs (if r.ended then r else move st e r)

  pub joined : (r s t : Run S) → Reaches r s → Reaches s t → Reaches r t
  joined r s t (es, p) (fs, q) = (es ++ fs, moves-append es fs r ∙ ap (moves st fs) p ∙ q)

  -- A worker loop that waits for a job returns.
  pub leaves :
      (pre rest : List Hand) (r : Run S)
      → Stopping r
      → r.hands ≡ pre ++ free ∷ rest
      → move st (leave (length pre)) r ≡ record r { hands = pre ++ gone ∷ rest }
  unfolding move
  leaves pre rest r s e =
      ap (λ o. leave_in (length pre) o r)
        (ap (λ hs. get_elem? hs (length pre)) e ∙ get_elem?-append pre free rest)
      ∙ ap
          (λ b.
            if b || drained r.fetcher r.job_ch
            then record r { hands = set_at (length pre) gone r.hands }
            else r)
          s.stopping
      ∙ ap (λ hs. record r { hands = hs })
          (ap (set_at (length pre) gone) e ∙ set_at-append pre free gone rest)

  -- A state after r in which Stop is still under way, with the same jobs in the channel.
  pub record Onward (r : Run S) (f : Fetcher) (hs : List Hand) : Type 0 where
    pub final : Run S
    pub reached : Reaches r final
    pub still : Stopping final
    pub fetcher : final.fetcher ≡ f
    pub hands : final.hands ≡ hs
    pub channel : final.job_ch ≡ r.job_ch

  pub onward :
      (e : Event) (r s : Run S) (f : Fetcher) (hs : List Hand)
      → r.ended ≡ false
      → move st e r ≡ s
      → s.job_ch ≡ r.job_ch
      → Onward s f hs
      → Onward r f hs
  onward e r s f hs run m same o = record {
    final = o.final;
    reached = steps e r s o.final run m o.reached;
    still = o.still;
    fetcher = o.fetcher;
    hands = o.hands;
    channel = o.channel ∙ same;
  }

  -- The fetch loop returns: first from its ticker, then with a job to give back, then from anywhere.
  polling_returns : (r : Run S) → Stopping r → r.fetcher ≡ polling → Onward r returned r.hands
  unfolding move
  polling_returns r s e =
      onward fetcher_stops r (record r { fetcher = returned }) returned r.hands s.running
        (ap (λ f. stop_in f r) e
          ∙ ap (λ b. if b then record r { fetcher = returned } else r) s.stopping)
        refl
        (record {
          final = record r { fetcher = returned };
          reached = stays (record r { fetcher = returned });
          still = record { stopping = s.stopping; running = s.running };
          fetcher = refl;
          hands = refl;
          channel = refl;
        })

module _ {S : Type 0} (st : Storage S) (np : NoPanics st) where
  gives_back :
      (j : Job) (now : Time) (r : Run S)
      → Stopping r
      → r.fetcher ≡ sending j
      → move st (give_back now) r ≡ give_job_back j r (manage (requeue st j (pos 0) now) r.pool)
  unfolding move
  gives_back j now r s e =
      ap (λ f. give_back_from st f now r) e
      ∙ ap (λ b. if b then give_job_back j r (manage (requeue st j (pos 0) now) r.pool) else r)
          s.stopping

  given_back_returns :
      (j : Job) (o : Outcome (Unit {0}) × Pool S) (r : Run S)
      → Stopping r
      → Calm o.0
      → Onward st (give_job_back j r o) returned r.hands
  given_back_returns j (ok a, q) r s c =
      polling_returns st (give_job_back j r (ok a, q))
        (record { stopping = s.stopping; running = s.running }) refl
  given_back_returns j (err x, q) r s c =
      polling_returns st (give_job_back j r (err x, q))
        (record { stopping = s.stopping; running = s.running }) refl
  given_back_returns j (panic, q) r s c = absurd c

  channel_kept :
      (j : Job) (o : Outcome (Unit {0}) × Pool S) (r : Run S)
      → (give_job_back j r o).job_ch ≡ r.job_ch
  channel_kept j (ok a, q) r = refl
  channel_kept j (err x, q) r = refl
  channel_kept j (panic, q) r = refl

  sending_returns :
      (j : Job) (r : Run S) → Stopping r → r.fetcher ≡ sending j → Onward st r returned r.hands
  sending_returns j r s e =
      let o = manage (requeue st j (pos 0) (pos 0)) r.pool in
      onward st (give_back (pos 0)) r (give_job_back j r o) returned r.hands s.running
        (gives_back j (pos 0) r s e) (channel_kept j o r)
        (given_back_returns j o r s
          (requeue-Safe st np r.pool.worker.id j (pos 0) (pos 0) r.pool.queue_manager))

  fetched_returns :
      (o : Outcome Job × Pool S) (r : Run S)
      → Stopping r
      → Calm o.0
      → Onward st (fetched_one o r) returned r.hands
  fetched_returns (ok j, q) r s c =
      sending_returns j (fetched_one (ok j, q) r)
        (record { stopping = s.stopping; running = s.running }) refl
  fetched_returns (err e, q) r s c =
      polling_returns st (fetched_one (err e, q) r)
        (record { stopping = s.stopping; running = s.running }) refl
  fetched_returns (panic, q) r s c = absurd c

  same_channel : (o : Outcome Job × Pool S) (r : Run S) → (fetched_one o r).job_ch ≡ r.job_ch
  same_channel (ok j, q) r = refl
  same_channel (err e, q) r = refl
  same_channel (panic, q) r = refl

  filling_returns :
      (intn : ℕ → ℕ) (now : ℕ → Time) (r : Run S)
      → Stopping r
      → r.fetcher ≡ filling
      → Calm (dequeue st intn r.pool.queues now r.pool.queue_manager).0
      → Onward st r returned r.hands
  unfolding move
  filling_returns intn now r s e c =
      let taken = manage (dequeue st intn r.pool.queues now) r.pool in
      let full : Run S = record r { fetcher = polling } in
      let next = λ (b : Bool). if b then fetched_one taken r else full in
      elim (Bool-cases (ltb_ℤ (pos (length r.job_ch)) r.pool.concurrency)) [
        | inl b ↦
            onward st (fetch intn now) r (fetched_one taken r) returned r.hands s.running
              (ap (λ f. fetch_in st f intn now r) e ∙ ap next b) (same_channel taken r)
              (fetched_returns taken r s c)
        | inr b ↦
            onward st (fetch intn now) r full returned r.hands s.running
              (ap (λ f. fetch_in st f intn now r) e ∙ ap next b) refl
              (polling_returns st full (record { stopping = s.stopping; running = s.running }) refl)
      ]

  pub fetcher_returns :
      (f : Fetcher) (intn : ℕ → ℕ) (now : ℕ → Time) (r : Run S)
      → Stopping r
      → r.fetcher ≡ f
      → Calm (dequeue st intn r.pool.queues now r.pool.queue_manager).0
      → Onward st r returned r.hands
  fetcher_returns polling intn now r s e c = polling_returns st r s e
  fetcher_returns filling intn now r s e c = filling_returns intn now r s e c
  fetcher_returns (sending j) intn now r s e c = sending_returns j r s e
  fetcher_returns returned intn now r s e c = record {
    final = r;
    reached = stays st r;
    still = s;
    fetcher = e;
    hands = refl;
    channel = refl;
  }
