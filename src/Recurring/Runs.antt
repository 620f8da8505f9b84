-- ===== src/Recurring/Runs.antt =====
-- How often and how soon internal/scheduler/scheduler.go runs a schedule.
use distributed_task_queue_s.Base.{
  ℕ, suc, pos, ◌+ℤ◌, ltb_ℤ, lt→ltb_ℤ, ◌<ℤ◌, ◌≤ℤ◌, +ℤ_parts, ◌==◌, eq_iff, String, true, false, ◌≡◌,
  refl, sym, ap, subst, ◌∙◌, ◌⊎◌, then-keeps, inl, inr, some, List, [], ◌∷◌, Bool-cases,
  Option-cases, lookup, lookup-insert, insert, Everywhere, insert-Everywhere, Outcome, ok, err,
  panic, handle, arith,
}
use distributed_task_queue_s.Job.{Job, Time, after}
use distributed_task_queue_s.Manager.{Manager}
use distributed_task_queue_s.Manager.Storage.{Storage}
use distributed_task_queue_s.Manager.Jobs.{enqueue}
use distributed_task_queue_s.Recurring.{Schedule, Scheduler}
use distributed_task_queue_s.Recurring.Cron.{Calendar, parse_next_cron_time}
use distributed_task_queue_s.Recurring.Ticks.{
  advance, renew_cron, exhausted, execute_schedule, job_of, replace, manager_back, visit, visit_id,
  process_due_schedules,
}

-- A schedule has not run more often than its limit allows, and one that has run on an interval is due
-- one interval after its last run.
pub record Sound (s : Schedule) : Type 0 where
  pub within : pos 0 <ℤ s.max_runs → s.run_count ≤ℤ s.max_runs
  pub paced : (t : Time) → s.last_run ≡ some t → pos 0 <ℤ s.interval → s.next_run ≡ t +ℤ s.interval

advance-counts :
    (cal : Calendar) (now : Time) (s : Schedule)
    → ((advance cal now s).run_count ≡ s.run_count +ℤ pos 1)
      × ((advance cal now s).max_runs ≡ s.max_runs)
      × ((advance cal now s).interval ≡ s.interval)
      × ((advance cal now s).last_run ≡ some now)
unfolding advance
advance-counts cal now s = elim (Bool-cases (ltb_ℤ (pos 0) s.interval)) [
  | inl e ↦ rw e (refl, refl, refl, refl)
  | inr e ↦ rw e (elim (Bool-cases (s.cron_expr == "")) [
    | inl f ↦ rw f (refl, refl, refl, refl)
    | inr f ↦ rw f (renewed (parse_next_cron_time cal s.cron_expr now))
  ])
]
  where
    t : Schedule
    t = record s { last_run = some now; run_count = s.run_count +ℤ pos 1; updated_at = now }

    renewed :
        (o : Outcome Time)
        → ((renew_cron t o).run_count ≡ s.run_count +ℤ pos 1)
          × ((renew_cron t o).max_runs ≡ s.max_runs)
          × ((renew_cron t o).interval ≡ s.interval)
          × ((renew_cron t o).last_run ≡ some now)
    renewed (ok _) = (refl, refl, refl, refl)
    renewed (err _) = (refl, refl, refl, refl)
    renewed panic = (refl, refl, refl, refl)

advance-next :
    (cal : Calendar) (now : Time) (s : Schedule)
    → pos 0 <ℤ s.interval
    → (advance cal now s).next_run ≡ now +ℤ s.interval
unfolding advance
advance-next cal now s h = rw (lt→ltb_ℤ (pos 0) s.interval h) refl

advance-Sound :
    (cal : Calendar) (now : Time) (s : Schedule)
    → exhausted s ≡ false
    → Sound s
    → Sound (advance cal now s)
advance-Sound cal now s room i =
    let (count, top, interval, last) = advance-counts cal now s in
    record { within = λ h. within count top h; paced = λ t e h. paced interval last t e h }
  where
    within :
        (advance cal now s).run_count ≡ s.run_count +ℤ pos 1
        → (advance cal now s).max_runs ≡ s.max_runs
        → pos 0 <ℤ (advance cal now s).max_runs
        → (advance cal now s).run_count ≤ℤ (advance cal now s).max_runs
    within count top h = rw (count, top) (ground (arith, i.within, +ℤ_parts s.run_count (pos 1)))

    paced :
        (advance cal now s).interval ≡ s.interval
        → (advance cal now s).last_run ≡ some now
        → (t : Time) → (advance cal now s).last_run ≡ some t
        → pos 0 <ℤ (advance cal now s).interval
        → (advance cal now s).next_run ≡ t +ℤ (advance cal now s).interval
    paced interval last t e h = rw interval (
        advance-next cal now s (subst (λ d. pos 0 <ℤ d) interval h)
        ∙ ap (λ x. x +ℤ s.interval) same)
      where
        same : now ≡ t
        same = cc

module _ {S : Type 0} (st : Storage S) (cal : Calendar) where
  -- What a round does to the schedules.
  abbrev pub Visited : String → Schedule → Scheduler S → Scheduler S → Type 0
  Visited id s g h =
      (h.schedules ≡ g.schedules)
      ⊎ ((t : Schedule) × (Sound s → Sound t) × (h.schedules ≡ insert id t g.schedules))

  visit-Visited :
      (uuid : String) (clock : ℕ → Time) (now : Time) (id : String) (s : Schedule) (g : Scheduler S)
      → Visited id s g (visit st cal uuid clock now id s g).1
  unfolding visit execute_schedule
  visit-Visited uuid clock now id s g = elim (Bool-cases s.enabled) [
    | inr off ↦ simp off (inl refl)
    | inl on ↦ elim (Bool-cases (after s.next_run now)) [
      | inl early ↦ simp (on, early) (inl refl)
      | inr due ↦ elim (Bool-cases (exhausted s)) [
        | inl out ↦
            simp (on, due, out)
              (inr (
                record s { enabled = false },
                λ i. record { within = i.within; paced = i.paced },
                refl,
              ))
        | inr room ↦
            simp (on, due, room)
              (ran room
                (enqueue st (job_of uuid clock s) (λ k. clock (suc (suc (suc k)))) g.manager))
      ]
    ]
  ]
    where
      ran :
          exhausted s ≡ false
          → (r : Outcome Job × Manager S)
          → Visited id s g
              (handle
                (λ h. manager_back st cal h r)
                (λ _. replace st cal id (advance cal now s))
                (λ _ h. (ok tt, h))
                g).1
      ran room (ok j, m) = inr (advance cal now s, advance-Sound cal now s room, refl)
      ran room (err e, m) = inl refl
      ran room (panic, m) = inl refl

  visit_id-Visited :
      (uuid : String) (clock : ℕ → Time) (now : Time) (id : String) (g : Scheduler S)
      → ((visit_id st cal uuid clock now id g).1.schedules ≡ g.schedules)
        ⊎ ((s : Schedule) × (lookup id g.schedules ≡ some s)
            × (visit_id st cal uuid clock now id g ≡ visit st cal uuid clock now id s g))
  unfolding visit_id
  visit_id-Visited uuid clock now id g = elim (Option-cases (lookup id g.schedules)) [
    | inl e ↦ inl (rw (e, visit_id))
    | inr (s, e) ↦ inr (s, e, rw (e, visit_id))
  ]

  visit_id-Sound :
      (uuid : String) (clock : ℕ → Time) (now : Time) (id : String) (g : Scheduler S)
      → Everywhere Sound g.schedules
      → Everywhere Sound (visit_id st cal uuid clock now id g).1.schedules
  visit_id-Sound uuid clock now id g all = elim (visit_id-Visited uuid clock now id g) [
    | inl e ↦ subst (Everywhere Sound) (sym e) all
    | inr (s, found, e) ↦
        subst (λ r. Everywhere Sound r.1.schedules) (sym e)
          (elim (visit-Visited uuid clock now id s g) [
            | inl same ↦ subst (Everywhere Sound) (sym same) all
            | inr (t, keeps, new) ↦
                subst (Everywhere Sound) (sym new)
                  (insert-Everywhere Sound id t g.schedules all (keeps (all id s found)))
          ])
  ]

  -- A tick keeps the schedules sound, in whatever order it walks the map.
  pub process_due_schedules-Sound :
      (uuids : String → String) (clocks : String → ℕ → Time) (now : Time) (ids : List String)
      (g : Scheduler S)
      → Everywhere Sound g.schedules
      → Everywhere Sound (process_due_schedules st cal uuids clocks now ids g).1.schedules
  unfolding process_due_schedules
  process_due_schedules-Sound uuids clocks now [] g all = all
  process_due_schedules-Sound uuids clocks now (id ∷ ids) g all =
      then-keeps (λ h. Everywhere Sound h.schedules) (visit_id st cal (uuids id) (clocks id) now id)
        (process_due_schedules st cal uuids clocks now ids) g
        (visit_id-Sound (uuids id) (clocks id) now id g all)
        (process_due_schedules-Sound uuids clocks now ids)

  -- A round before the schedule is due does nothing at all.
  visit_early :
      (uuid : String) (clock : ℕ → Time) (now : Time) (id : String) (s : Schedule) (g : Scheduler S)
      → after s.next_run now ≡ true
      → visit st cal uuid clock now id s g ≡ (ok tt, g)
  unfolding visit
  visit_early uuid clock now id s g early = elim (Bool-cases s.enabled) [
    | inr off ↦ simp off
    | inl on ↦ simp (on, early)
  ]

  -- The round of one schedule keeps every other, and every one that is not due.
  visit_id-keeps :
      (uuid : String) (clock : ℕ → Time) (now : Time) (id other : String) (s : Schedule)
      (g : Scheduler S)
      → lookup id g.schedules ≡ some s
      → after s.next_run now ≡ true
      → lookup id (visit_id st cal uuid clock now other g).1.schedules ≡ some s
  visit_id-keeps uuid clock now id other s g here early =
      elim (visit_id-Visited uuid clock now other g) [
        | inl e ↦ ap (lookup id) e ∙ here
        | inr (t, found, e) ↦
            ap (λ r. lookup id r.1.schedules) e ∙ elim (Bool-cases (other == id)) [
              | inl same ↦
                  ap (λ r. lookup id r.1.schedules)
                    (visit_early uuid clock now other t g (
                      also t (
                        subst (λ k. lookup k g.schedules ≡ some t) ((eq_iff other id).0 same)
                          found)))
                  ∙ here
              | inr ne ↦ elim (visit-Visited uuid clock now other t g) [
                | inl kept ↦ ap (lookup id) kept ∙ here
                | inr (u, keeps, new) ↦
                    ap (lookup id) new ∙ lookup-insert other id u g.schedules ∙ rw ne here
              ]
            ]
      ]
    where
      also : (t : Schedule) → lookup id g.schedules ≡ some t → after t.next_run now ≡ true
      also t f = subst (λ u. after u.next_run now ≡ true) (own (sym here ∙ f)) early
        where
          own : some s ≡ some t → s ≡ t
          own h = cc

  -- A tick keeps every schedule that is not due.
  pub process_due_schedules-keeps :
      (uuids : String → String) (clocks : String → ℕ → Time) (now : Time) (ids : List String)
      (id : String) (s : Schedule) (g : Scheduler S)
      → lookup id g.schedules ≡ some s
      → after s.next_run now ≡ true
      → lookup id (process_due_schedules st cal uuids clocks now ids g).1.schedules ≡ some s
  unfolding process_due_schedules
  process_due_schedules-keeps uuids clocks now [] id s g here early = here
  process_due_schedules-keeps uuids clocks now (q ∷ ids) id s g here early =
      then-keeps (λ h. lookup id h.schedules ≡ some s) (visit_id st cal (uuids q) (clocks q) now q)
        (process_due_schedules st cal uuids clocks now ids) g
        (visit_id-keeps (uuids q) (clocks q) now id q s g here early)
        (λ h there. process_due_schedules-keeps uuids clocks now ids id s h there early)
