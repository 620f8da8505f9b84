-- ===== src/Redis/Refinement.antt =====
-- The job methods of internal/storage/redis/redis.go against a finite map from identifiers to jobs.
use distributed_task_queue_s.Base.{
  String, ◌==◌, eq_iff, false, if◌then◌else◌, ◌≡◌, refl, sym, ap, subst, ◌∙◌, inl, inr, Bool-cases,
  Option, none, some, ok, err, job_not_found,
}
use distributed_task_queue_s.Job.{Job}
use distributed_task_queue_s.Memory.Jobs.Access.{
  JobMap, put, create_spec, get_spec, update_spec, delete_spec, change_spec,
}
use distributed_task_queue_s.Redis.{Client, Codec}
use distributed_task_queue_s.Redis.Jobs.{job_key, create, get, update, delete, change}
use distributed_task_queue_s.Redis.Server.{Strings, RoundTrips}
use distributed_task_queue_s.Redis.Holding.{
  Holds, Matches, Simulates, known, same_values, one_changed,
}
use distributed_task_queue_s.Redis.Reading.{create-Simulates, get_missing, get_found, get-Simulates}

module _ {R D F : Type 0} (c : Client R D F) (json : Codec D Job) (values : R → String → Option D)
    (server : Strings c values) where
  update_missing :
      (j : Job) (r : R)
      → (j.id == "") ≡ false
      → values r (job_key j.id) ≡ none
      → update c json j r ≡ (err job_not_found, (c.exists (job_key j.id) r).1)
  unfolding update
  update_missing j r named e = rw (named, server.exists_reply (job_key j.id) r, e) refl

  update_found :
      (j : Job) (codec : RoundTrips json j) (text : D) (r : R)
      → (j.id == "") ≡ false
      → values r (job_key j.id) ≡ some text
      → update c json j r
        ≡ (ok tt, (c.set (job_key j.id) codec.text (c.exists (job_key j.id) r).1).1)
  unfolding update
  update_found j codec text r named e =
      rw
        (
          named,
          server.exists_reply (job_key j.id) r,
          e,
          codec.marshals,
          server.set_reply (job_key j.id) codec.text (c.exists (job_key j.id) r).1,
        )
        refl

  -- The job is written over, after a look whether it is there.
  written :
      (j : Job) (codec : RoundTrips json j) (r : R) (f : JobMap)
      → Holds c json values r f
      → Holds c json values
          (c.set (job_key j.id) codec.text (c.exists (job_key j.id) r).1).1
          (put j.id (some j) f)
  written j codec r f h =
      one_changed c json values j.id (some codec.text) (some j) (c.exists (job_key j.id) r).1 _ f
        (λ l. server.set_effect (job_key j.id) codec.text l (c.exists (job_key j.id) r).1)
        (codec.unmarshals, refl)
        (same_values c json values r _ f (λ l. server.exists_effect (job_key j.id) l r) h)

  pub update-Simulates :
      (j : Job)
      → RoundTrips json j
      → (j.id == "") ≡ false
      → Simulates c json values (update c json j) (update_spec j)
  update-Simulates j codec named r f h = elim (known c json values r f j.id h) [
    | inl (a, b) ↦
        rw (update_missing j r named a, b)
          (refl, same_values c json values r _ f (λ l. server.exists_effect (job_key j.id) l r) h)
    | inr (text, old, a, b, _, _) ↦
        rw (update_found j codec text r named a, b) (refl, written j codec r f h)
  ]

  delete_missing :
      (id : String) (r : R)
      → (id == "") ≡ false
      → values r (job_key id) ≡ none
      → delete c json id r ≡ (err job_not_found, (c.del (job_key id) r).1)
  unfolding delete
  delete_missing id r named e = rw (named, server.del_reply (job_key id) r, e) refl

  delete_found :
      (id : String) (text : D) (r : R)
      → (id == "") ≡ false
      → values r (job_key id) ≡ some text
      → delete c json id r ≡ (ok tt, (c.del (job_key id) r).1)
  unfolding delete
  delete_found id text r named e = rw (named, server.del_reply (job_key id) r, e) refl

  pub delete-Simulates :
      (id : String)
      → (id == "") ≡ false
      → Simulates c json values (delete c json id) (delete_spec id)
  delete-Simulates id named r f h = elim (known c json values r f id h) [
    | inl (a, b) ↦
        rw (delete_missing id r named a, b)
          (
            refl,
            same_values c json values r _ f (λ l. server.del_effect (job_key id) l r ∙ unset a l) h,
          )
    | inr (text, j, a, b, _, _) ↦
        rw (delete_found id text r named a, b)
          (
            refl,
            one_changed c json values id none none r _ f (λ l. server.del_effect (job_key id) l r)
                tt h,
          )
  ]
    where
      unset :
          values r (job_key id) ≡ none
          → (l : String) → (if job_key id == l then none else values r l) ≡ values r l
      unset a l = elim (Bool-cases (job_key id == l)) [
        | inl e ↦ rw e (sym a ∙ ap (values r) ((eq_iff (job_key id) l).0 e))
        | inr e ↦ rw e refl
      ]

  -- A setter that finds its job, which it leaves the identifier.
  change_found :
      (id : String) (text : D) (g : Job → Job) (j : Job) (codec : RoundTrips json (g j)) (r : R)
      (f : JobMap)
      → (id == "") ≡ false
      → (g j).id ≡ id
      → values r (job_key id) ≡ some text
      → json.unmarshal text ≡ ok j
      → Holds c json values r f
      → ((change c json id g r).0 ≡ ok tt)
        × Holds c json values (change c json id g r).1 (put id (some (g j)) f)
  unfolding change
  change_found id text g j codec r f named same e back h =
      let r1 = (c.get (job_key id) r).1 in
      let named1 : ((g j).id == "") ≡ false = subst (λ x. (x == "") ≡ false) (sym same) named in
      let there : values r1 (job_key (g j).id) ≡ some text =
        server.get_effect (job_key id) (job_key (g j).id) r
        ∙ subst (λ x. values r (job_key x) ≡ some text) (sym same) e in
      let h1 = same_values c json values r r1 f (λ l. server.get_effect (job_key id) l r) h in
      rw (get_found c json values server id text j r named e back) (
        rw (update_found (g j) codec text r1 named1 there) (
          refl,
          subst
              (λ x.
                Holds c json values
                  (c.set (job_key (g j).id) codec.text (c.exists (job_key (g j).id) r1).1).1
                  (put x (some (g j)) f))
              same (written (g j) codec r1 f h1),
        ))

  change_missing :
      (id : String) (g : Job → Job) (r : R)
      → (id == "") ≡ false
      → values r (job_key id) ≡ none
      → change c json id g r ≡ (err job_not_found, (c.get (job_key id) r).1)
  unfolding change
  change_missing id g r named e = rw (get_missing c json values server id r named e) refl

  change-Matches :
      (id : String) (g : Job → Job) (r : R) (f : JobMap)
      → (id == "") ≡ false
      → ((j : Job) → f id ≡ some j → (g j).id ≡ j.id)
      → ((j : Job) → f id ≡ some j → RoundTrips json (g j))
      → Holds c json values r f
      → Matches c json values (change c json id g) (change_spec id g) r f
  change-Matches id g r f named same codec h = elim (known c json values r f id h) [
    | inl (a, b) ↦
        rw (change_missing id g r named a, b)
          (refl, same_values c json values r _ f (λ l. server.get_effect (job_key id) l r) h)
    | inr (text, j, a, b, back, own) ↦
        rw b (change_found id text g j (codec j b) r f named (same j b ∙ own) a back h)
  ]

  -- Create, Get, Update, Delete and every setter that leaves the identifier, on a server that holds the
  -- jobs of a map, each under its non-empty identifier, return what the same method returns for the map
  -- and leave a server that holds the jobs of the map after it. The server answers as documented and is
  -- used by no one else during a call, and the jobs that are to be written, the new one and the stored
  -- one after the setter's change, come back from their bytes as they were.
  pub methods-Matches :
      (j : Job) (id : String) (g : Job → Job) (r : R) (f : JobMap)
      → (j.id == "") ≡ false
      → (id == "") ≡ false
      → RoundTrips json j
      → ((k : Job) → f id ≡ some k → RoundTrips json (g k))
      → ((k : Job) → f id ≡ some k → (g k).id ≡ k.id)
      → Holds c json values r f
      → Matches c json values (create c json j) (create_spec j) r f
        × Matches c json values (get c json id) (get_spec id) r f
        × Matches c json values (update c json j) (update_spec j) r f
        × Matches c json values (delete c json id) (delete_spec id) r f
        × Matches c json values (change c json id g) (change_spec id g) r f
  methods-Matches j id g r f named named' new changed same h = (
    create-Simulates c json values server j new named r f h,
    get-Simulates c json values server id named' r f h,
    update-Simulates j new named r f h,
    delete-Simulates id named' r f h,
    change-Matches id g r f named' same changed h,
  )
