-- ===== src/Redis/Reading.antt =====
-- Create and Get of internal/storage/redis/redis.go against the map of the jobs.
use distributed_task_queue_s.Base.{
  String, ◌==◌, false, ◌≡◌, refl, ◌∙◌, inl, inr, Option, none, some, ok, err, job_already_exists,
  job_not_found,
}
use distributed_task_queue_s.Job.{Job}
use distributed_task_queue_s.Memory.Jobs.Access.{create_spec, get_spec}
use distributed_task_queue_s.Redis.{Client, Codec}
use distributed_task_queue_s.Redis.Jobs.{job_key, create, get}
use distributed_task_queue_s.Redis.Server.{Strings, RoundTrips}
use distributed_task_queue_s.Redis.Holding.{Simulates, known, same_values, one_changed}

module _ {R D F : Type 0} (c : Client R D F) (json : Codec D Job) (values : R → String → Option D)
    (server : Strings c values) where
  pub create_new :
      (j : Job) (codec : RoundTrips json j) (r : R)
      → (j.id == "") ≡ false
      → values r (job_key j.id) ≡ none
      → create c json j r ≡ (ok tt, (c.set_nx (job_key j.id) codec.text r).1)
  unfolding create
  create_new j codec r named e =
      rw (named, codec.marshals, server.set_nx_reply (job_key j.id) codec.text r, e) refl

  pub create_known :
      (j : Job) (codec : RoundTrips json j) (text : D) (r : R)
      → (j.id == "") ≡ false
      → values r (job_key j.id) ≡ some text
      → create c json j r ≡ (err job_already_exists, (c.set_nx (job_key j.id) codec.text r).1)
  unfolding create
  create_known j codec text r named e =
      rw (named, codec.marshals, server.set_nx_reply (job_key j.id) codec.text r, e) refl

  pub create-Simulates :
      (j : Job)
      → RoundTrips json j
      → (j.id == "") ≡ false
      → Simulates c json values (create c json j) (create_spec j)
  create-Simulates j codec named r f h = elim (known c json values r f j.id h) [
    | inl (a, b) ↦
        rw (create_new j codec r named a, b)
          (
            refl,
            one_changed c json values j.id (some codec.text) (some j) r _ f
                (λ l. server.set_nx_effect (job_key j.id) codec.text l r ∙ rw a refl)
                (codec.unmarshals, refl) h,
          )
    | inr (text, old, a, b, _, _) ↦
        rw (create_known j codec text r named a, b)
          (
            refl,
            same_values c json values r _ f
                (λ l. server.set_nx_effect (job_key j.id) codec.text l r ∙ rw a refl) h,
          )
  ]

  pub get_missing :
      (id : String) (r : R)
      → (id == "") ≡ false
      → values r (job_key id) ≡ none
      → get c json id r ≡ (err job_not_found, (c.get (job_key id) r).1)
  unfolding get
  get_missing id r named e = rw (named, server.get_reply (job_key id) r, e) refl

  pub get_found :
      (id : String) (text : D) (j : Job) (r : R)
      → (id == "") ≡ false
      → values r (job_key id) ≡ some text
      → json.unmarshal text ≡ ok j
      → get c json id r ≡ (ok j, (c.get (job_key id) r).1)
  unfolding get
  get_found id text j r named e back = rw (named, server.get_reply (job_key id) r, e, back) refl

  pub get-Simulates :
      (id : String) → (id == "") ≡ false → Simulates c json values (get c json id) (get_spec id)
  get-Simulates id named r f h =
      let after = same_values c json values r _ f (λ l. server.get_effect (job_key id) l r) h in
      elim (known c json values r f id h) [
        | inl (a, b) ↦ rw (get_missing id r named a, b) (refl, after)
        | inr (text, j, a, b, back, _) ↦ rw (get_found id text j r named a back, b) (refl, after)
      ]
