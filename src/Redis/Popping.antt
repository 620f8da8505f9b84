-- ===== src/Redis/Popping.antt =====
-- Dequeue of internal/storage/redis/queue.go on a server that answers as documented.
use distributed_task_queue_s.Base.{
  String, ◌==◌, false, if◌then◌else◌, ◌≡◌, refl, ap, ◌∙◌, ◌⊎◌, inl, inr, Option-cases, Option, none,
  some, List, [], ◌∷◌, Outcome, ok, err, queue_paused, empty_queue,
}
use distributed_task_queue_s.Redis.{Client}
use distributed_task_queue_s.Redis.Queues.{zset_key, pause_key, is_queue_paused, pop, dequeue}
use distributed_task_queue_s.Redis.Server.{Strings, SortedSets, without}

module _ {R D F : Type 0} (c : Client R D F) (values : R → String → Option D)
    (members : R → String → List String) where
  -- How a call of Dequeue ends: the queue is paused or empty and no queue changes, or its first job is
  -- given and is in it no more.
  pub data Popped (queue : String) (r : R) (result : Outcome String × R) : Type 0 where
    paused :
        (d : D)
        → values r (pause_key queue) ≡ some d
        → result.0 ≡ err queue_paused
        → ((l : String) → members result.1 l ≡ members r l)
        → Popped queue r result
    nothing :
        values r (pause_key queue) ≡ none
        → members r (zset_key queue) ≡ []
        → result.0 ≡ err empty_queue
        → ((l : String) → members result.1 l ≡ members r l)
        → Popped queue r result
    first :
        (id : String) (ids : List String)
        → values r (pause_key queue) ≡ none
        → members r (zset_key queue) ≡ id ∷ ids
        → result.0 ≡ ok id
        → ((l : String)
            → members result.1 l
              ≡ (if zset_key queue == l then without id (members r l) else members r l))
        → Popped queue r result

module _ {R D F : Type 0} (c : Client R D F) (values : R → String → Option D)
    (members : R → String → List String) (strings : Strings c values)
    (sets : SortedSets c members) where
  -- The state after the look at the pause, and after the script's look at the set.
  looked : String → R → R
  looked queue r = (c.exists (pause_key queue) r).1

  dequeue_paused :
      (queue worker : String) (d : D) (r : R)
      → (queue == "") ≡ false
      → (worker == "") ≡ false
      → values r (pause_key queue) ≡ some d
      → dequeue c queue worker r ≡ (err queue_paused, looked queue r)
  unfolding dequeue is_queue_paused looked
  dequeue_paused queue worker d r named named' e =
      rw (named, named', strings.exists_reply (pause_key queue) r, e) refl

  dequeue_nothing :
      (queue worker : String) (r : R)
      → (queue == "") ≡ false
      → (worker == "") ≡ false
      → values r (pause_key queue) ≡ none
      → members (looked queue r) (zset_key queue) ≡ []
      → dequeue c queue worker r
        ≡ (err empty_queue, (c.z_range (zset_key queue) 0 0 (looked queue r)).1)
  unfolding dequeue is_queue_paused looked pop
  dequeue_nothing queue worker r named named' e m =
      rw
        (
          named,
          named',
          strings.exists_reply (pause_key queue) r,
          e,
          sets.first_reply (zset_key queue) (c.exists (pause_key queue) r).1,
          m,
        )
        refl

  dequeue_first :
      (queue worker id : String) (ids : List String) (r : R)
      → (queue == "") ≡ false
      → (worker == "") ≡ false
      → values r (pause_key queue) ≡ none
      → members (looked queue r) (zset_key queue) ≡ id ∷ ids
      → dequeue c queue worker r ≡ (
        ok id,
        (c.z_rem (zset_key queue) id (c.z_range (zset_key queue) 0 0 (looked queue r)).1).1,
      )
  unfolding dequeue is_queue_paused looked pop
  dequeue_first queue worker id ids r named named' e m =
      rw
        (
          named,
          named',
          strings.exists_reply (pause_key queue) r,
          e,
          sets.first_reply (zset_key queue) (c.exists (pause_key queue) r).1,
          m,
          sets.rem_reply (zset_key queue) id
              (c.z_range (zset_key queue) 0 0 (c.exists (pause_key queue) r).1).1,
        )
        refl

  untouched : (queue : String) (r : R) (l : String) → members (looked queue r) l ≡ members r l
  unfolding looked
  untouched queue r l = sets.exists_keeps (pause_key queue) l r

  untouched_twice :
      (queue : String) (r : R) (l : String)
      → members (c.z_range (zset_key queue) 0 0 (looked queue r)).1 l ≡ members r l
  untouched_twice queue r l =
      sets.first_effect (zset_key queue) l (looked queue r) ∙ untouched queue r l

  without_first :
      (queue id : String) (r : R) (l : String)
      → members
          (c.z_rem (zset_key queue) id (c.z_range (zset_key queue) 0 0 (looked queue r)).1).1
          l
        ≡ (if zset_key queue == l then without id (members r l) else members r l)
  without_first queue id r l =
      sets.rem_effect (zset_key queue) id l (c.z_range (zset_key queue) 0 0 (looked queue r)).1
      ∙ ap (λ xs. if zset_key queue == l then without id xs else xs) (untouched_twice queue r l)

  -- On a server that answers as documented, Dequeue with a queue and a worker reports that the queue is
  -- paused, or else that it is empty, and no queue changes, or it gives the job of the lowest score, and
  -- that job is in the queue no more; the other jobs and the other queues are as they were.
  pub dequeue-Popped :
      (queue worker : String) (r : R)
      → (queue == "") ≡ false
      → (worker == "") ≡ false
      → Popped c values members queue r (dequeue c queue worker r)
  dequeue-Popped queue worker r named named' =
      by_pause (Option-cases (values r (pause_key queue))) (members r (zset_key queue)) refl
    where
      by_pause :
          (values r (pause_key queue) ≡ none) ⊎ ((d : D) × (values r (pause_key queue) ≡ some d))
          → (ms : List String) → members r (zset_key queue) ≡ ms
          → Popped c values members queue r (dequeue c queue worker r)
      by_pause (inr (d, e)) ms m =
          rw (dequeue_paused queue worker d r named named' e) (paused d e refl (untouched queue r))
      by_pause (inl e) [] m =
          rw
            (dequeue_nothing queue worker r named named' e (untouched queue r (zset_key queue) ∙ m))
            (nothing e m refl (untouched_twice queue r))
      by_pause (inl e) (id ∷ ids) m =
          rw
            (dequeue_first queue worker id ids r named named' e
              (untouched queue r (zset_key queue) ∙ m))
            (first id ids e m refl (without_first queue id r))
