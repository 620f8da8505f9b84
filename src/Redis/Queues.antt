-- ===== src/Redis/Queues.antt =====
-- internal/storage/redis/queue.go, over sorted sets. GetScheduled and ListQueues are left out: the first
-- reads a set that nothing writes, the second scans all keys.
use Prim.Native.String.{◌++◌ as append}
use distributed_task_queue_s.Base.{
  ℕ, zero, suc, ltb, pos, ◌-ℤ◌, String, ◌==◌, ◌||◌, if◌then◌else◌, Bool, Option, none, some, List,
  [], ◌∷◌, Method, give, fail, annotate, ◌>>=◌, job_not_found, invalid_value, queue_paused,
  empty_queue,
}
use distributed_task_queue_s.Job.{Priority, Time}
use distributed_task_queue_s.Limits.Bucket.{Float64}
use distributed_task_queue_s.Redis.{Client}

abbrev pub zset_key : String → String
zset_key queue = append "zset:" queue

abbrev pub pause_key : String → String
pause_key queue = append "pause:queue:" queue

-- `float64(-int(priority))*1e10 + float64(time.Now().UnixNano())`, where `ten_billion` is 1e10.
unfoldable pub score : {F : Type 0} → Float64 F → F → Priority → Time → F
score fl ten_billion priority now =
    fl.add (fl.mul (fl.of_int (pos 0 -ℤ priority)) ten_billion) (fl.of_int now)

module _ {R D F : Type 0} (c : Client R D F) where
  unfoldable pub is_queue_paused : String → Method R Bool
  is_queue_paused queue = if queue == "" then fail invalid_value else do
    found ← annotate "failed to check queue pause status" (c.exists (pause_key queue))
    give (ltb 0 found)

  unfoldable pub pause_queue : String → Method R (Unit {0})
  pause_queue queue =
      if queue == "" then fail invalid_value else c.set (pause_key queue) (c.of_text "1")

  unfoldable pub resume_queue : String → Method R (Unit {0})
  resume_queue queue =
      if queue == "" then fail invalid_value else (do _ ← c.del (pause_key queue); give tt)

  abbrev pub unless_paused : {A : Type 0} → String → Method R A → Method R A
  unless_paused queue op = do
    paused ← is_queue_paused queue
    if paused then fail queue_paused else op

  unfoldable pub enqueue : Float64 F → F → String → String → Priority → Time → Method R (Unit {0})
  enqueue fl ten_billion queue id priority now =
      if queue == "" || id == ""
      then fail invalid_value
      else unless_paused queue (
          annotate "failed to enqueue job"
            (c.z_add (zset_key queue) (score fl ten_billion priority now) id))

  unfoldable pub requeue : Float64 F → F → String → String → Priority → Time → Method R (Unit {0})
  requeue = enqueue

  -- The script, which the server runs as one step.
  abbrev pub pop_first : String → List String → Method R (Option String)
  pop_first key [] = give none
  pop_first key (id ∷ ids) = do _ ← c.z_rem key id; give (some id)

  unfoldable pub pop : String → Method R (Option String)
  pop key = c.z_range key 0 0 >>= pop_first key

  abbrev pub popped : Option String → Method R String
  popped none = fail empty_queue
  popped (some id) = give id

  unfoldable pub dequeue : String → String → Method R String
  dequeue queue worker =
      if queue == "" || worker == ""
      then fail invalid_value
      else unless_paused queue (annotate "failed to dequeue job" (pop (zset_key queue)) >>= popped)

  abbrev pub was_queued : ℕ → Method R (Unit {0})
  was_queued zero = fail job_not_found
  was_queued (suc n) = give tt

  unfoldable pub remove : String → String → Method R (Unit {0})
  remove queue id =
      if queue == "" || id == ""
      then fail invalid_value
      else annotate "failed to remove job from queue" (c.z_rem (zset_key queue) id) >>= was_queued

  unfoldable pub queue_length : String → Method R ℕ
  queue_length queue =
      if queue == ""
      then fail invalid_value
      else annotate "failed to get queue length" (c.z_card (zset_key queue))

  abbrev pub first_of : List String → Method R String
  first_of [] = fail empty_queue
  first_of (id ∷ ids) = give id

  unfoldable pub peek : String → Method R String
  peek queue =
      if queue == ""
      then fail invalid_value
      else annotate "failed to peek queue" (c.z_range (zset_key queue) 0 0) >>= first_of
