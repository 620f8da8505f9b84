-- ===== src/Memory/Metrics.antt =====
-- The metrics methods of internal/storage/memory/memory.go (RecordJobCreated to GetJobTypeStats).
-- The four counters and `Count` go up by one at a time and are left unbounded; a total of durations
-- wraps as an int64.
use distributed_task_queue_s.Base.{
  ℕ, ◌+◌, ◌/◌, ℤ, pos, negsuc, ◌+ℤ◌, ltb_ℤ, wrap64, nat_eq, sub_ℕ, String, Bool, true, ◌==◌,
  if◌then◌else◌, Option, none, some, List, [], ◌∷◌, Dict, lookup, insert, values, Method, ok,
}
use distributed_task_queue_s.Job.{
  Job, Duration, pending, running, success, failed, retrying, cancelled, expired,
}
use distributed_task_queue_s.Job.Queue.{QueueStats}
use distributed_task_queue_s.Memory.{MemoryStore, JobTypeMetrics}

abbrev pub empty_stats : String → QueueStats
empty_stats queue = record {
  queue_name = queue;
  pending_count = 0;
  running_count = 0;
  success_count = 0;
  failed_count = 0;
  active_workers = pos 0;
  avg_processing_time = pos 0;
  last_job_at = none;
}

unfoldable pub record_job_created : String → String → Method MemoryStore (Unit {0})
record_job_created queue job_type m =
    let d = m.metrics in
    let stats : Dict QueueStats = elim (lookup queue d.queue_stats) [
      | none ↦ insert queue (empty_stats queue) d.queue_stats
      | some _ ↦ d.queue_stats
    ] in
    (
      ok tt,
      record m { metrics = record d { jobs_created = d.jobs_created + 1; queue_stats = stats } },
    )

-- `m.metrics.queueStats[queue]` is changed if it is there.
abbrev pub change_stats : String → (QueueStats → QueueStats) → Dict QueueStats → Dict QueueStats
change_stats queue f d = elim (lookup queue d) [ none ↦ d | some s ↦ insert queue (f s) d ]

abbrev pub first_metrics : Duration → JobTypeMetrics
first_metrics duration = record {
  count = 0;
  total_duration = pos 0;
  min_duration = duration;
  max_duration = duration;
}

unfoldable pub add_duration : Duration → JobTypeMetrics → JobTypeMetrics
add_duration duration s = record {
  count = s.count + 1;
  total_duration = wrap64 (s.total_duration +ℤ duration);
  min_duration = if ltb_ℤ duration s.min_duration then duration else s.min_duration;
  max_duration = if ltb_ℤ s.max_duration duration then duration else s.max_duration;
}

unfoldable pub record_job_completed : String → String → Duration → Method MemoryStore (Unit {0})
unfolding add_duration
record_job_completed queue job_type duration m =
    let d = m.metrics in
    let stats : JobTypeMetrics = elim (lookup job_type d.job_type_stats) [
      | none ↦ first_metrics duration
      | some s ↦ s
    ] in
    (
      ok tt,
      record m {
        metrics = record d {
          jobs_completed = d.jobs_completed + 1;
          queue_stats =
              change_stats queue (λ s. record s { success_count = s.success_count + 1 })
                d.queue_stats;
          job_type_stats = insert job_type (add_duration duration stats) d.job_type_stats;
        };
      },
    )

unfoldable pub record_job_failed : String → String → Method MemoryStore (Unit {0})
record_job_failed queue job_type m =
    let d = m.metrics in
    (
      ok tt,
      record m {
        metrics = record d {
          jobs_failed = d.jobs_failed + 1;
          queue_stats =
              change_stats queue (λ s. record s { failed_count = s.failed_count + 1 })
                d.queue_stats;
        };
      },
    )

unfoldable pub record_job_retried : String → String → Method MemoryStore (Unit {0})
record_job_retried queue job_type m =
    let d = m.metrics in
    (ok tt, record m { metrics = record d { jobs_retried = d.jobs_retried + 1 } })

-- The `switch` of GetQueueStats.
unfoldable pub count_job : Job → QueueStats → QueueStats
count_job j s = elim j.status [
  | pending ↦ record s { pending_count = s.pending_count + 1 }
  | running ↦ record s { running_count = s.running_count + 1 }
  | success ↦ record s { success_count = s.success_count + 1 }
  | failed ↦ record s { failed_count = s.failed_count + 1 }
  | retrying ↦ s
  | cancelled ↦ s
  | expired ↦ s
]

unfoldable pub count_jobs : String → List Job → QueueStats → QueueStats
unfolding count_job
count_jobs queue [] s = s
count_jobs queue (j ∷ js) s = count_jobs queue js (if j.queue == queue then count_job j s else s)

-- The recorded totals stand in where no stored job has the status.
unfoldable pub fill_stats : Option QueueStats → QueueStats → QueueStats
fill_stats none s = s
fill_stats (some r) s = record s {
  success_count = if nat_eq s.success_count 0 then r.success_count else s.success_count;
  failed_count = if nat_eq s.failed_count 0 then r.failed_count else s.failed_count;
}

unfoldable pub queue_stats_of : String → MemoryStore → QueueStats
unfolding count_jobs fill_stats
queue_stats_of queue m =
    fill_stats (lookup queue m.metrics.queue_stats)
      (count_jobs queue (values m.jobs) (empty_stats queue))

unfoldable pub get_queue_stats : String → Method MemoryStore QueueStats
unfolding queue_stats_of
get_queue_stats queue m = (ok (queue_stats_of queue m), m)

unfoldable pub queue_names : List Job → Dict Bool → Dict Bool
queue_names [] names = names
queue_names (j ∷ js) names = queue_names js (insert j.queue true names)

unfoldable pub all_stats : Dict Bool → MemoryStore → Dict QueueStats → Dict QueueStats
unfolding queue_stats_of
all_stats [] m result = result
all_stats ((queue, _) ∷ rest) m result =
    all_stats rest m (insert queue (queue_stats_of queue m) result)

unfoldable pub get_queue_stats_all : Method MemoryStore (Dict QueueStats)
unfolding queue_names all_stats
get_queue_stats_all m = (ok (all_stats (queue_names (values m.jobs) []) m []), m)

-- Division by a positive count truncates towards zero.
abbrev pub quotient : ℤ → ℕ → ℤ
quotient (pos n) k = pos (n / k)
quotient (negsuc n) k = sub_ℕ 0 ((n + 1) / k)

unfoldable pub get_job_type_stats : String → Method MemoryStore (ℕ × Duration)
get_job_type_stats job_type m = elim (lookup job_type m.metrics.job_type_stats) [
  | none ↦ (ok (0, pos 0), m)
  | some s ↦
      (ok (s.count, if nat_eq s.count 0 then pos 0 else quotient s.total_duration s.count), m)
]
