-- ===== src/Pool/Backoff.antt =====
-- calculateRetryDelay of internal/worker/pool.go, with its int64 arithmetic.
use distributed_task_queue_s.Base.{◌^◌, ℤ, pos, negsuc, ◌*ℤ◌, ◌-ℤ◌, ltb_ℤ, wrap64, if◌then◌else◌}
use distributed_task_queue_s.Job.{Duration}
use distributed_task_queue_s.Job.Queue.{
  QueueConfig, RetryStrategy, fixed, linear, exponential, other, second,
}

unfoldable pub times64 : ℤ → ℤ → ℤ
times64 a b = wrap64 (a *ℤ b)

-- `1 << uint(k)` as an int: a negative `k` is a huge shift, which leaves 0.
unfoldable pub shift_one : ℤ → ℤ
shift_one (pos k) = wrap64 (pos (2 ^ k))
shift_one (negsuc k) = pos 0

unfoldable pub strategy_delay : RetryStrategy → Duration → ℤ → Duration
strategy_delay fixed base count = base
strategy_delay linear base count = times64 base count
strategy_delay exponential base count = times64 base (shift_one (count -ℤ pos 1))
strategy_delay (other _) base count = base

unfoldable pub cap_at : Duration → Duration → Duration
cap_at top delay = if ltb_ℤ top delay then top else delay

unfoldable pub calculate_retry_delay : ℤ → QueueConfig → Duration
unfolding strategy_delay cap_at
calculate_retry_delay count c =
    cap_at (times64 c.max_retry_delay (pos second))
      (strategy_delay c.retry_strategy (times64 c.retry_delay (pos second)) count)
