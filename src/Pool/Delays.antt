-- ===== src/Pool/Delays.antt =====
-- How long calculateRetryDelay of internal/worker/pool.go waits.
use distributed_task_queue_s.Base.{
  ℕ, ◌+◌, ◌*◌, ◌^◌, ◌≤◌, ◌<◌, ℤ, pos, ◌*ℤ◌, ◌-ℤ◌, ◌≤ℤ◌, ◌<ℤ◌, wrap64, min, ◌≡◌, refl, arith,
}
use distributed_task_queue_s.Job.Queue.{
  QueueConfig, RetryStrategy, fixed, linear, exponential, other, second,
}
use distributed_task_queue_s.Pool.Backoff.{
  times64, shift_one, strategy_delay, calculate_retry_delay,
}

times64_fits : (a b : ℕ) → a * b < 9223372036854775808 → times64 (pos a) (pos b) ≡ pos (a * b)
unfolding times64 ◌*ℤ◌ wrap64
times64_fits a b h = ground arith

-- A product that needs the 64th bit is read as negative.
times64_wraps :
    (a b : ℕ)
    → 9223372036854775808 ≤ a * b
    → a * b < 18446744073709551616
    → times64 (pos a) (pos b) <ℤ pos 0
unfolding times64 ◌*ℤ◌ wrap64
times64_wraps a b h k = ground arith

shift_one_fits : (k : ℕ) → 2 ^ k < 9223372036854775808 → shift_one (pos k) ≡ pos (2 ^ k)
unfolding shift_one wrap64
shift_one_fits k h = ground arith

-- The cap holds for every strategy and every input, wrapped or not.
calculate_retry_delay-le :
    (count : ℤ) (c : QueueConfig)
    → calculate_retry_delay count c ≤ℤ times64 c.max_retry_delay (pos second)
unfolding calculate_retry_delay
calculate_retry_delay-le count c = ground arith

-- The delay that the strategies describe, over unbounded numbers: `base` nanoseconds before the
-- retry number `n + 1`.
abbrev pub described : RetryStrategy → ℕ → ℕ → ℕ
described fixed base n = base
described linear base n = base * (n + 1)
described exponential base n = base * 2 ^ n
described (other _) base n = base

factor_fits : (b x : ℕ) → 0 < b → b * x < 9223372036854775808 → x < 9223372036854775808
factor_fits b x h k = grind arith

less_one : (n : ℕ) → pos (n + 1) -ℤ pos 1 ≡ pos n
unfolding ◌-ℤ◌
less_one n = ground arith

strategy_delay_fits :
    (s : RetryStrategy) (b n : ℕ)
    → 0 < b
    → described s b n < 9223372036854775808
    → strategy_delay s (pos b) (pos (n + 1)) ≡ pos (described s b n)
unfolding strategy_delay
strategy_delay_fits fixed b n p h = refl
strategy_delay_fits linear b n p h = times64_fits b (n + 1) h
strategy_delay_fits exponential b n p h =
    rw (less_one n, shift_one_fits n (factor_fits b (2 ^ n) p h)) (times64_fits b (2 ^ n) h)
strategy_delay_fits (other _) b n p h = refl

-- Where the delays are not negative, the base is positive and nothing overflows an int64, the delay
-- before retry number n + 1 is, in nanoseconds and cut at the configured maximum: the base under
-- FIXED, n + 1 times the base under LINEAR, 2 ^ n times the base under EXPONENTIAL; a strategy that is
-- spelled in any other way, in lower case too, counts as FIXED.
pub calculate_retry_delay-described :
    (c : QueueConfig) (r top n : ℕ)
    → c.retry_delay ≡ pos r
    → c.max_retry_delay ≡ pos top
    → 0 < r
    → described c.retry_strategy (r * second) n < 9223372036854775808
    → r * second < 9223372036854775808
    → top * second < 9223372036854775808
    → calculate_retry_delay (pos (n + 1)) c
      ≡ pos (min (described c.retry_strategy (r * second) n) (top * second))
unfolding calculate_retry_delay
calculate_retry_delay-described c r top n er et p h hr ht =
    rw
      (
        er,
        et,
        times64_fits r second hr,
        times64_fits top second ht,
        strategy_delay_fits c.retry_strategy (r * second) n (omega arith) h,
      )
      (ground arith)

-- The exponential delay turns negative, so that the cap does not touch it and the retry runs at
-- once, as soon as the product needs the 64th bit.
pub calculate_retry_delay-overflows :
    (c : QueueConfig) (r top n : ℕ)
    → c.retry_strategy ≡ exponential
    → c.retry_delay ≡ pos r
    → c.max_retry_delay ≡ pos top
    → r * second < 9223372036854775808
    → top * second < 9223372036854775808
    → 2 ^ n < 9223372036854775808
    → 9223372036854775808 ≤ r * second * 2 ^ n
    → r * second * 2 ^ n < 18446744073709551616
    → calculate_retry_delay (pos (n + 1)) c <ℤ pos 0
unfolding calculate_retry_delay
calculate_retry_delay-overflows c r top n es er et hr ht hn low high =
    rw
      (
        es,
        er,
        et,
        times64_fits r second hr,
        times64_fits top second ht,
        less_one n,
        shift_one_fits n hn,
      )
      (let neg = times64_wraps (r * second) (2 ^ n) low high in ground arith)
