-- ===== src/Limits/Bucket.antt =====
-- RateLimiter of internal/features/ratelimit.go, the token bucket, and RateLimitedQueue on it. The
-- float64 arithmetic of the bucket is the parameter `Float64`; a method that reads the clock takes
-- the reading.
use distributed_task_queue_s.Base.{
  ℤ, ◌-ℤ◌, saturate64, String, Bool, true, false, if◌then◌else◌, none, some, [], Dict, lookup,
  insert, Method, queue_error, Outcome, ok, err, message, List, ◌∷◌,
}
use distributed_task_queue_s.Job.{Time, Duration}

-- `of_int` and `seconds` are the conversions of an int and of a duration; `lt a b` is `a < b`, and `ge a b` is `a >= b`,
-- which a NaN makes both false.
pub record Float64 (F : Type 0) : Type 0 where
  pub add : F → F → F
  pub sub : F → F → F
  pub mul : F → F → F
  pub lt : F → F → Bool
  pub ge : F → F → Bool
  pub one : F
  pub minus_one : F
  pub of_int : ℤ → F
  pub seconds : Duration → F

pub record TokenBucket (F : Type 0) : Type 0 where
  pub tokens : F
  pub max_tokens : F
  pub refill_rate : F
  pub last_refill : Time

pub record RateLimiter (F : Type 0) : Type 0 where
  pub limiters : Dict (TokenBucket F)

pub record RateLimitedQueue (F : Type 0) : Type 0 where
  pub queue_name : String
  pub rate_limiter : RateLimiter F

abbrev pub new_rate_limiter : {F : Type 0} → RateLimiter F
new_rate_limiter = record { limiters = [] }

module _ {F : Type 0} (fl : Float64 F) where
  unfoldable pub set_rate : String → F → ℤ → Time → RateLimiter F → RateLimiter F
  set_rate queue rate burst now l = record l {
    limiters =
        insert queue
          (record {
            tokens = fl.of_int burst;
            max_tokens = fl.of_int burst;
            refill_rate = rate;
            last_refill = now;
          })
          l.limiters;
  }

  abbrev pub capped : F → F → F
  capped top x = if fl.lt top x then top else x

  unfoldable pub refill : Time → TokenBucket F → TokenBucket F
  refill now b = record b {
    tokens =
        capped b.max_tokens
          (fl.add b.tokens (fl.mul (fl.seconds (saturate64 (now -ℤ b.last_refill))) b.refill_rate));
    last_refill = now;
  }

  unfoldable pub spend : TokenBucket F → Bool × TokenBucket F
  spend b =
      if fl.ge b.tokens fl.one
      then (true, record b { tokens = fl.sub b.tokens fl.one })
      else (false, b)

  abbrev pub keep_bucket : String → RateLimiter F → Bool × TokenBucket F → Bool × RateLimiter F
  keep_bucket queue l (answer, b) = (answer, record l { limiters = insert queue b l.limiters })

  unfoldable pub take_token : String → Time → RateLimiter F → Bool × RateLimiter F
  take_token queue now l = elim (lookup queue l.limiters) [
    | none ↦ (true, l)
    | some b ↦ keep_bucket queue l (spend (refill now b))
  ]

  -- The bucket is asked at the instants of the list, the first of them at once; the context is done
  -- after the last.
  unfoldable pub wait : String → Time → List Time → Method (RateLimiter F) (Unit {0})
  wait queue now polls l = waited (take_token queue now l) polls
    where
      waited : Bool × RateLimiter F → List Time → Outcome (Unit {0}) × RateLimiter F
      waited (true, k) polls = (ok tt, k)
      waited (false, k) [] = (err (message "context canceled"), k)
      waited (false, k) (t ∷ ts) = waited (take_token queue t k) ts

  unfoldable pub get_tokens : String → RateLimiter F → F
  get_tokens queue l = elim (lookup queue l.limiters) [ none ↦ fl.minus_one | some b ↦ b.tokens ]

  unfoldable pub new_rate_limited_queue : String → F → ℤ → Time → RateLimitedQueue F
  new_rate_limited_queue queue rate burst now = record {
    queue_name = queue;
    rate_limiter = set_rate queue rate burst now new_rate_limiter;
  }

  abbrev pub keep_limiter :
      RateLimitedQueue F → Bool × RateLimiter F → Outcome (Unit {0}) × RateLimitedQueue F
  keep_limiter q (true, l) = (ok tt, record q { rate_limiter = l })
  keep_limiter q (false, l) = (
    err (queue_error "rate limit exceeded for queue: " q.queue_name),
    record q { rate_limiter = l },
  )

  unfoldable pub enqueue_with_limit : Time → Method (RateLimitedQueue F) (Unit {0})
  enqueue_with_limit now q = keep_limiter q (take_token q.queue_name now q.rate_limiter)

  abbrev pub keep_waited :
      RateLimitedQueue F
      → Outcome (Unit {0}) × RateLimiter F
      → Outcome (Unit {0}) × RateLimitedQueue F
  keep_waited q (o, l) = (o, record q { rate_limiter = l })

  unfoldable pub wait_and_enqueue : Time → List Time → Method (RateLimitedQueue F) (Unit {0})
  wait_and_enqueue now polls q = keep_waited q (wait q.queue_name now polls q.rate_limiter)
