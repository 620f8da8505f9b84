-- ===== src/Limits/Window.antt =====
-- SlidingWindowRateLimiter of internal/features/ratelimit.go. Each call reads the clock once; `now`
-- is that reading. A window is taken to be longer than the least int64, so that its negation is
-- exact.
use distributed_task_queue_s.Base.{
  ℕ, ℤ, pos, negsuc, ◌-ℤ◌, ltb_ℤ, String, Bool, true, false, if◌then◌else◌, none, some, List, [],
  ◌∷◌, ◌++◌, length, select, Dict, lookup, insert, Method, give, modify, panic,
}
use distributed_task_queue_s.Job.{Time, Duration, after}

pub record SlidingWindow : Type 0 where
  pub limit : ℤ
  pub window : Duration
  pub requests : List Time

pub record SlidingWindowRateLimiter : Type 0 where
  pub windows : Dict SlidingWindow

abbrev pub new_sliding_window_rate_limiter : SlidingWindowRateLimiter
new_sliding_window_rate_limiter = record { windows = [] }

abbrev pub fresh_window : ℤ → Duration → SlidingWindow
fresh_window limit window = record { limit = limit; window = window; requests = [] }

-- `make` panics on a negative capacity.
unfoldable pub set_limit : String → ℤ → Duration → Method SlidingWindowRateLimiter (Unit {0})
set_limit queue (negsuc n) window l = (panic, l)
set_limit queue (pos n) window l =
    modify (λ s. record s { windows = insert queue (fresh_window (pos n) window) s.windows }) l

-- The requests that are younger than the window.
abbrev pub recent : Time → SlidingWindow → List Time
recent now w = select (λ r. after r (now -ℤ w.window)) w.requests

unfoldable pub allow_in : Time → SlidingWindow → Bool × SlidingWindow
allow_in now w =
    if ltb_ℤ (pos (length (recent now w))) w.limit
    then (true, record w { requests = recent now w ++ now ∷ [] })
    else (false, record w { requests = recent now w })

abbrev pub keep_window :
    String → SlidingWindowRateLimiter → Bool × SlidingWindow → Bool × SlidingWindowRateLimiter
keep_window queue l (b, w) = (b, record l { windows = insert queue w l.windows })

unfoldable pub allow : String → Time → SlidingWindowRateLimiter → Bool × SlidingWindowRateLimiter
allow queue now l = elim (lookup queue l.windows) [
  | none ↦ (true, l)
  | some w ↦ keep_window queue l (allow_in now w)
]

unfoldable pub get_count : String → Time → Method SlidingWindowRateLimiter ℕ
get_count queue now l = elim (lookup queue l.windows) [
  | none ↦ give 0 l
  | some w ↦ give (length (recent now w)) l
]
