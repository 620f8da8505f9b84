-- ===== src/Examples/Limiting.antt =====
-- The rate limiters of internal/features/ratelimit.go at concrete inputs; integers stand for float64.
use distributed_task_queue_s.Base.{
  ◌≤◌, pos, String, ◌≡◌, refl, List, [], ◌∷◌, arith, lookup, insert, ◌-ℤ◌, ℤ, negsuc, ◌+ℤ◌, ◌*ℤ◌,
  ltb_ℤ, not, -ℤ_parts,
}
use distributed_task_queue_s.Job.{Time}
use distributed_task_queue_s.Limits.Window.{
  SlidingWindowRateLimiter, set_limit, allow, allow_in, new_sliding_window_rate_limiter,
}
use distributed_task_queue_s.Limits.Bucket.{Float64, new_rate_limiter}
use distributed_task_queue_s.Limits.Capacity.{
  Ordered, Request, configure, ask, WithinCapacity, serve_all, serve_all-WithinCapacity,
}
use distributed_task_queue_s.Limits.Admission.{Rising, in_window, admitted, admitted-le}

abbrev calls : List (String × Time)
calls =
    ("a", pos 1) ∷ ("a", pos 2) ∷ ("b", pos 2) ∷ ("a", pos 3) ∷ ("a", pos 11) ∷ ("a", pos 12) ∷ []

abbrev two_in_ten : SlidingWindowRateLimiter
two_in_ten = (set_limit "a" (pos 2) (pos 10) new_sliding_window_rate_limiter).1

admitted_test : admitted "a" two_in_ten calls ≡ pos 1 ∷ pos 2 ∷ pos 11 ∷ pos 12 ∷ []
unfolding admitted set_limit allow lookup insert allow_in ◌-ℤ◌
admitted_test = refl

in_order : Rising (pos 0) calls (pos 12)
in_order = (
  omega arith,
  (omega arith, (omega arith, (omega arith, (omega arith, (omega arith, omega arith))))),
)

admitted-le_example : in_window (pos 10) (pos 12) (admitted "a" two_in_ten calls) ≤ 2
admitted-le_example =
    admitted-le "a" 2 (pos 10) new_sliding_window_rate_limiter calls (pos 0) (pos 12) in_order

-- Integers in the place of float64, with a duration counted in its own unit.
abbrev integers : Float64 ℤ
integers = record {
  add = ◌+ℤ◌;
  sub = ◌-ℤ◌;
  mul = ◌*ℤ◌;
  lt = ltb_ℤ;
  ge = λ a b. not (ltb_ℤ a b);
  one = pos 1;
  minus_one = negsuc 0;
  of_int = λ a. a;
  seconds = λ a. a;
}

integers-Ordered : Ordered integers
integers-Ordered = record {
  irreflexive = λ x. ground arith;
  sub_one = λ top x h. ground (arith, -ℤ_parts x (pos 1));
}

abbrev requests : List (Request ℤ)
requests =
    configure "a" (pos 1) (pos 2) (pos 0) ∷ ask "a" (pos 9) ∷ ask "a" (pos 9) ∷ ask "a" (pos 9) ∷ []

serve_all-WithinCapacity_example :
    WithinCapacity integers (serve_all integers requests new_rate_limiter)
serve_all-WithinCapacity_example = serve_all-WithinCapacity integers integers-Ordered requests
