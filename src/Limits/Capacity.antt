-- ===== src/Limits/Capacity.antt =====
-- The tokens of a bucket of internal/features/ratelimit.go stay within its capacity.
use distributed_task_queue_s.Base.{
  ℤ, String, false, ◌≡◌, inl, inr, Bool-cases, Option-cases, List, [], ◌∷◌, lookup, Everywhere,
  insert-Everywhere,
}
use distributed_task_queue_s.Job.{Time}
use distributed_task_queue_s.Limits.Bucket.{
  Float64, TokenBucket, RateLimiter, new_rate_limiter, set_rate, refill, spend, capped, take_token,
}

pub data Request (F : Type 0) : Type 0 where
  configure : String → F → ℤ → Time → Request F
  ask : String → Time → Request F

-- What the comparisons of floats promise: no number is below itself, and taking one away from a
-- number does not lift it above another.
pub record Ordered {F : Type 0} (fl : Float64 F) : Type 0 where
  pub irreflexive : (x : F) → fl.lt x x ≡ false
  pub sub_one : (top x : F) → fl.lt top x ≡ false → fl.lt top (fl.sub x fl.one) ≡ false

module _ {F : Type 0} (fl : Float64 F) where
  -- The limiter after a request.
  unfoldable pub serve : Request F → RateLimiter F → RateLimiter F
  serve (configure queue rate burst now) l = set_rate fl queue rate burst now l
  serve (ask queue now) l = (take_token fl queue now l).1

  unfoldable pub serve_all : List (Request F) → RateLimiter F → RateLimiter F
  serve_all [] l = l
  serve_all (r ∷ rs) l = serve_all rs (serve r l)

  abbrev pub Within : TokenBucket F → Type 0
  Within b = fl.lt b.max_tokens b.tokens ≡ false

  abbrev pub WithinCapacity : RateLimiter F → Type 0
  WithinCapacity l = Everywhere Within l.limiters

  module _ (ord : Ordered fl) where
    capped-le : (top x : F) → fl.lt top (capped fl top x) ≡ false
    capped-le top x = elim (Bool-cases (fl.lt top x)) [
      | inl e ↦ rw e (ord.irreflexive top)
      | inr e ↦ rw e e
    ]

    spend-le :
        (b : TokenBucket F)
        → fl.lt b.max_tokens b.tokens ≡ false
        → fl.lt (spend fl b).1.max_tokens (spend fl b).1.tokens ≡ false
    unfolding spend
    spend-le b h = elim (Bool-cases (fl.ge b.tokens fl.one)) [
      | inl e ↦ rw e (ord.sub_one b.max_tokens b.tokens h)
      | inr e ↦ rw e h
    ]

    serve-WithinCapacity :
        (r : Request F) (l : RateLimiter F) → WithinCapacity l → WithinCapacity (serve r l)
    unfolding serve set_rate take_token refill
    serve-WithinCapacity (configure queue rate burst now) l i =
        insert-Everywhere Within queue _ l.limiters i (ord.irreflexive (fl.of_int burst))
    serve-WithinCapacity (ask queue now) l i = elim (Option-cases (lookup queue l.limiters)) [
      | inl e ↦ rw (e, serve, take_token) i
      | inr (b, e) ↦
          rw (e, serve, take_token)
            (insert-Everywhere Within queue (spend fl (refill fl now b)).1 l.limiters i
              (spend-le (refill fl now b) (capped-le b.max_tokens _)))
    ]

    serve_all-keeps :
        (rs : List (Request F)) (l : RateLimiter F)
        → WithinCapacity l
        → WithinCapacity (serve_all rs l)
    unfolding serve_all
    serve_all-keeps [] l i = i
    serve_all-keeps (r ∷ rs) l i = serve_all-keeps rs (serve r l) (serve-WithinCapacity r l i)

  -- Whatever limits are set and whatever requests are made, at whatever instants, no bucket ever holds
  -- more tokens than its burst size.
  pub serve_all-WithinCapacity :
      Ordered fl → (rs : List (Request F)) → WithinCapacity (serve_all rs new_rate_limiter)
  unfolding lookup
  serve_all-WithinCapacity ord rs =
      serve_all-keeps ord rs new_rate_limiter (λ queue b e. absurd (cc))
