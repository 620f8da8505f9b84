-- ===== src/Limits/Admission.antt =====
-- How many requests the sliding window of internal/features/ratelimit.go lets through.
use distributed_task_queue_s.Base.{
  ℕ, ◌+◌, ◌≤◌, pos, ◌-ℤ◌, -ℤ_parts, ◌≤ℤ◌, ltb_ℤ, String, Bool, true, false, ◌==◌, eq_iff, ◌&&◌,
  if◌then◌else◌, ◌≡◌, refl, ap, sym, subst, ◌∙◌, inl, inr, some, Bool-cases, Option-cases, List, [],
  ◌∷◌, ◌++◌, length, select, length-append, length-select-le, lookup, lookup-insert,
  lookup-insert_self, arith,
}
use distributed_task_queue_s.Job.{Time, Duration, after}
use distributed_task_queue_s.Limits.Window.{
  SlidingWindow, SlidingWindowRateLimiter, set_limit, fresh_window, recent, allow_in, allow,
}

-- The requests of a list that a window of length `d` ending at `t` holds.
abbrev pub in_window : Duration → Time → List Time → ℕ
in_window d t xs = length (select (λ r. after r (t -ℤ d)) xs)

-- The times of a queue's admitted requests, over calls for any queues.
unfoldable pub admitted : String → SlidingWindowRateLimiter → List (String × Time) → List Time
admitted queue l [] = []
admitted queue l ((q, now) ∷ calls) =
    let answer = allow q now l in
    let rest = admitted queue answer.1 calls in
    if (q == queue) && answer.0 then now ∷ rest else rest

-- The clock does not go back over the calls, and `until` is no earlier than the last.
abbrev pub Rising : Time → List (String × Time) → Time → Type 0
Rising from [] until = from ≤ℤ until
Rising from ((q, now) ∷ calls) until = (from ≤ℤ now) × Rising now calls until

Rising-le :
    (from : Time) (calls : List (String × Time)) (until : Time)
    → Rising from calls until
    → from ≤ℤ until
Rising-le from [] until h = h
Rising-le from ((q, now) ∷ calls) until (h, k) = omega (arith, h, Rising-le now calls until k)

in_window-append :
    (d : Duration) (t : Time) (xs ys : List Time)
    → in_window d t (xs ++ ys) ≡ in_window d t xs + in_window d t ys
in_window-append d t [] ys = omega arith
in_window-append d t (x ∷ xs) ys = ground (arith, in_window-append d t xs ys)

-- What an earlier window has dropped a later one does not hold.
in_window-select :
    (d : Duration) (now t : Time)
    → now ≤ℤ t
    → (xs : List Time) → in_window d t (select (λ r. after r (now -ℤ d)) xs) ≡ in_window d t xs
in_window-select d now t h [] = refl
in_window-select d now t h (x ∷ xs) =
    ground (arith, in_window-select d now t h xs, -ℤ_parts t d, -ℤ_parts now d)

-- A window of the configured limit that has answered the calls up to `last`, of which those at the
-- times `past` were admitted.
record Tracks (n : ℕ) (d : Duration) (past : List Time) (last : Time) (w : SlidingWindow)
    : Type 0 where
  limit : w.limit ≡ pos n
  window : w.window ≡ d
  room : length w.requests ≤ n
  held : (t : Time) → last ≤ℤ t → in_window d t past ≡ in_window d t w.requests

abbrev add_if : Bool → Time → List Time → List Time
add_if b now past = if b then past ++ now ∷ [] else past

allow_in-Tracks :
    (n : ℕ) (d : Duration) (past : List Time) (last now : Time) (w : SlidingWindow)
    → Tracks n d past last w
    → last ≤ℤ now
    → Tracks n d (add_if (allow_in now w).0 now past) now (allow_in now w).1
unfolding allow_in
allow_in-Tracks n d past last now w i h =
    elim (Bool-cases (ltb_ℤ (pos (length (recent now w))) w.limit)) [
      | inl e ↦ rw e (record {
        limit = i.limit;
        window = i.window;
        room = room_left e;
        held = λ t k.
            in_window-append d t past (now ∷ [])
            ∙ ap (λ m. m + in_window d t (now ∷ [])) (kept t k)
            ∙ sym (in_window-append d t (recent now w) (now ∷ []));
      })
      | inr e ↦ rw e (record {
        limit = i.limit;
        window = i.window;
        room = omega (arith, i.room, length-select-le (λ r. after r (now -ℤ w.window)) w.requests);
        held = kept;
      })
    ]
  where
    kept : (t : Time) → now ≤ℤ t → in_window d t past ≡ in_window d t (recent now w)
    kept t k =
        rw i.window (i.held t (omega (arith, h, k)) ∙ sym (in_window-select d now t k w.requests))

    room_left :
        ltb_ℤ (pos (length (recent now w))) w.limit ≡ true → length (recent now w ++ now ∷ []) ≤ n
    room_left e = ground (arith, i.limit, length-append (recent now w) (now ∷ []))

allow_self :
    (queue q : String) (now : Time) (l : SlidingWindowRateLimiter) (w : SlidingWindow)
    → (q == queue) ≡ true
    → lookup queue l.windows ≡ some w
    → (lookup queue (allow q now l).1.windows ≡ some (allow_in now w).1)
      × ((allow q now l).0 ≡ (allow_in now w).0)
unfolding allow
allow_self queue q now l w same e =
    subst (λ x. Answers x) (sym ((eq_iff q queue).0 same))
      (rw (e, allow) (lookup-insert_self queue (allow_in now w).1 l.windows, refl))
  where
    Answers : String → Type 0
    Answers x =
        (lookup queue (allow x now l).1.windows ≡ some (allow_in now w).1)
        × ((allow x now l).0 ≡ (allow_in now w).0)

allow_other :
    (queue q : String) (now : Time) (l : SlidingWindowRateLimiter)
    → (q == queue) ≡ false
    → lookup queue (allow q now l).1.windows ≡ lookup queue l.windows
unfolding allow
allow_other queue q now l ne = elim (Option-cases (lookup q l.windows)) [
  | inl e ↦ rw (e, allow) refl
  | inr (w, e) ↦ rw (e, allow) (lookup-insert q queue (allow_in now w).1 l.windows ∙ rw ne)
]

Tracks-later :
    (n : ℕ) (d : Duration) (past : List Time) (last now : Time) (w : SlidingWindow)
    → Tracks n d past last w
    → last ≤ℤ now
    → Tracks n d past now w
Tracks-later n d past last now w i h = record {
  limit = i.limit;
  window = i.window;
  room = i.room;
  held = λ t k. i.held t (omega (arith, h, k));
}

-- An admitted request may be counted with the past ones.
in_window-add_if :
    (d : Duration) (t now : Time) (b : Bool) (past rest : List Time)
    → in_window d t (past ++ (if b then now ∷ rest else rest))
      ≡ in_window d t (add_if b now past ++ rest)
in_window-add_if d t now false past rest = refl
in_window-add_if d t now true past rest = ground (
  arith,
  in_window-append d t past (now ∷ rest),
  in_window-append d t past (now ∷ []),
  in_window-append d t (past ++ now ∷ []) rest,
)

-- From here on no window that ends after the calls holds more than `n` admitted requests.
admitted-Tracks :
    (queue : String) (n : ℕ) (d : Duration) (past : List Time) (last : Time) (w : SlidingWindow)
    (l : SlidingWindowRateLimiter)
    → lookup queue l.windows ≡ some w
    → Tracks n d past last w
    → (calls : List (String × Time)) (until : Time) → Rising last calls until
    → in_window d until (past ++ admitted queue l calls) ≤ n
unfolding admitted
admitted-Tracks queue n d past last w l e i [] until r = omega (
  arith,
  in_window-append d until past [],
  i.held until r,
  i.room,
  length-select-le (λ x. after x (until -ℤ d)) w.requests,
)
admitted-Tracks queue n d past last w l e i ((q, now) ∷ calls) until (h, r) =
    elim (Bool-cases (q == queue)) [
      | inl same ↦ rw same (
          rw
            (in_window-add_if d until now (allow q now l).0 past
              (admitted queue (allow q now l).1 calls))
            (admitted-Tracks queue n d (add_if (allow q now l).0 now past) now (allow_in now w).1
              (allow q now l).1 (allow_self queue q now l w same e).0
              (subst (λ b. Tracks n d (add_if b now past) now (allow_in now w).1)
                (sym (allow_self queue q now l w same e).1)
                (allow_in-Tracks n d past last now w i h))
              calls until r))
      | inr ne ↦ rw ne (
          admitted-Tracks queue n d past now w (allow q now l).1 (allow_other queue q now l ne ∙ e)
            (Tracks-later n d past last now w i h) calls until r)
    ]

-- Once a limit of `n` requests per window has been set for a queue, whatever calls come for any queue
-- while the clock does not go back, no window of that length holds more than `n` admitted requests of
-- the queue.
pub admitted-le :
    (queue : String) (n : ℕ) (d : Duration) (l : SlidingWindowRateLimiter)
    (calls : List (String × Time)) (from until : Time)
    → Rising from calls until
    → in_window d until (admitted queue (set_limit queue (pos n) d l).1 calls) ≤ n
unfolding set_limit
admitted-le queue n d l calls from until r =
    admitted-Tracks queue n d [] from (fresh_window (pos n) d) (set_limit queue (pos n) d l).1
      (lookup-insert_self queue (fresh_window (pos n) d) l.windows)
      (record { limit = refl; window = refl; room = omega arith; held = λ t k. refl }) calls until r
