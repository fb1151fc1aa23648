-- ===== src/RateLimit/Bucket/Bounds.antt =====
-- The bucket never overflows, and what it lets through is paid for by its capacity and by time.
use tx2_link.Common.{ℕ, ◌+◌, ◌-◌, ◌*◌, ◌^◌, ◌≤◌, ◌<◌, ◌≡◌, ◌↔◌, ◌⊎◌, List, [], ◌∷◌, arith, IsU32}
use tx2_link.Error.{Result, ok, err}
use tx2_link.Float.{FloatOps}
use tx2_link.RateLimit.Bucket.{
  TokenBucketRateLimiter, new, tokens_to_add, refill, consume, check_and_consume, reset,
}

-- The number of tokens stays within the capacity: a refill, a check and a reset keep it there.
pub tokens-le-capacity :
    (f : FloatOps) (now : ℕ) (b : TokenBucketRateLimiter)
    → b.tokens ≤ b.capacity
    → ((refill f now b).tokens ≤ (refill f now b).capacity)
      × ((check_and_consume f now b).1.tokens ≤ (check_and_consume f now b).1.capacity)
      × ((reset now b).tokens ≤ (reset now b).capacity)
unfolding check_and_consume reset
tokens-le-capacity f now b h = ground arith

-- Where the sum of the tokens and the refill fits 32 bits, a check succeeds exactly when there is a
-- token, or the elapsed time grants one and the bucket has room for any.
pub check_and_consume_accepts_iff :
    (f : FloatOps) (now : ℕ) (b : TokenBucketRateLimiter)
    → IsU32 (b.tokens + tokens_to_add f now b)
    → b.tokens ≤ b.capacity
    → ((check_and_consume f now b).0 ≡ ok tt)
      ↔ ((0 < b.tokens) ⊎ ((0 < tokens_to_add f now b) × (0 < b.capacity)))
unfolding check_and_consume
check_and_consume_accepts_iff f now b h w = ground arith

-- A bucket with a token in it that stays idle until the grant saturates at 2 ^ 32 - 1 is not filled
-- by the refill: the 32-bit sum wraps and it loses a token.
pub refill_wraps :
    (f : FloatOps) (now : ℕ) (b : TokenBucketRateLimiter)
    → tokens_to_add f now b ≡ 2 ^ 32 - 1
    → 0 < b.tokens
    → b.tokens ≤ b.capacity
    → IsU32 b.capacity
    → (refill f now b).tokens ≡ b.tokens - 1
unfolding refill
refill_wraps f now b e p w u = ground arith

abbrev pub second : ℕ
second = 1_000_000_000

-- The part by which a product of floats may be too large, one in so many. An f64 has 53 bits: the
-- conversions of the elapsed time to seconds and of the rate, and their product, are rounded five
-- times at most, each time by a part of 2 ^ 53 at most.
abbrev pub precision : ℕ
precision = 2 ^ 50

-- The floats grant no more than `rate` tokens a second, in whole tokens, but for the rounding, which
-- can make the elapsed time, or the product, larger than it is by a part of 2 ^ 50.
abbrev pub Grants : FloatOps → Type 0
Grants f =
    (elapsed rate : ℕ)
    → f.to_u32 (f.mul (f.as_secs_f64 elapsed) (f.of_nat rate)) * second * precision
      ≤ elapsed * rate * (precision + 1)

-- What was let through (`sent`) and what is left was there at `start`, or came in since.
record IsPaid (capacity rate start now sent : ℕ) (b : TokenBucketRateLimiter) : Type 0 where
  same_capacity : b.capacity ≡ capacity
  same_rate : b.refill_rate ≡ rate
  started : start ≤ b.last_refill
  refilled : b.last_refill ≤ now
  paid :
      (sent + b.tokens) * second * precision
      ≤ capacity * second * precision + (b.last_refill - start) * rate * (precision + 1)

split_elapsed : (a b c r : ℕ) → c ≤ b → b ≤ a → (a - c) * r ≡ (b - c) * r + (a - b) * r
split_elapsed a b c r p q =
    let sum : a - c ≡ (b - c) + (a - b) = omega arith in rw sum (omega arith)

-- One more if the check succeeded.
abbrev pub counted : ℕ → Result (Unit {0}) → ℕ
counted sent (ok u) = sent + 1
counted sent (err e) = sent

module _ (f : FloatOps) (g : Grants f) {capacity rate start : ℕ} where
  refill-IsPaid :
      (before now sent : ℕ) (b : TokenBucketRateLimiter)
      → before ≤ now
      → IsPaid capacity rate start before sent b
      → IsPaid capacity rate start now sent (refill f now b)
  unfolding refill tokens_to_add
  refill-IsPaid before now sent b m h =
      ground
        (arith, g (now - b.last_refill) b.refill_rate, split_elapsed now b.last_refill start rate)

  consume-IsPaid :
      (now sent : ℕ) (b : TokenBucketRateLimiter)
      → IsPaid capacity rate start now sent b
      → IsPaid capacity rate start now (counted sent (consume f b).0) (consume f b).1
  unfolding consume
  consume-IsPaid now sent b h = ground arith

-- A caller's checks, each at a reading of the clock, and how many of them succeeded.
unfoldable pub run : FloatOps → List ℕ → TokenBucketRateLimiter → ℕ → ℕ × TokenBucketRateLimiter
run f [] b sent = (sent, b)
run f (now ∷ times) b sent =
    let (verdict, b') = check_and_consume f now b in run f times b' (counted sent verdict)

-- The readings do not go back, and end at `end`.
abbrev pub IsClock : ℕ → List ℕ → ℕ → Type 0
IsClock before [] end = before ≤ end
IsClock before (now ∷ times) end = (before ≤ now) × IsClock now times end

run-IsPaid :
    (f : FloatOps) (g : Grants f) (capacity rate start before end sent : ℕ) (times : List ℕ)
    (b : TokenBucketRateLimiter)
    → IsClock before times end
    → IsPaid capacity rate start before sent b
    → (run f times b sent).0 * second * precision
      ≤ capacity * second * precision + (end - start) * rate * (precision + 1)
unfolding run check_and_consume
run-IsPaid f g capacity rate start before end sent [] b c h =
    omega (arith, h.paid, split_elapsed end b.last_refill start rate (h.started) (omega arith))
run-IsPaid f g capacity rate start before end sent (now ∷ times) b c h =
    run-IsPaid f g capacity rate start now end _ times _ c.1
      (consume-IsPaid f g now sent _ (refill-IsPaid f g before now sent b c.0 h))

-- If the floats grant at most `refill_rate` tokens a second, but for a part of 2 ^ 50 by which they
-- may round up, then from the creation of the bucket until any later time a caller gets at most
-- `capacity` messages through and, but for the same part, `refill_rate` for each second gone by.
pub bucket_rate_bound :
    (f : FloatOps) (capacity rate start end : ℕ) (times : List ℕ)
    → Grants f
    → IsClock start times end
    → (run f times (new start capacity rate) 0).0 * second * precision
      ≤ capacity * second * precision + (end - start) * rate * (precision + 1)
unfolding new
bucket_rate_bound f capacity rate start end times g c =
    run-IsPaid f g capacity rate start start end 0 times _ c (omega arith)
