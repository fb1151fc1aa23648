-- ===== src/RateLimit/Bucket.antt =====
-- `TokenBucketRateLimiter`. An `Instant` is a number of nanoseconds; the clock's reading is an
-- argument, and so is the arithmetic on floats.
pub mod Bounds
use tx2_link.Common.{
  ℕ, zero, suc, ◌+◌, ◌-◌, ◌%◌, ◌^◌, String, Bool, List, [], ◌∷◌, ltb, ◌==◌, if◌then◌else◌, min,
  add32, add64,
}
use tx2_link.Common.Text.{show, ◌<>◌}
use tx2_link.Error.{Result, ok, err, rate_limit_exceeded, is_ok}
use tx2_link.Float.{FloatOps}

pub record TokenBucketRateLimiter : Type 0 where
  pub capacity : ℕ
  pub tokens : ℕ
  pub refill_rate : ℕ
  pub last_refill : ℕ
  pub total_messages : ℕ
  pub total_rejected : ℕ

unfoldable pub new : (now : ℕ) → (capacity refill_rate : ℕ) → TokenBucketRateLimiter
new now capacity refill_rate = record {
  capacity = capacity;
  tokens = capacity;
  refill_rate = refill_rate;
  last_refill = now;
  total_messages = 0;
  total_rejected = 0;
}

unfoldable pub empty_text : TokenBucketRateLimiter → String
empty_text b = "Token bucket empty (capacity: " <> show b.capacity <> ")"

module _ (f : FloatOps) where
  -- `(elapsed_secs * self.refill_rate as f64) as u32`; `duration_since` of a later instant is zero.
  unfoldable pub tokens_to_add : ℕ → TokenBucketRateLimiter → ℕ
  tokens_to_add now b =
      f.to_u32 (f.mul (f.as_secs_f64 (now - b.last_refill)) (f.of_nat b.refill_rate))

  unfoldable pub refill : ℕ → TokenBucketRateLimiter → TokenBucketRateLimiter
  unfolding tokens_to_add
  refill now b =
      if ltb 0 (tokens_to_add now b)
      then record b {
        tokens = min (add32 b.tokens (tokens_to_add now b)) b.capacity;
        last_refill = now;
      }
      else b

  -- What follows the refill in `check_and_consume`.
  unfoldable pub consume : TokenBucketRateLimiter → Result (Unit {0}) × TokenBucketRateLimiter
  consume b =
      if b.tokens == 0
      then (
        err (rate_limit_exceeded (empty_text b)),
        record b { total_rejected = add64 b.total_rejected 1 },
      )
      else (ok tt, record b { tokens = b.tokens - 1; total_messages = add64 b.total_messages 1 })

  unfoldable pub check_and_consume :
      ℕ → TokenBucketRateLimiter → Result (Unit {0}) × TokenBucketRateLimiter
  unfolding refill consume
  check_and_consume now b = consume (refill now b)

  unfoldable pub check : ℕ → TokenBucketRateLimiter → Bool × TokenBucketRateLimiter
  unfolding check_and_consume
  check now b = let (r, b') = check_and_consume now b in (is_ok r, b')

unfoldable pub reset : ℕ → TokenBucketRateLimiter → TokenBucketRateLimiter
reset now b = record b { tokens = b.capacity; last_refill = now }

pub get_available_tokens : TokenBucketRateLimiter → ℕ
get_available_tokens b = b.tokens

pub get_stats : TokenBucketRateLimiter → ℕ × ℕ
get_stats b = (b.total_messages, b.total_rejected)
