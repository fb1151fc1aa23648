-- ===== src/RateLimit/Examples.antt =====
-- Tests of the two limiters, after those of rate_limit.rs, and their theorems at concrete inputs.
use tx2_link.Common.{
  min, ◌/◌, ℕ, ◌+◌, ◌-◌, ◌*◌, ◌%◌, ◌^◌, true, false, ◌≤◌, ◌<◌, ◌≡◌, refl, ◌↔◌, ◌⊎◌, List, [], ◌∷◌,
  arith, add64,
}
use tx2_link.Error.{ok}
use tx2_link.Float.{FloatOps}
use tx2_link.Samples.{billionths}
use tx2_link.RateLimit.Window.{
  Instant, RateLimitConfig, RateLimiter, default_config, new, check_and_record, burst_window,
  count_messages_in_window, count_bytes_in_window, count_recent_burst,
}
use tx2_link.RateLimit.Window.Weigh.{weigh, one, bytes}
use tx2_link.RateLimit.Window.Tracks.{between}
use tx2_link.RateLimit.Window.Verdict.{check_and_record_accepts_iff}
use tx2_link.RateLimit.Window.Bounds.{run, run_within_limits}
use tx2_link.RateLimit.Window.Reference.{
  reference, verdicts, ever, count_rejected, limiter_as_reference,
}
use tx2_link.RateLimit.Window.Quota.{accept_first, verdicts-burst}
use tx2_link.RateLimit.Window.Idle.{last_reading, idle_run_accepts}
use tx2_link.RateLimit.Bucket.{TokenBucketRateLimiter, refill, check_and_consume, tokens_to_add}
use tx2_link.RateLimit.Bucket as Bucket
use tx2_link.RateLimit.Bucket.Bounds as Bucket_bounds
use tx2_link.RateLimit.Bucket.Bounds.{
  tokens-le-capacity, check_and_consume_accepts_iff, refill_wraps, bucket_rate_bound, Grants,
  second, precision,
}

-- Three messages, a thousand bytes, a burst of two.
abbrev config : RateLimitConfig
config = record default_config {
  max_messages_per_second = 3;
  max_bytes_per_second = 1000;
  burst_size = 2;
}

-- Two at once, a third refused as a burst, a third later, one too many, and one in the next second.
abbrev checks : List (Instant × ℕ)
checks =
    (0, 300)
    ∷ (1000, 300)
    ∷ (2000, 300)
    ∷ (500_000_000, 300)
    ∷ (900_000_000, 300)
    ∷ (1_000_500_000, 700)
    ∷ []

run-checks :
    (run checks (new config) []).1
    ≡ record { timestamp = 1_000_500_000; size = 700 }
      ∷ record { timestamp = 500_000_000; size = 300 }
      ∷ record { timestamp = 1000; size = 300 }
      ∷ record { timestamp = 0; size = 300 }
      ∷ []
unfolding run check_and_record new
run-checks = refl

run_within_limits_example :
    (weigh one (between 1_000_500_000 1_000_000_000) (run checks (new config) []).1 ≤ 3)
    × (weigh bytes (between 1_000_500_000 1_000_000_000) (run checks (new config) []).1 ≤ 1000)
    × (weigh one (between 1_000_500_000 burst_window) (run checks (new config) []).1 ≤ 2)
run_within_limits_example =
    run_within_limits config 0 checks 1_000_500_000 (omega arith) (omega arith)

limiter_as_reference_example :
    (let l = (run checks (new config) []).0 in
      let (answers, log) = reference config checks [] in
      (verdicts checks (new config) ≡ answers)
      × (l.total_messages ≡ weigh one ever log % 2 ^ 64)
      × (l.total_bytes ≡ weigh bytes ever log % 2 ^ 64)
      × (l.total_rejected ≡ count_rejected answers % 2 ^ 64))
limiter_as_reference_example = limiter_as_reference config 0 checks (omega arith) (omega arith)

-- The third and the fifth are refused.
reference-checks : (reference config checks []).0 ≡ true ∷ true ∷ false ∷ true ∷ false ∷ true ∷ []
unfolding reference weigh
reference-checks = refl

-- Four messages in a row: the burst size is two.
abbrev row : List (Instant × ℕ)
row = (7, 300) ∷ (8, 300) ∷ (90_000_000, 300) ∷ (100_000_007, 300) ∷ []

verdicts-burst_example : verdicts row (new config) ≡ true ∷ true ∷ false ∷ false ∷ []
unfolding accept_first
verdicts-burst_example =
    verdicts-burst config 7 300 row (omega arith) (omega arith) (omega arith) (omega arith)

-- The last check was at 1.0005 seconds.
idle_run_accepts_example :
    (check_and_record 2_000_500_001 1000 (run checks (new config) []).0).0 ≡ ok tt
unfolding last_reading
idle_run_accepts_example =
    idle_run_accepts config 0 checks 2_000_500_001 1000 (omega arith) (omega arith) (omega arith)
      (omega arith) (omega arith) (omega arith)

abbrev used : RateLimiter
used = record (new config) {
  message_history = record { timestamp = 10; size = 300 } ∷ [];
  byte_history = record { timestamp = 10; size = 300 } ∷ [];
}

check_and_record_accepts_iff_example : ((check_and_record 20 700 used).0 ≡ ok tt) ↔ (
    (count_messages_in_window 20 used < 3)
    × (add64 (count_bytes_in_window 20 used) 700 ≤ 1000)
    × (count_recent_burst 20 used < 2))
unfolding new
check_and_record_accepts_iff_example = check_and_record_accepts_iff 20 700 used (omega arith)

-- Five tokens, ten a second.
abbrev bucket : TokenBucketRateLimiter
bucket = record {
  capacity = 5;
  tokens = 0;
  refill_rate = 10;
  last_refill = 0;
  total_messages = 5;
  total_rejected = 1;
}

check_and_consume_accepts_iff_example :
    ((check_and_consume billionths 100_000_000 bucket).0 ≡ ok tt)
    ↔ ((0 < bucket.tokens) ⊎ ((0 < tokens_to_add billionths 100_000_000 bucket) × (0 < 5)))
unfolding tokens_to_add
check_and_consume_accepts_iff_example =
    check_and_consume_accepts_iff billionths 100_000_000 bucket (omega arith) (omega arith)

-- A million tokens a second, idle for 4295 seconds.
abbrev idle : TokenBucketRateLimiter
idle = record bucket { tokens = 3; refill_rate = 1_000_000 }

refill_wraps_example : (refill billionths 4_295_000_000_000 idle).tokens ≡ 2
unfolding tokens_to_add
refill_wraps_example =
    refill_wraps billionths 4_295_000_000_000 idle refl (omega arith) (omega arith) (omega arith)

-- Floats that round up, by as much as may be: a nanosecond less than 10 ^ 8 seconds grants 10 ^ 8.
abbrev rounding_up : FloatOps
rounding_up = record billionths {
  to_u32 = λ x. min ((x + x / 2 ^ 50) / 1_000_000_000) (2 ^ 32 - 1);
}

rounds_up : tokens_to_add rounding_up 99_999_999_999_999_999 (Bucket.new 0 2 1) ≡ 100_000_000
unfolding tokens_to_add Bucket.new
rounds_up = refl

rounding_up-Grants : Grants rounding_up
rounding_up-Grants elapsed rate = omega arith

bucket_rate_bound_example :
    (Bucket_bounds.run rounding_up (0 ∷ 5 ∷ 100_000_000 ∷ []) (Bucket.new 0 2 10) 0).0
      * second
      * precision
    ≤ 2 * second * precision + (200_000_000 - 0) * 10 * (precision + 1)
bucket_rate_bound_example =
    bucket_rate_bound rounding_up 2 10 0 200_000_000 (0 ∷ 5 ∷ 100_000_000 ∷ []) rounding_up-Grants
      (omega arith)
