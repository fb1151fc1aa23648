-- ===== src/Suite/Rates.antt =====
-- The tests of rate_limit.rs. The clock is a parameter: its reading number `k` is what the k-th call
-- reads. `thread::sleep` shows in the readings only.
use tx2_link.Common.{
  ℕ, zero, suc, ◌+◌, ◌*◌, ◌≤◌, ltb, if◌then◌else◌, ◌≡◌, refl, arith, Bool, true, not, ◌&&◌, ◌==◌,
}
use tx2_link.Error.{is_ok}
use tx2_link.Float.{FloatOps}
use tx2_link.Samples.{billionths}
use tx2_link.RateLimit.Window.{
  Instant, RateLimiter, default_config, with_max_messages, with_max_bytes, with_burst_size,
  with_window_duration, new, check_and_record, get_stats,
}
use tx2_link.RateLimit.Bucket.{TokenBucketRateLimiter, check_and_consume, refill}
use tx2_link.RateLimit.Bucket as Bucket

module _ (clock : ℕ → Instant) where
  -- `n` checks from the reading `k` on: whether all were accepted, and the limiter after them.
  unfoldable accepts : (n k size : ℕ) → RateLimiter → Bool × RateLimiter
  unfolding check_and_record
  accepts zero k size limiter = (true, limiter)
  accepts (suc n) k size limiter =
      let (r, limiter1) = check_and_record (clock k) size limiter in
      let (rest, limiter2) = accepts n (k + 1) size limiter1 in (is_ok r && rest, limiter2)

  -- The assertion that the check at the reading `k` is refused.
  abbrev refuses : (k size : ℕ) → RateLimiter → Bool
  refuses k size limiter = not (is_ok (check_and_record (clock k) size limiter).0)

  unfoldable test_rate_limiter_basic : Bool
  unfolding accepts check_and_record with_max_messages with_max_bytes new
  test_rate_limiter_basic =
      let config = with_max_bytes 1000 (with_max_messages 10 default_config) in
      let (all_ok, limiter) = accepts 10 0 50 (new config) in all_ok && refuses 10 50 limiter

  unfoldable test_rate_limiter_byte_limit : Bool
  unfolding check_and_record with_max_messages with_max_bytes new
  test_rate_limiter_byte_limit =
      let config = with_max_bytes 500 (with_max_messages 100 default_config) in
      let (r, limiter) = check_and_record (clock 0) 300 (new config) in
      is_ok r && refuses 1 300 limiter

  unfoldable test_rate_limiter_burst : Bool
  unfolding accepts check_and_record with_max_messages with_burst_size new
  test_rate_limiter_burst =
      let config = with_burst_size 5 (with_max_messages 1000 default_config) in
      let (all_ok, limiter) = accepts 5 0 100 (new config) in all_ok && refuses 5 100 limiter

  unfoldable test_rate_limiter_window : Bool
  unfolding accepts check_and_record with_max_messages with_window_duration new
  test_rate_limiter_window =
      let config = with_window_duration 100_000_000 (with_max_messages 5 default_config) in
      let (all_ok, limiter) = accepts 5 0 100 (new config) in
      let (refused, limiter1) = check_and_record (clock 5) 100 limiter in
      all_ok && not (is_ok refused) && is_ok (check_and_record (clock 6) 100 limiter1).0

  unfoldable test_rate_limiter_stats : Bool
  unfolding accepts check_and_record with_max_messages new get_stats
  test_rate_limiter_stats =
      let limiter = new (with_max_messages 5 default_config) in
      let (first, limiter1) = accepts 3 0 100 limiter in
      let (second, limiter2) = accepts 3 3 100 limiter1 in
      let stats = get_stats limiter2 in stats.total_messages == 5 && stats.total_rejected == 1

module _ (floats : FloatOps) (clock : ℕ → Instant) where
  unfoldable consumes : (n k : ℕ) → TokenBucketRateLimiter → Bool × TokenBucketRateLimiter
  unfolding check_and_consume
  consumes zero k limiter = (true, limiter)
  consumes (suc n) k limiter =
      let (r, limiter1) = check_and_consume floats (clock k) limiter in
      let (rest, limiter2) = consumes n (k + 1) limiter1 in (is_ok r && rest, limiter2)

  unfoldable test_token_bucket : Bool
  unfolding consumes check_and_consume Bucket.new refill
  test_token_bucket =
      let (all_ok, limiter) = consumes 5 1 (Bucket.new (clock 0) 5 10) in
      let (refused, limiter1) = check_and_consume floats (clock 6) limiter in
      let limiter2 = refill floats (clock 7) limiter1 in
      all_ok && not (is_ok refused) && is_ok (check_and_consume floats (clock 8) limiter2).0

-- The clock advances by a microsecond from reading to reading, and by 150 ms before the one that
-- follows the sleep.
abbrev ticks : ℕ → Instant
ticks k = k * 1000

abbrev sleeps_before : ℕ → ℕ → Instant
sleeps_before n k = if ltb k n then k * 1000 else k * 1000 + 150_000_000

test_rate_limiter_basic_passes : test_rate_limiter_basic ticks ≡ true
unfolding test_rate_limiter_basic
test_rate_limiter_basic_passes = refl

test_rate_limiter_burst_passes : test_rate_limiter_burst ticks ≡ true
unfolding test_rate_limiter_burst
test_rate_limiter_burst_passes = refl

test_rate_limiter_window_passes : test_rate_limiter_window (sleeps_before 6) ≡ true
unfolding test_rate_limiter_window
test_rate_limiter_window_passes = refl

test_rate_limiter_stats_passes : test_rate_limiter_stats ticks ≡ true
unfolding test_rate_limiter_stats
test_rate_limiter_stats_passes = refl

test_token_bucket_passes : test_token_bucket billionths (sleeps_before 7) ≡ true
unfolding test_token_bucket
test_token_bucket_passes = refl

-- Any clock will do that does not go back and lets at most the window's second pass.
test_rate_limiter_byte_limit_passes :
    (clock : ℕ → Instant)
    → clock 0 ≤ clock 1
    → clock 1 ≤ clock 0 + 1_000_000_000
    → test_rate_limiter_byte_limit clock ≡ true
unfolding test_rate_limiter_byte_limit
test_rate_limiter_byte_limit_passes clock up soon = ground arith
