-- ===== src/RateLimit/Window.antt =====
-- `RateLimiter`: two histories of what was let through, pruned by age at each check.
pub mod Weigh
pub mod Verdict
pub mod Tracks
pub mod Judged
pub mod Bounds
pub mod Idle
pub mod Reference
pub mod Quota
use tx2_link.Common.{
  ℕ, ◌+◌, ◌*◌, ◌%◌, ◌^◌, String, Bool, List, [], ◌∷◌, ◌++◌, ltb, leb, if◌then◌else◌, length, keep,
  as_u32, add64,
}
use tx2_link.Common.Text.{show, ◌<>◌}
use tx2_link.Error.{LinkError, Result, ok, err, rate_limit_exceeded, is_ok}

abbrev pub Instant : Type 0
Instant = ℕ

abbrev pub Duration : Type 0
Duration = ℕ

pub record RateLimitConfig : Type 0 where
  pub max_messages_per_second : ℕ
  pub max_bytes_per_second : ℕ
  pub burst_size : ℕ
  pub window_duration : Duration

abbrev pub default_config : RateLimitConfig
default_config = record {
  max_messages_per_second = 1000;
  max_bytes_per_second = 10 * 1024 * 1024;
  burst_size = 100;
  window_duration = 1_000_000_000;
}

unfoldable pub with_max_messages : ℕ → RateLimitConfig → RateLimitConfig
with_max_messages n c = record c { max_messages_per_second = n }

unfoldable pub with_max_bytes : ℕ → RateLimitConfig → RateLimitConfig
with_max_bytes n c = record c { max_bytes_per_second = n }

unfoldable pub with_burst_size : ℕ → RateLimitConfig → RateLimitConfig
with_burst_size n c = record c { burst_size = n }

unfoldable pub with_window_duration : Duration → RateLimitConfig → RateLimitConfig
with_window_duration d c = record c { window_duration = d }

pub record MessageRecord : Type 0 where
  pub timestamp : Instant
  pub size : ℕ

pub record RateLimiter : Type 0 where
  pub config : RateLimitConfig
  pub message_history : List MessageRecord
  pub byte_history : List MessageRecord
  pub total_messages : ℕ
  pub total_bytes : ℕ
  pub total_rejected : ℕ

unfoldable pub new : RateLimitConfig → RateLimiter
new config = record {
  config = config;
  message_history = [];
  byte_history = [];
  total_messages = 0;
  total_bytes = 0;
  total_rejected = 0;
}

-- `timestamp >= now - span`. The cutoff may lie before the clock's origin, so `span` is added on
-- the other side.
abbrev pub in_window : Instant → Duration → MessageRecord → Bool
in_window now span r = leb now (r.timestamp + span)

-- The loop that pops the front while it is older than the cutoff.
unfoldable pub pop_old : Instant → Duration → List MessageRecord → List MessageRecord
pop_old now span [] = []
pop_old now span (r ∷ rs) =
    let rest = pop_old now span rs in if ltb (r.timestamp + span) now then rest else r ∷ rs

unfoldable pub cleanup_old_records : Instant → RateLimiter → RateLimiter
unfolding pop_old
cleanup_old_records now l = record l {
  message_history = pop_old now l.config.window_duration l.message_history;
  byte_history = pop_old now l.config.window_duration l.byte_history;
}

unfoldable pub count_messages_in_window : Instant → RateLimiter → ℕ
unfolding keep
count_messages_in_window now l =
    as_u32 (length (keep (in_window now l.config.window_duration) l.message_history))

-- `map(|r| r.size).sum()` on u64
unfoldable pub sum_sizes : List MessageRecord → ℕ
sum_sizes [] = 0
sum_sizes (r ∷ rs) = add64 r.size (sum_sizes rs)

unfoldable pub count_bytes_in_window : Instant → RateLimiter → ℕ
unfolding keep sum_sizes
count_bytes_in_window now l =
    sum_sizes (keep (in_window now l.config.window_duration) l.byte_history)

abbrev pub burst_window : Duration
burst_window = 100_000_000

unfoldable pub count_recent_burst : Instant → RateLimiter → ℕ
unfolding keep
count_recent_burst now l = as_u32 (length (keep (in_window now burst_window) l.message_history))

unfoldable pub record_message : Instant → ℕ → RateLimiter → RateLimiter
record_message timestamp size l =
    let r : MessageRecord = record { timestamp = timestamp; size = size } in
    record l {
      message_history = l.message_history ++ r ∷ [];
      byte_history = l.byte_history ++ r ∷ [];
      total_messages = add64 l.total_messages 1;
      total_bytes = add64 l.total_bytes size;
    }

unfoldable pub message_limit_text : RateLimitConfig → String
message_limit_text c =
    "Message rate limit exceeded: " <> show c.max_messages_per_second <> " msgs/sec"

unfoldable pub byte_limit_text : RateLimitConfig → String
byte_limit_text c = "Byte rate limit exceeded: " <> show c.max_bytes_per_second <> " bytes/sec"

unfoldable pub burst_limit_text : RateLimitConfig → String
burst_limit_text c = "Burst limit exceeded: " <> show c.burst_size <> " msgs"

unfoldable pub reject : String → RateLimiter → Result (Unit {0}) × RateLimiter
reject text l =
    (err (rate_limit_exceeded text), record l { total_rejected = add64 l.total_rejected 1 })

-- What follows the pruning in `check_and_record`.
unfoldable pub judge : Instant → ℕ → RateLimiter → Result (Unit {0}) × RateLimiter
unfolding count_messages_in_window count_bytes_in_window count_recent_burst record_message reject
judge now size l =
    if leb l.config.max_messages_per_second (count_messages_in_window now l)
    then reject (message_limit_text l.config) l
    else if ltb l.config.max_bytes_per_second (add64 (count_bytes_in_window now l) size)
    then reject (byte_limit_text l.config) l
    else if leb l.config.burst_size (count_recent_burst now l)
    then reject (burst_limit_text l.config) l
    else (ok tt, record_message now size l)

unfoldable pub check_and_record : Instant → ℕ → RateLimiter → Result (Unit {0}) × RateLimiter
unfolding cleanup_old_records judge
check_and_record now size l = judge now size (cleanup_old_records now l)

unfoldable pub check : Instant → ℕ → RateLimiter → Bool × RateLimiter
unfolding check_and_record
check now size l = let (r, l') = check_and_record now size l in (is_ok r, l')

unfoldable pub reset : RateLimiter → RateLimiter
reset l = record l { message_history = []; byte_history = [] }

pub record RateLimitStats : Type 0 where
  pub total_messages : ℕ
  pub total_bytes : ℕ
  pub total_rejected : ℕ
  pub messages_in_window : ℕ
  pub bytes_in_window : ℕ

unfoldable pub get_stats : RateLimiter → RateLimitStats
unfolding sum_sizes
get_stats l = record {
  total_messages = l.total_messages;
  total_bytes = l.total_bytes;
  total_rejected = l.total_rejected;
  messages_in_window = as_u32 (length l.message_history);
  bytes_in_window = sum_sizes l.byte_history;
}

abbrev get_config : RateLimiter → RateLimitConfig
get_config l = l.config

unfoldable pub set_config : RateLimitConfig → RateLimiter → RateLimiter
set_config c l = record l { config = c }
