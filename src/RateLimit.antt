-- ===== src/RateLimit.antt =====
-- `Instant` and a `Duration` are numbers of nanoseconds; the clock's reading is an argument.
pub mod Window
pub mod Bucket
mod Examples
