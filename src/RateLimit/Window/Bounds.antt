-- ===== src/RateLimit/Window/Bounds.antt =====
-- Over any run of checks the messages let through respect the three limits, wherever the window is
-- laid.
use tx2_link.Common.{
  ℕ, ◌+◌, ◌≤◌, ◌<◌, ◌^◌, ◌≡◌, ap, inl, inr, List, [], ◌∷◌, arith, All, IsU32, IsU64, add64,
}
use tx2_link.Error.{Result, ok, err}
use tx2_link.RateLimit.Window.{
  Instant, RateLimiter, MessageRecord, RateLimitConfig, new, in_window, cleanup_old_records,
  count_messages_in_window, count_bytes_in_window, burst_window, count_recent_burst, record_message,
  judge, check_and_record, reject,
}
use tx2_link.RateLimit.Window.Weigh.{weigh, one, bytes, length-keep, weigh-append, sum_sizes-keep}
use tx2_link.RateLimit.Window.Judged.{judge_cases}
use tx2_link.RateLimit.Window.Tracks.{
  Tracks, IsLimited, between, messages-between-le, bytes-between-le, burst-between-le, new-Tracks,
  cleanup-Tracks,
}

-- Numbers of the width that the source's types give them, and a window that covers the burst's.
pub record IsConfig (c : RateLimitConfig) : Type 0 where
  pub messages_u32 : IsU32 c.max_messages_per_second
  pub bytes_u64 : IsU64 c.max_bytes_per_second
  pub burst_u32 : IsU32 c.burst_size
  pub covers_burst : burst_window ≤ c.window_duration

pub weigh-in_window-past :
    (w : MessageRecord → ℕ) (now span : ℕ) (log : List MessageRecord)
    → All (λ r. r.timestamp ≤ now) log
    → weigh w (in_window now span) log ≤ weigh w (between now span) log
unfolding weigh
weigh-in_window-past w now span [] h = omega arith
weigh-in_window-past w now span (r ∷ rs) h = ground (arith, weigh-in_window-past w now span rs h.1)

module _ (c : RateLimitConfig) (now : Instant) (l : RateLimiter) (log : List MessageRecord)
    (u : IsConfig c) (t : Tracks c now l log) where
  -- The counts of the code are those of the log.
  pub count_messages-log :
      count_messages_in_window now l ≡ weigh one (in_window now c.window_duration) log
  unfolding count_messages_in_window
  count_messages-log =
      rw (t.same_config, length-keep, t.messages one (in_window now c.window_duration) (λ r h. h))
        (omega (
          arith,
          u.messages_u32,
          weigh-in_window-past one now c.window_duration log t.past,
          messages-between-le c now log t.limited,
        ))

  pub count_bytes-log :
      count_bytes_in_window now l ≡ weigh bytes (in_window now c.window_duration) log
  unfolding count_bytes_in_window
  count_bytes-log =
      let e = t.sizes bytes (in_window now c.window_duration) (λ r h. h) in
      rw t.same_config (
        rw
          (sum_sizes-keep (in_window now c.window_duration) l.byte_history (
            omega (
              arith,
              e,
              u.bytes_u64,
              weigh-in_window-past bytes now c.window_duration log t.past,
              bytes-between-le c now log t.limited,
            )))
          e)

  pub count_burst-log : count_recent_burst now l ≡ weigh one (in_window now burst_window) log
  unfolding count_recent_burst
  count_burst-log =
      rw
        (
          length-keep,
          t.messages one (in_window now burst_window) (λ r h. ground (arith, u.covers_burst)),
        )
        (omega (
          arith,
          u.burst_u32,
          weigh-in_window-past one now burst_window log t.past,
          burst-between-le c now log t.limited,
        ))

  abbrev fresh : ℕ → MessageRecord
  fresh size = record { timestamp = now; size = size }

  record_message-Tracks :
      (size : ℕ)
      → IsLimited c (fresh size ∷ log)
      → Tracks c now (record_message now size l) (fresh size ∷ log)
  unfolding record_message weigh
  record_message-Tracks size lim = record {
    same_config = t.same_config;
    messages = λ w p h.
        omega (arith, weigh-append w p l.message_history (fresh size ∷ []), t.messages w p h);
    sizes =
        λ w p h. omega (arith, weigh-append w p l.byte_history (fresh size ∷ []), t.sizes w p h);
    past = (omega arith, t.past);
    limited = lim;
  }

  accept-IsLimited :
      (size : ℕ)
      → size + c.max_bytes_per_second < 2 ^ 64
      → (judge now size l).0 ≡ ok tt
      → IsLimited c (fresh size ∷ log)
  unfolding judge reject weigh
  accept-IsLimited size fits e = ground (
    arith,
    count_messages-log,
    count_bytes-log,
    count_burst-log,
    t.same_config,
    t.limited,
    weigh-in_window-past bytes now c.window_duration log t.past,
    bytes-between-le c now log t.limited,
  )

  rejected-Tracks : Tracks c now (record l { total_rejected = add64 l.total_rejected 1 }) log
  rejected-Tracks = record {
    same_config = t.same_config;
    messages = t.messages;
    sizes = t.sizes;
    past = t.past;
    limited = t.limited;
  }

-- The log after a check, with what it let through in front.
abbrev pub noted : Instant → ℕ → Result (Unit {0}) → List MessageRecord → List MessageRecord
noted now size (ok u) log = record { timestamp = now; size = size } ∷ log
noted now size (err e) log = log

module _ (c : RateLimitConfig) (u : IsConfig c) where
  judge-Tracks :
      (now : Instant) (size : ℕ) (l : RateLimiter) (log : List MessageRecord)
      → size + c.max_bytes_per_second < 2 ^ 64
      → Tracks c now l log
      → Tracks c now (judge now size l).1 (noted now size (judge now size l).0 log)
  judge-Tracks now size l log fits t = elim (judge_cases now size l) [
    | inl e ↦ rw e (
        record_message-Tracks c now l log u t size
          (accept-IsLimited c now l log u t size fits (ap (λ x. x.0) e)))
    | inr (text, e) ↦ rw e (rejected-Tracks c now l log u t)
  ]

  pub check-Tracks :
      (before now : Instant) (size : ℕ) (l : RateLimiter) (log : List MessageRecord)
      → before ≤ now
      → size + c.max_bytes_per_second < 2 ^ 64
      → Tracks c before l log
      → Tracks c now
          (check_and_record now size l).1
          (noted now size (check_and_record now size l).0 log)
  unfolding check_and_record
  check-Tracks before now size l log m fits t =
      judge-Tracks now size (cleanup_old_records now l) log fits
        (cleanup-Tracks c before now l log m t)

-- A caller's checks, each at a reading of the clock with a size, and the log of what went through,
-- newest first.
unfoldable pub run :
    List (Instant × ℕ) → RateLimiter → List MessageRecord → RateLimiter × List MessageRecord
run [] l log = (l, log)
run ((now, size) ∷ checks) l log =
    let (verdict, l') = check_and_record now size l in run checks l' (noted now size verdict log)

-- The clock does not go back, and no size is so large that the sum with the byte limit wraps.
abbrev pub IsRun : RateLimitConfig → Instant → List (Instant × ℕ) → Type 0
IsRun c before [] = Unit
IsRun c before ((now, size) ∷ checks) =
    (before ≤ now) × (size + c.max_bytes_per_second < 2 ^ 64) × IsRun c now checks

run-IsLimited :
    (c : RateLimitConfig) (u : IsConfig c) (checks : List (Instant × ℕ)) (before : Instant)
    (l : RateLimiter) (log : List MessageRecord)
    → IsRun c before checks
    → Tracks c before l log
    → IsLimited c (run checks l log).1
unfolding run
run-IsLimited c u [] before l log h t = t.limited
run-IsLimited c u ((now, size) ∷ checks) before l log h t =
    run-IsLimited c u checks now _ _ h.2 (check-Tracks c u before now size l log h.0 h.1 t)

-- For a window of 100 ms at least, a clock that does not go back, and sizes that do not wrap with
-- the byte limit: whatever the checks of a new limiter, of all messages that it let through no span
-- of the window's length, wherever it ends, holds more than the message limit or more bytes than
-- the byte limit, and no span of 100 ms holds more than the burst size.
pub run_within_limits :
    (c : RateLimitConfig) (start : Instant) (checks : List (Instant × ℕ)) (t : Instant)
    → IsConfig c
    → IsRun c start checks
    → let log = (run checks (new c) []).1 in
      (weigh one (between t c.window_duration) log ≤ c.max_messages_per_second)
      × (weigh bytes (between t c.window_duration) log ≤ c.max_bytes_per_second)
      × (weigh one (between t burst_window) log ≤ c.burst_size)
run_within_limits c start checks t u h =
    let lim = run-IsLimited c u checks start (new c) [] h (new-Tracks c start) in
    let log = (run checks (new c) []).1 in
    (messages-between-le c t log lim, bytes-between-le c t log lim, burst-between-le c t log lim)
