-- ===== src/RateLimit/Window/Idle.antt =====
-- A limiter that has been left alone for longer than its window lets messages through again.
use tx2_link.Common.{ℕ, ◌+◌, ◌≤◌, ◌<◌, ◌≡◌, refl, List, [], ◌∷◌, arith, All, IsU64}
use tx2_link.Error.{ok}
use tx2_link.RateLimit.Window.{
  Instant, RateLimiter, MessageRecord, RateLimitConfig, new, in_window, count_messages_in_window,
  count_bytes_in_window, burst_window, count_recent_burst, check_and_record,
}
use tx2_link.RateLimit.Window.Weigh.{weigh, one, bytes, length-keep, sum_sizes-keep}
use tx2_link.RateLimit.Window.Tracks.{Tracks, new-Tracks}
use tx2_link.RateLimit.Window.Verdict.{check_and_record_accepts_iff}
use tx2_link.RateLimit.Window.Bounds.{IsConfig, IsRun, check-Tracks, run}

-- The reading of the last check, or the time before the first.
unfoldable pub last_reading : Instant → List (Instant × ℕ) → Instant
last_reading before [] = before
last_reading before ((now, size) ∷ checks) = last_reading now checks

run-Tracks :
    (c : RateLimitConfig) (u : IsConfig c) (checks : List (Instant × ℕ)) (before : Instant)
    (l : RateLimiter) (log : List MessageRecord)
    → IsRun c before checks
    → Tracks c before l log
    → (let (l', log') = run checks l log in Tracks c (last_reading before checks) l' log')
unfolding run last_reading
run-Tracks c u [] before l log h t = t
run-Tracks c u ((now, size) ∷ checks) before l log h t =
    run-Tracks c u checks now _ _ h.2 (check-Tracks c u before now size l log h.0 h.1 t)

weigh-stale :
    (w : MessageRecord → ℕ) (before now span : ℕ) (log : List MessageRecord)
    → before + span < now
    → All (λ r. r.timestamp ≤ before) log
    → weigh w (in_window now span) log ≡ 0
unfolding weigh
weigh-stale w before now span [] h a = refl
weigh-stale w before now span (r ∷ rs) h a = ground (arith, weigh-stale w before now span rs h a.1)

module _ (c : RateLimitConfig) (before now : Instant) (l : RateLimiter) (log : List MessageRecord)
    (u : IsConfig c) (t : Tracks c before l log) (idle : before + c.window_duration < now) where
  count_messages-idle : count_messages_in_window now l ≡ 0
  unfolding count_messages_in_window
  count_messages-idle =
      rw
        (
          t.same_config,
          length-keep,
          t.messages one (in_window now c.window_duration) (λ r h. ground arith),
        )
        (omega (arith, weigh-stale one before now c.window_duration log idle t.past))

  count_bytes-idle : count_bytes_in_window now l ≡ 0
  unfolding count_bytes_in_window
  count_bytes-idle =
      let none_left : weigh bytes (in_window now c.window_duration) l.byte_history ≡ 0 = omega (
        arith,
        t.sizes bytes (in_window now c.window_duration) (λ r h. ground arith),
        weigh-stale bytes before now c.window_duration log idle t.past,
      ) in
      rw t.same_config (
        omega (
          arith,
          none_left,
          sum_sizes-keep (in_window now c.window_duration) l.byte_history
              (omega (arith, none_left)),
        ))

  count_burst-idle : count_recent_burst now l ≡ 0
  unfolding count_recent_burst
  count_burst-idle =
      rw
        (
          length-keep,
          t.messages one (in_window now burst_window) (λ r h. ground (arith, u.covers_burst)),
        )
        (omega (
          arith,
          u.covers_burst,
          weigh-stale one before now burst_window log (omega (arith, u.covers_burst)) t.past,
        ))

  idle_accepts :
      (size : ℕ)
      → IsU64 size
      → 0 < c.max_messages_per_second
      → size ≤ c.max_bytes_per_second
      → 0 < c.burst_size
      → (check_and_record now size l).0 ≡ ok tt
  idle_accepts size v m b s =
      (check_and_record_accepts_iff now size l (rw t.same_config u.covers_burst)).1 (
        ground (
          arith, t.same_config, count_messages-idle, count_bytes-idle, count_burst-idle, v, m, b, s,
        ))

-- Whatever the checks of a new limiter, of which some may have been refused: once more than the
-- window has gone by since the last, a message of any size within the byte limit is let through,
-- for a window of 100 ms at least, limits that are not zero, a clock that does not go back, and
-- sizes that do not wrap with the byte limit.
pub idle_run_accepts :
    (c : RateLimitConfig) (start : Instant) (checks : List (Instant × ℕ)) (now : Instant) (size : ℕ)
    → IsConfig c
    → IsRun c start checks
    → last_reading start checks + c.window_duration < now
    → 0 < c.max_messages_per_second
    → size ≤ c.max_bytes_per_second
    → 0 < c.burst_size
    → (check_and_record now size (run checks (new c) []).0).0 ≡ ok tt
idle_run_accepts c start checks now size u h idle m b s =
    idle_accepts c (last_reading start checks) now (run checks (new c) []).0
      (run checks (new c) []).1 u (run-Tracks c u checks start (new c) [] h (new-Tracks c start))
      idle size (omega (arith, b, u.bytes_u64)) m b s
