-- ===== src/RateLimit/Window/Verdict.antt =====
-- What one check says and does, on every branch.
use tx2_link.Common.{
  ℕ, ◌≤◌, ◌<◌, ◌≡◌, refl, ◌≢◌, ◌↔◌, ◌⊎◌, Bool, true, List, [], ◌∷◌, ◌++◌, arith, keep, add64,
}
use tx2_link.Error.{ok}
use tx2_link.RateLimit.Window.{
  Instant, RateLimiter, MessageRecord, in_window, pop_old, cleanup_old_records,
  count_messages_in_window, count_bytes_in_window, burst_window, count_recent_burst, reject,
  check_and_record,
}

keep-pop_old :
    (p : MessageRecord → Bool) (now span : ℕ) (rs : List MessageRecord)
    → ((r : MessageRecord) → p r ≡ true → in_window now span r ≡ true)
    → keep p (pop_old now span rs) ≡ keep p rs
unfolding keep pop_old
keep-pop_old p now span [] h = refl
keep-pop_old p now span (r ∷ rs) h = ground (arith, h r, keep-pop_old p now span rs h)

-- The three counts do not depend on the pruning.
count_messages-cleanup :
    (now : Instant) (l : RateLimiter)
    → count_messages_in_window now (cleanup_old_records now l) ≡ count_messages_in_window now l
unfolding count_messages_in_window cleanup_old_records
count_messages-cleanup now l = rw (
    keep-pop_old (in_window now l.config.window_duration) now l.config.window_duration
      l.message_history (λ r h. h))

count_bytes-cleanup :
    (now : Instant) (l : RateLimiter)
    → count_bytes_in_window now (cleanup_old_records now l) ≡ count_bytes_in_window now l
unfolding count_bytes_in_window cleanup_old_records
count_bytes-cleanup now l = rw (
    keep-pop_old (in_window now l.config.window_duration) now l.config.window_duration
      l.byte_history (λ r h. h))

count_burst-cleanup :
    (now : Instant) (l : RateLimiter)
    → burst_window ≤ l.config.window_duration
    → count_recent_burst now (cleanup_old_records now l) ≡ count_recent_burst now l
unfolding count_recent_burst cleanup_old_records
count_burst-cleanup now l w = rw (
    keep-pop_old (in_window now burst_window) now l.config.window_duration l.message_history
      (λ r h. ground arith))

-- A message is let through if and only if the window holds fewer messages than the limit, its bytes
-- and the message's (added on 64 bits) do not pass the byte limit, and the last 100 ms hold fewer
-- messages than the burst size; counted in the history as it was before the check, for a window of
-- 100 ms at least.
pub check_and_record_accepts_iff :
    (now : Instant) (size : ℕ) (l : RateLimiter)
    → burst_window ≤ l.config.window_duration
    → ((check_and_record now size l).0 ≡ ok tt) ↔ (
        (count_messages_in_window now l < l.config.max_messages_per_second)
        × (add64 (count_bytes_in_window now l) size ≤ l.config.max_bytes_per_second)
        × (count_recent_burst now l < l.config.burst_size))
unfolding check_and_record reject
check_and_record_accepts_iff now size l w =
    ground
      (arith, count_messages-cleanup now l, count_bytes-cleanup now l, count_burst-cleanup now l w)

-- What a check leaves: the expired records are gone from the front of both histories; a message
-- that is let through is added at the end of both with the clock's reading and counted in the two
-- totals; a rejection is counted and changes nothing else.
pub check_and_record_effect :
    (now : Instant) (size : ℕ) (l : RateLimiter)
    → let (verdict, l') = check_and_record now size l in
      let pruned = cleanup_old_records now l in
      (l'.config ≡ l.config)
      × ((verdict ≡ ok tt)
            × (l'.message_history
                ≡ pruned.message_history ++ record { timestamp = now; size = size } ∷ [])
            × (l'.byte_history
                ≡ pruned.byte_history ++ record { timestamp = now; size = size } ∷ [])
            × (l'.total_messages ≡ add64 l.total_messages 1)
            × (l'.total_bytes ≡ add64 l.total_bytes size)
            × (l'.total_rejected ≡ l.total_rejected)
          ⊎ (verdict ≢ ok tt) × (l' ≡ record pruned { total_rejected = add64 l.total_rejected 1 }))
unfolding check_and_record reject
check_and_record_effect now size l = ground arith
