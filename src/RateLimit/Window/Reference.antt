-- ===== src/RateLimit/Window/Reference.antt =====
-- The limiter against a reference that forgets nothing: it keeps all that it ever let through, and
-- decides by that.
use tx2_link.Common.{
  ℕ, ◌+◌, ◌%◌, ◌^◌, ◌≤◌, ◌<◌, ◌≡◌, refl, inl, inr, Bool, true, ◌&&◌, List, [], ◌∷◌, arith, ltb, leb,
  if◌then◌else◌,
}
use tx2_link.Error.{Result, ok, err, is_ok}
use tx2_link.RateLimit.Window.{
  Instant, RateLimiter, MessageRecord, RateLimitConfig, new, in_window, burst_window, judge, reject,
  record_message, cleanup_old_records, check_and_record,
}
use tx2_link.RateLimit.Window.Weigh.{weigh, one, bytes}
use tx2_link.RateLimit.Window.Tracks.{Tracks, bytes-between-le, new-Tracks, cleanup-Tracks}
use tx2_link.RateLimit.Window.Judged.{judge_cases}
use tx2_link.RateLimit.Window.Bounds.{
  IsConfig, IsRun, noted, run, check-Tracks, count_messages-log, count_bytes-log, count_burst-log,
  weigh-in_window-past,
}

-- Whether what was let through so far leaves room for a record, in the window and in the burst.
abbrev pub has_room : RateLimitConfig → MessageRecord → List MessageRecord → Bool
has_room c r log =
    ltb (weigh one (in_window r.timestamp c.window_duration) log) c.max_messages_per_second
    && leb (weigh bytes (in_window r.timestamp c.window_duration) log + r.size)
        c.max_bytes_per_second
    && ltb (weigh one (in_window r.timestamp burst_window) log) c.burst_size

-- The verdicts on a caller's checks, and the log after them, newest first.
unfoldable pub reference :
    RateLimitConfig → List (Instant × ℕ) → List MessageRecord → List Bool × List MessageRecord
reference c [] log = ([], log)
reference c ((now, size) ∷ checks) log =
    let r : MessageRecord = record { timestamp = now; size = size } in
    let accepted = has_room c r log in
    let (verdicts, log') = reference c checks (if accepted then r ∷ log else log) in
    (accepted ∷ verdicts, log')

-- The verdicts of the limiter on these checks.
unfoldable pub verdicts : List (Instant × ℕ) → RateLimiter → List Bool
verdicts [] l = []
verdicts ((now, size) ∷ checks) l =
    let (verdict, l') = check_and_record now size l in is_ok verdict ∷ verdicts checks l'

abbrev pub count_rejected : List Bool → ℕ
count_rejected [] = 0
count_rejected (accepted ∷ vs) = (if accepted then 0 else 1) + count_rejected vs

-- All records, whenever they came.
abbrev pub ever : MessageRecord → Bool
ever r = true

module _ (c : RateLimitConfig) (u : IsConfig c) where
  judge-has_room :
      (now : Instant) (size : ℕ) (l : RateLimiter) (log : List MessageRecord)
      → size + c.max_bytes_per_second < 2 ^ 64
      → Tracks c now l log
      → is_ok (judge now size l).0 ≡ has_room c (record { timestamp = now; size = size }) log
  unfolding judge reject
  judge-has_room now size l log fits t = ground (
    arith,
    count_messages-log c now l log u t,
    count_bytes-log c now l log u t,
    count_burst-log c now l log u t,
    t.same_config,
    weigh-in_window-past bytes now c.window_duration log t.past,
    bytes-between-le c now log t.limited,
  )

  check-has_room :
      (before now : Instant) (size : ℕ) (l : RateLimiter) (log : List MessageRecord)
      → before ≤ now
      → size + c.max_bytes_per_second < 2 ^ 64
      → Tracks c before l log
      → is_ok (check_and_record now size l).0
        ≡ has_room c (record { timestamp = now; size = size }) log
  unfolding check_and_record
  check-has_room before now size l log m fits t =
      judge-has_room now size (cleanup_old_records now l) log fits
        (cleanup-Tracks c before now l log m t)

  noted-is_ok :
      (now : Instant) (size : ℕ) (r : Result (Unit {0})) (log : List MessageRecord)
      → noted now size r log
        ≡ (if is_ok r then record { timestamp = now; size = size } ∷ log else log)
  noted-is_ok now size (ok a) log = refl
  noted-is_ok now size (err e) log = refl

  run-reference :
      (checks : List (Instant × ℕ)) (before : Instant) (l : RateLimiter) (log : List MessageRecord)
      → IsRun c before checks
      → Tracks c before l log
      → (verdicts checks l, (run checks l log).1) ≡ reference c checks log
  unfolding verdicts run reference
  run-reference [] before l log h t = refl
  run-reference ((now, size) ∷ checks) before l log h t =
      let e = check-has_room before now size l log h.0 h.1 t in
      let rest =
        run-reference checks now _ _ h.2 (check-Tracks c u before now size l log h.0 h.1 t) in
      rw (← e, ← noted-is_ok now size (check_and_record now size l).0 log, ← rest) refl

-- The totals of a limiter, on 64 bits, of what it let through and how often it refused.
record Totals (l : RateLimiter) (log : List MessageRecord) (refused : ℕ) : Type 0 where
  messages : l.total_messages ≡ weigh one ever log % 2 ^ 64
  sizes : l.total_bytes ≡ weigh bytes ever log % 2 ^ 64
  refusals : l.total_rejected ≡ refused % 2 ^ 64

judge-Totals :
    (now : Instant) (size : ℕ) (l : RateLimiter) (log : List MessageRecord) (n : ℕ)
    → Totals l log n
    → (let (r, l') = judge now size l in
        Totals l' (noted now size r log) (n + (if is_ok r then 0 else 1)))
unfolding reject record_message weigh
judge-Totals now size l log n t = elim (judge_cases now size l) [
  | inl e ↦ rw e (record {
    messages = omega (arith, t.messages);
    sizes = omega (arith, t.sizes);
    refusals = omega (arith, t.refusals);
  })
  | inr (text, e) ↦
      rw e (record { messages = t.messages; sizes = t.sizes; refusals = omega (arith, t.refusals) })
]

check-Totals :
    (now : Instant) (size : ℕ) (l : RateLimiter) (log : List MessageRecord) (n : ℕ)
    → Totals l log n
    → (let (r, l') = check_and_record now size l in
        Totals l' (noted now size r log) (n + (if is_ok r then 0 else 1)))
unfolding check_and_record cleanup_old_records
check-Totals now size l log n t =
    judge-Totals now size (cleanup_old_records now l) log n
      (record { messages = t.messages; sizes = t.sizes; refusals = t.refusals })

run-Totals :
    (checks : List (Instant × ℕ)) (l : RateLimiter) (log : List MessageRecord) (n : ℕ)
    → Totals l log n
    → (let (l', log') = run checks l log in Totals l' log' (n + count_rejected (verdicts checks l)))
unfolding run verdicts
run-Totals [] l log n t = record {
  messages = t.messages;
  sizes = t.sizes;
  refusals = omega (arith, t.refusals);
}
run-Totals ((now, size) ∷ checks) l log n t =
    let rest = run-Totals checks _ _ _ (check-Totals now size l log n t) in
    record { messages = rest.messages; sizes = rest.sizes; refusals = omega (arith, rest.refusals) }

-- For a window of 100 ms at least, a clock that does not go back, and sizes that do not wrap with
-- the byte limit: a new limiter gives, on any run of checks, the verdicts of the reference, though
-- it forgets what is old; and its totals are, on 64 bits, how many messages the reference has let
-- through, their bytes, and how many it has refused.
pub limiter_as_reference :
    (c : RateLimitConfig) (start : Instant) (checks : List (Instant × ℕ))
    → IsConfig c
    → IsRun c start checks
    → (let l = (run checks (new c) []).0 in
        let (answers, log) = reference c checks [] in
        (verdicts checks (new c) ≡ answers)
        × (l.total_messages ≡ weigh one ever log % 2 ^ 64)
        × (l.total_bytes ≡ weigh bytes ever log % 2 ^ 64)
        × (l.total_rejected ≡ count_rejected answers % 2 ^ 64))
unfolding new weigh
limiter_as_reference c start checks u h =
    let e = run-reference c u checks start (new c) [] h (new-Tracks c start) in
    let t =
      run-Totals checks (new c) [] 0
        (record { messages = omega arith; sizes = omega arith; refusals = omega arith }) in
    rw (← e) (refl, t.messages, t.sizes, omega (arith, t.refusals))
