-- ===== src/RateLimit/Window/Quota.antt =====
-- Messages of one size that come within 100 ms.
use tx2_link.Common.{
  ℕ, zero, suc, ◌+◌, ◌-◌, ◌*◌, ◌/◌, ◌≤◌, ◌<◌, ◌≡◌, refl, ap, Bool, true, false, List, [], ◌∷◌,
  arith, min, ltb, length, All, if◌then◌else◌, Bool-cases, inl, inr, ◌∙◌,
}
use native.Mathlib.Nat.{le-div_iff_mul-le}
use tx2_link.RateLimit.Window.{
  Instant, Duration, MessageRecord, RateLimitConfig, new, in_window, burst_window,
}
use tx2_link.RateLimit.Window.Weigh.{weigh, one, bytes}
use tx2_link.RateLimit.Window.Bounds.{IsConfig, IsRun}
use tx2_link.RateLimit.Window.Reference.{has_room, reference, verdicts, limiter_as_reference}

-- How many of them a new limiter lets through.
abbrev pub quota : RateLimitConfig → ℕ → ℕ
quota c size = min (min c.max_messages_per_second c.burst_size) (c.max_bytes_per_second / size)

-- The first `q` of `n` are accepted.
unfoldable pub accept_first : (q n : ℕ) → List Bool
accept_first q zero = []
accept_first zero (suc n) = false ∷ accept_first zero n
accept_first (suc q) (suc n) = true ∷ accept_first q n

accept_first-cons :
    (q k n : ℕ)
    → accept_first (q - k) (suc n) ≡ ltb k q ∷ accept_first (q - (if ltb k q then suc k else k)) n
unfolding accept_first
accept_first-cons q k n = elim (Bool-cases (ltb k q)) [
  | inl e ↦ let more : q - k ≡ suc (q - suc k) = ground (arith, e) in rw (e, more) refl
  | inr e ↦ let none_left : q - k ≡ zero = ground (arith, e) in rw (e, none_left) refl
]

module _ (start : Instant) (size : ℕ) where
  -- All come within 100 ms of the start, and are of the size.
  abbrev pub IsBurst : List (Instant × ℕ) → Type 0
  IsBurst [] = Unit
  IsBurst ((now, s) ∷ checks) =
      (start ≤ now) × (now ≤ start + burst_window) × (s ≡ size) × IsBurst checks

  abbrev IsEarly : MessageRecord → Type 0
  IsEarly r = (start ≤ r.timestamp) × (r.size ≡ size)

  weigh-one_early :
      (now : Instant) (span : Duration) (log : List MessageRecord)
      → now ≤ start + span
      → All IsEarly log
      → weigh one (in_window now span) log ≡ length log
  unfolding weigh
  weigh-one_early now span [] h a = refl
  weigh-one_early now span (r ∷ rs) h a =
      ground (arith, weigh-one_early now span rs h a.1, a.0.0, h)

  weigh-bytes_early :
      (now : Instant) (span : Duration) (log : List MessageRecord)
      → now ≤ start + span
      → All IsEarly log
      → weigh bytes (in_window now span) log ≡ length log * size
  unfolding weigh
  weigh-bytes_early now span [] h a = omega arith
  weigh-bytes_early now span (r ∷ rs) h a =
      ground (arith, weigh-bytes_early now span rs h a.1, a.0.0, a.0.1, h)

  has_room-quota :
      (c : RateLimitConfig) (now : Instant) (log : List MessageRecord)
      → 0 < size
      → burst_window ≤ c.window_duration
      → now ≤ start + burst_window
      → All IsEarly log
      → has_room c (record { timestamp = now; size = size }) log ≡ ltb (length log) (quota c size)
  has_room-quota c now log pos w h a =
      let fits =
        le-div_iff_mul-le {k = size} {x = length log + 1} {y = c.max_bytes_per_second} pos in
      rw
        (
          weigh-one_early now c.window_duration log (omega arith) a,
          weigh-bytes_early now c.window_duration log (omega arith) a,
          weigh-one_early now burst_window log h a,
        )
        (ground (arith, fits))

  reference-quota :
      (c : RateLimitConfig) (checks : List (Instant × ℕ)) (log : List MessageRecord)
      → 0 < size
      → burst_window ≤ c.window_duration
      → IsBurst checks
      → All IsEarly log
      → (reference c checks log).0 ≡ accept_first (quota c size - length log) (length checks)
  unfolding reference accept_first
  reference-quota c [] log pos w h a = refl
  reference-quota c ((now, s) ∷ checks) log pos w (from, to, same, rest) a =
      rw
        (
          same,
          has_room-quota c now log pos w to a,
          accept_first-cons (quota c size) (length log) (length checks),
        )
        (elim (Bool-cases (ltb (length log) (quota c size))) [
          | inl e ↦ rw e (
              ap (◌∷◌ true) (
                reference-quota c checks (record { timestamp = now; size = size } ∷ log) pos w rest
                  ((from, refl), a)))
          | inr e ↦ rw e (ap (◌∷◌ false) (reference-quota c checks log pos w rest a))
        ])

-- A new limiter is asked for messages of one size, which is not zero, at readings within 100 ms of
-- some instant that do not go back, for a window of 100 ms at least and a size that does not wrap
-- with the byte limit: it accepts the first ones, as many as the least of the message limit, the
-- burst size and the byte limit divided by the size, and refuses all that follow.
pub verdicts-burst :
    (c : RateLimitConfig) (start : Instant) (size : ℕ) (checks : List (Instant × ℕ))
    → IsConfig c
    → IsRun c start checks
    → 0 < size
    → IsBurst start size checks
    → verdicts checks (new c) ≡ accept_first (quota c size) (length checks)
verdicts-burst c start size checks u h pos b =
    (limiter_as_reference c start checks u h).0
    ∙ reference-quota start size c checks [] pos u.covers_burst b tt
    ∙ ap (λ q. accept_first q (length checks)) (omega arith)
