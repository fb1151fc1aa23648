-- ===== src/RateLimit/Window/Tracks.antt =====
-- The limiter against a log of everything that it ever let through: though it forgets old records,
-- it counts as one that keeps them all.
use tx2_link.Common.{
  ℕ, ◌≤◌, ◌≡◌, refl, inl, inr, Bool, true, ◌&&◌, List, [], ◌∷◌, arith, leb, All, Bool-cases,
}
use tx2_link.RateLimit.Window.{
  Instant, Duration, RateLimiter, MessageRecord, RateLimitConfig, new, in_window,
  cleanup_old_records, burst_window,
}
use tx2_link.RateLimit.Window.Weigh.{weigh, one, bytes, weigh-pop_old, weigh_mono}

-- A log, newest first, in which each record was within the limits when it came.
abbrev pub IsLimited : RateLimitConfig → List MessageRecord → Type 0
IsLimited c [] = Unit
IsLimited c (r ∷ older) =
    (weigh one (in_window r.timestamp c.window_duration) (r ∷ older) ≤ c.max_messages_per_second)
    × (weigh bytes (in_window r.timestamp c.window_duration) (r ∷ older) ≤ c.max_bytes_per_second)
    × (weigh one (in_window r.timestamp burst_window) (r ∷ older) ≤ c.burst_size)
    × IsLimited c older

-- The records of the `span` that ends at `t`.
abbrev pub between : Instant → Duration → MessageRecord → Bool
between t span r = leb r.timestamp t && in_window t span r

module _ (w : MessageRecord → ℕ) (t span limit : ℕ) where
  -- If the span that ends at each record was within the limit, so is the span that ends anywhere.
  pub weigh-between_cons :
      (r : MessageRecord) (older : List MessageRecord)
      → weigh w (in_window r.timestamp span) (r ∷ older) ≤ limit
      → weigh w (between t span) older ≤ limit
      → weigh w (between t span) (r ∷ older) ≤ limit
  unfolding weigh
  weigh-between_cons r older h ih = elim (Bool-cases (between t span r)) [
    | inl e ↦
        let later : r.timestamp ≤ t = ground arith in
        omega (
          arith,
          weigh_mono w (between t span) (in_window r.timestamp span) (r ∷ older)
              (λ s q. ground arith),
        )
    | inr e ↦ rw e (omega arith)
  ]

module _ (c : RateLimitConfig) (t : Instant) where
  pub messages-between-le :
      (log : List MessageRecord)
      → IsLimited c log
      → weigh one (between t c.window_duration) log ≤ c.max_messages_per_second
  unfolding weigh
  messages-between-le [] h = omega arith
  messages-between-le (r ∷ older) h =
      weigh-between_cons one t c.window_duration _ r older h.0 (messages-between-le older h.3)

  pub bytes-between-le :
      (log : List MessageRecord)
      → IsLimited c log
      → weigh bytes (between t c.window_duration) log ≤ c.max_bytes_per_second
  unfolding weigh
  bytes-between-le [] h = omega arith
  bytes-between-le (r ∷ older) h =
      weigh-between_cons bytes t c.window_duration _ r older h.1 (bytes-between-le older h.3)

  pub burst-between-le :
      (log : List MessageRecord)
      → IsLimited c log
      → weigh one (between t burst_window) log ≤ c.burst_size
  unfolding weigh
  burst-between-le [] h = omega arith
  burst-between-le (r ∷ older) h =
      weigh-between_cons one t burst_window _ r older h.2 (burst-between-le older h.3)

-- `l`, last checked at `now`, has let through exactly the records of `log`: on what is recent at
-- `now` its histories weigh what the log weighs.
pub record Tracks (c : RateLimitConfig) (now : Instant) (l : RateLimiter) (log : List MessageRecord)
    : Type 0 where
  pub same_config : l.config ≡ c
  pub messages :
      (w : MessageRecord → ℕ) (p : MessageRecord → Bool)
      → ((r : MessageRecord) → p r ≡ true → in_window now c.window_duration r ≡ true)
      → weigh w p l.message_history ≡ weigh w p log
  pub sizes :
      (w : MessageRecord → ℕ) (p : MessageRecord → Bool)
      → ((r : MessageRecord) → p r ≡ true → in_window now c.window_duration r ≡ true)
      → weigh w p l.byte_history ≡ weigh w p log
  pub past : All (λ r. r.timestamp ≤ now) log
  pub limited : IsLimited c log

pub new-Tracks : (c : RateLimitConfig) (now : Instant) → Tracks c now (new c) []
unfolding new
new-Tracks c now = record {
  same_config = refl;
  messages = λ w p h. refl;
  sizes = λ w p h. refl;
  past = tt;
  limited = tt;
}

All-le_later :
    (now later : Instant) (log : List MessageRecord)
    → now ≤ later
    → All (λ r. r.timestamp ≤ now) log
    → All (λ r. r.timestamp ≤ later) log
All-le_later now later [] h a = tt
All-le_later now later (r ∷ rs) h a = (omega arith, All-le_later now later rs h a.1)

-- Time passes, and old records are dropped.
pub cleanup-Tracks :
    (c : RateLimitConfig) (now later : Instant) (l : RateLimiter) (log : List MessageRecord)
    → now ≤ later
    → Tracks c now l log
    → Tracks c later (cleanup_old_records later l) log
unfolding cleanup_old_records
cleanup-Tracks c now later l log m t = record {
  same_config = t.same_config;
  messages = λ w p h.
      rw (t.same_config, weigh-pop_old w p later c.window_duration l.message_history h)
        (t.messages w p (λ r q. ground (arith, h r q)));
  sizes = λ w p h.
      rw (t.same_config, weigh-pop_old w p later c.window_duration l.byte_history h)
        (t.sizes w p (λ r q. ground (arith, h r q)));
  past = All-le_later now later log m t.past;
  limited = t.limited;
}
