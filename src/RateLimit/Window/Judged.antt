-- ===== src/RateLimit/Window/Judged.antt =====
-- The four answers of a check, and what each leaves.
use tx2_link.Common.{ℕ, ◌≡◌, refl, ◌⊎◌, inl, inr, Bool, true, false, ltb, leb, if◌then◌else◌, add64}
use tx2_link.Error.{LinkError, rate_limit_exceeded, Result, ok, err}
use tx2_link.RateLimit.Window.{
  Instant, RateLimiter, count_messages_in_window, count_bytes_in_window, count_recent_burst,
  record_message, judge, reject, message_limit_text, byte_limit_text, burst_limit_text,
}

-- Three tests in a row, each with an answer of its own: one of the four answers is given.
if_cases :
    {A : Type 0} (P : A → Type 0) (p q r : Bool) (x y z w : A)
    → P x
    → P y
    → P z
    → P w
    → P (if p then x else if q then y else if r then z else w)
if_cases P true q r x y z w hx hy hz hw = hx
if_cases P false true r x y z w hx hy hz hw = hy
if_cases P false false true x y z w hx hy hz hw = hz
if_cases P false false false x y z w hx hy hz hw = hw

abbrev pub Judged : Instant → ℕ → RateLimiter → Result (Unit {0}) × RateLimiter → Type 0
Judged now size l r =
    (r ≡ (ok tt, record_message now size l))
    ⊎ ((e : LinkError) × (r ≡ (err e, record l { total_rejected = add64 l.total_rejected 1 })))

pub judge_cases :
    (now : Instant) (size : ℕ) (l : RateLimiter) → Judged now size l (judge now size l)
unfolding judge reject
judge_cases now size l =
    if_cases (Judged now size l)
      (leb l.config.max_messages_per_second (count_messages_in_window now l))
      (ltb l.config.max_bytes_per_second (add64 (count_bytes_in_window now l) size))
      (leb l.config.burst_size (count_recent_burst now l)) (reject (message_limit_text l.config) l)
      (reject (byte_limit_text l.config) l) (reject (burst_limit_text l.config) l)
      (ok tt, record_message now size l)
      (inr (rate_limit_exceeded (message_limit_text l.config), refl))
      (inr (rate_limit_exceeded (byte_limit_text l.config), refl))
      (inr (rate_limit_exceeded (burst_limit_text l.config), refl)) (inl refl)
