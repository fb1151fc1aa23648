-- ===== src/Float.antt =====
-- The arithmetic on f64 that the program uses, as a parameter. A float is its bit pattern, as in
-- `Protocol.Value`, where the comparisons are defined.
use tx2_link.Common.{ℕ}

pub record FloatOps : Type 0 where
  -- `n as f64`, of a u32 or a u64
  pub of_nat : ℕ → ℕ
  pub mul : ℕ → ℕ → ℕ
  pub div : ℕ → ℕ → ℕ
  -- `x as u32` and `x as u64`: cut off, with saturation
  pub to_u32 : ℕ → ℕ
  pub to_u64 : ℕ → ℕ
  -- `Duration::as_secs_f64`, of nanoseconds
  pub as_secs_f64 : ℕ → ℕ
