-- ===== src/Debug.antt =====
-- debug.rs: what is printed to the standard error stream, as the list of texts that `eprintln!` is
-- called with, and the two modes that it depends on. The children have the summary of a delta, the
-- texts without a mode, and the calls that the serializer and the compressor make.
pub mod Counts
pub mod Totals
pub mod Texts
pub mod Calls
pub mod Quiet
pub mod Session
pub mod Examples
use tx2_link.Common.{
  ℕ, ltb, not, ◌||◌, Bool, false, String, ◌⊎◌, inl, inr, List, [], ◌∷◌, ◌++◌, length, if◌then◌else◌,
}
use tx2_link.Common.Text.{◌<>◌, show}
use tx2_link.Float.{FloatOps}
use tx2_link.Protocol.{Message}
use tx2_link.Serialization.{WorldSnapshot}
use tx2_link.Serialization as Wire

-- `DEBUG_MODE` and `TRACE_MODE`
pub record Modes : Type 0 where
  pub debug_mode : Bool
  pub trace_mode : Bool

-- The initial values of the two statics.
abbrev pub initial_modes : Modes
initial_modes = record { debug_mode = false; trace_mode = false }

-- `serde_json::to_string_pretty` at the three types: a text, or the text of the error.
pub record Pretty : Type 0 where
  pub message : Message → String ⊎ String
  pub snapshot : WorldSnapshot → String ⊎ String
  pub delta : Wire.Delta → String ⊎ String

-- `{}` of an f64, and `{:.n}` for a number of digits.
pub record FloatText : Type 0 where
  pub plain : ℕ → String
  pub fixed : ℕ → ℕ → String

-- A text that is printed if a condition holds.
abbrev pub line_if : Bool → String → List String
line_if b text = if b then text ∷ [] else []

-- `is_ok name` says whether `env::var(name)` is a success.
unfoldable pub init_debug_mode : (String → Bool) → Modes × List String
init_debug_mode is_ok =
    let debug = is_ok "TX2_DEBUG" || is_ok "TX2_DEBUG_JSON" in
    let trace = is_ok "TX2_TRACE" in
    (
      record { debug_mode = debug; trace_mode = trace },
      line_if debug "[TX2-LINK] Debug mode enabled - all messages will be logged as JSON"
          ++ line_if trace "[TX2-LINK] Trace mode enabled - human-readable operation logs",
    )

abbrev pub is_debug_enabled : Modes → Bool
is_debug_enabled m = m.debug_mode

abbrev pub is_trace_enabled : Modes → Bool
is_trace_enabled m = m.trace_mode

-- The `match` on what the printer gives, with the text around a success.
abbrev pub logged : String → (String → String) → String ⊎ String → List String
logged what around (inr json) = around json ∷ []
logged what around (inl e) = ("[TX2-LINK] Failed to serialize " <> what <> " to JSON: " <> e) ∷ []

module _ (pretty : Pretty) (m : Modes) where
  unfoldable pub log_message : String → Message → List String
  log_message direction message =
      if not (is_debug_enabled m)
      then []
      else logged "message" (λ json. "\n[TX2-LINK] " <> direction <> " Message:\n" <> json <> "\n")
          (pretty.message message)

  unfoldable pub log_snapshot : String → WorldSnapshot → List String
  log_snapshot label snapshot =
      if not (is_debug_enabled m)
      then []
      else logged "snapshot"
          (λ json.
            "\n[TX2-LINK] "
            <> label
            <> " Snapshot ("
            <> show (length snapshot.entities)
            <> " entities):\n"
            <> json
            <> "\n")
          (pretty.snapshot snapshot)

  unfoldable pub log_delta : String → Wire.Delta → List String
  log_delta label delta =
      if not (is_debug_enabled m)
      then []
      else logged "delta"
          (λ json.
            "\n[TX2-LINK] "
            <> label
            <> " Delta ("
            <> show (length delta.changes)
            <> " changes):\n"
            <> json
            <> "\n")
          (pretty.delta delta)

module _ (m : Modes) where
  -- The times are in microseconds.
  unfoldable pub trace_serialization : String → ℕ → ℕ → List String
  trace_serialization format size_bytes duration_micros =
      if not (is_trace_enabled m)
      then []
      else ("[TX2-LINK] Serialized "
          <> show size_bytes
          <> " bytes using "
          <> format
          <> " in "
          <> show duration_micros
          <> "µs")
        ∷ []

  unfoldable pub trace_deserialization : String → ℕ → ℕ → List String
  trace_deserialization format size_bytes duration_micros =
      if not (is_trace_enabled m)
      then []
      else ("[TX2-LINK] Deserialized "
          <> show size_bytes
          <> " bytes using "
          <> format
          <> " in "
          <> show duration_micros
          <> "µs")
        ∷ []

  unfoldable pub trace_transport_send : ℕ → String → List String
  trace_transport_send bytes destination =
      if not (is_trace_enabled m)
      then []
      else ("[TX2-LINK] → Sent " <> show bytes <> " bytes to " <> destination) ∷ []

  unfoldable pub trace_transport_receive : ℕ → String → List String
  trace_transport_receive bytes source =
      if not (is_trace_enabled m)
      then []
      else ("[TX2-LINK] ← Received " <> show bytes <> " bytes from " <> source) ∷ []

  unfoldable pub trace_rate_limit : FloatText → Bool → ℕ → ℕ → List String
  trace_rate_limit texts allowed current_rate limit =
      if not (is_trace_enabled m)
      then []
      else ("[TX2-LINK] Rate limit check: "
          <> (if allowed then "ALLOWED" else "BLOCKED")
          <> " (current: "
          <> texts.fixed 1 current_rate
          <> "/s, limit: "
          <> texts.fixed 1 limit
          <> "/s)")
        ∷ []

-- `original_size as f64 / delta_size as f64`, or 0.0, whose bits are all zero
unfoldable pub ratio : FloatOps → ℕ → ℕ → ℕ
ratio floats original_size delta_size =
    if ltb 0 delta_size
    then floats.div (floats.of_nat original_size) (floats.of_nat delta_size)
    else 0

unfoldable pub trace_compression : FloatOps → FloatText → Modes → ℕ → ℕ → ℕ → List String
unfolding ratio
trace_compression floats texts m original_size delta_size duration_micros =
    if not (is_trace_enabled m)
    then []
    else ("[TX2-LINK] Delta compression: "
        <> show original_size
        <> " bytes → "
        <> show delta_size
        <> " bytes ("
        <> texts.fixed 2 (ratio floats original_size delta_size)
        <> "× reduction) in "
        <> show duration_micros
        <> "µs")
      ∷ []
