-- ===== src/Debug/Quiet.antt =====
-- When anything is printed.
use tx2_link.Common.{
  ℕ, not, Bool, true, false, String, ◌↔◌, ◌≢◌, ◌⊎◌, inl, inr, List, [], ◌∷◌, ◌++◌, if◌then◌else◌,
  ◌≡◌, arith,
}
use tx2_link.Float.{FloatOps}
use tx2_link.Protocol.{Message}
use tx2_link.Serialization.{Bytes, BinarySerializer, Formats, WorldSnapshot}
use tx2_link.Serialization as Wire
use tx2_link.Debug.{
  Modes, Pretty, FloatText, logged, init_debug_mode, is_debug_enabled, is_trace_enabled,
  log_message, log_snapshot, log_delta, trace_serialization, trace_deserialization,
  trace_compression, trace_rate_limit, trace_transport_send, trace_transport_receive,
}
use tx2_link.Debug.Counts.{trace_delta}

-- A call of one of the functions that print.
pub data Call : Type 0 where
  message : String → Message → Call
  snapshot : String → WorldSnapshot → Call
  delta : String → Wire.Delta → Call
  summary : Wire.Delta → Call
  serialization deserialization : String → ℕ → ℕ → Call
  compression : ℕ → ℕ → ℕ → Call
  rate_limit : Bool → ℕ → ℕ → Call
  transport_send transport_receive : ℕ → String → Call

-- The mode that a call depends on.
abbrev pub is_on : Modes → Call → Bool
is_on m (Call.message l x) = is_debug_enabled m
is_on m (Call.snapshot l x) = is_debug_enabled m
is_on m (Call.delta l x) = is_debug_enabled m
is_on m _ = is_trace_enabled m

if_not-nil_iff :
    (b : Bool) (l : List String) → l ≢ [] → ((if not b then [] else l) ≡ []) ↔ (b ≡ false)
if_not-nil_iff true l h = ground (arith, h)
if_not-nil_iff false l h = ground arith

logged-ne-nil :
    (what : String) (around : String → String) (r : String ⊎ String) → logged what around r ≢ []
logged-ne-nil what around (inl e) = ground arith
logged-ne-nil what around (inr json) = ground arith

module _ (pretty : Pretty) (floats : FloatOps) (texts : FloatText) where
  unfoldable pub print : Modes → Call → List String
  unfolding log_message log_snapshot log_delta trace_delta trace_serialization trace_deserialization
      trace_compression trace_rate_limit trace_transport_send trace_transport_receive
  print m (Call.message direction x) = log_message pretty m direction x
  print m (Call.snapshot label x) = log_snapshot pretty m label x
  print m (Call.delta label x) = log_delta pretty m label x
  print m (Call.summary x) = trace_delta texts m x
  print m (Call.serialization format size micros) = trace_serialization m format size micros
  print m (Call.deserialization format size micros) = trace_deserialization m format size micros
  print m (Call.compression before after micros) =
      trace_compression floats texts m before after micros
  print m (Call.rate_limit allowed rate limit) = trace_rate_limit m texts allowed rate limit
  print m (Call.transport_send bytes to) = trace_transport_send m bytes to
  print m (Call.transport_receive bytes from) = trace_transport_receive m bytes from

  -- Each of the functions prints exactly when its mode is on: the debug mode for what is logged as
  -- JSON, also if the printer fails, and the trace mode for the others.
  pub print-nil_iff : (m : Modes) (call : Call) → (print m call ≡ []) ↔ (is_on m call ≡ false)
  unfolding print
  print-nil_iff m (Call.message direction x) = if_not-nil_iff m.debug_mode _ (logged-ne-nil _ _ _)
  print-nil_iff m (Call.snapshot label x) = if_not-nil_iff m.debug_mode _ (logged-ne-nil _ _ _)
  print-nil_iff m (Call.delta label x) = if_not-nil_iff m.debug_mode _ (logged-ne-nil _ _ _)
  print-nil_iff m (Call.summary x) = if_not-nil_iff m.trace_mode _ (ground arith)
  print-nil_iff m (Call.serialization format size micros) =
      if_not-nil_iff m.trace_mode _ (ground arith)
  print-nil_iff m (Call.deserialization format size micros) =
      if_not-nil_iff m.trace_mode _ (ground arith)
  print-nil_iff m (Call.compression before after micros) =
      if_not-nil_iff m.trace_mode _ (ground arith)
  print-nil_iff m (Call.rate_limit allowed rate limit) =
      if_not-nil_iff m.trace_mode _ (ground arith)
  print-nil_iff m (Call.transport_send bytes to) = if_not-nil_iff m.trace_mode _ (ground arith)
  print-nil_iff m (Call.transport_receive bytes from) = if_not-nil_iff m.trace_mode _ (ground arith)

  unfoldable pub print_all : Modes → List Call → List String
  unfolding print
  print_all m [] = []
  print_all m (call ∷ calls) = print m call ++ print_all m calls

  -- A process that reads its environment once and then makes the calls.
  unfoldable pub session : (String → Bool) → List Call → List String
  unfolding init_debug_mode print_all
  session is_ok calls = let (m, lines) = init_debug_mode is_ok in lines ++ print_all m calls
