-- ===== src/Debug/Calls.antt =====
-- The logging that the serializer and the compressor do on the way. The results are those of
-- `Serialization` and `Compression.Delta`; with them come the texts that are printed. The time that
-- has gone by, in microseconds, is an argument.
use tx2_link.Common.{ℕ, String, ◌⊎◌, inl, inr, List, [], ◌++◌, length, if◌then◌else◌}
use tx2_link.Common.Maps.{HashOrder, string_key, nat_key}
use tx2_link.Error.{Result, ok, err}
use tx2_link.Float.{FloatOps}
use tx2_link.Protocol.{ComponentId, EntityId, SerializedComponent, SerializedEntity, Message}
use tx2_link.Serialization.{Bytes, BinaryFormat, BinarySerializer, Formats, WorldSnapshot}
use tx2_link.Serialization as Wire
use tx2_link.Compression.Json.{SerdeJson}
use tx2_link.Compression.Delta.{DeltaCompressor}
use tx2_link.Compression.Delta as Delta
use tx2_link.Debug.{
  Modes, Pretty, FloatText, is_debug_enabled, is_trace_enabled, log_message, log_delta,
  trace_serialization, trace_deserialization, trace_compression,
}
use tx2_link.Debug.Counts.{trace_delta}

abbrev pub format_name : BinaryFormat → String
format_name BinaryFormat.json = "JSON"
format_name BinaryFormat.message_pack = "MessagePack"
format_name BinaryFormat.bincode = "Bincode"

-- `if let Ok(ref a) = result`
abbrev pub on_success {ℓ} : {A : Type ℓ} → (A → List String) → Result A → List String
on_success prints (ok a) = prints a
on_success prints (err e) = []

module _ (pretty : Pretty) (m : Modes) (f : Formats Message) (s : BinarySerializer)
    (micros : ℕ) where
  unfoldable pub report_serialized : Message → Result Bytes → List String
  unfolding log_message trace_serialization
  report_serialized message result =
      on_success
        (λ bytes.
          (if is_debug_enabled m then log_message pretty m "Serialized" message else [])
          ++ (if is_trace_enabled m
              then trace_serialization m (format_name s.format) (length bytes) micros
              else []))
        result

  unfoldable pub serialize_message_logged : Message → Result Bytes × List String
  unfolding Wire.serialize_message report_serialized
  serialize_message_logged message =
      let result = Wire.serialize_message f s message in (result, report_serialized message result)

  unfoldable pub report_deserialized : Bytes → Result Message → List String
  unfolding log_message trace_deserialization
  report_deserialized data_bytes result =
      on_success
        (λ message.
          (if is_debug_enabled m then log_message pretty m "Deserialized" message else [])
          ++ (if is_trace_enabled m
              then trace_deserialization m (format_name s.format) (length data_bytes) micros
              else []))
        result

  unfoldable pub deserialize_message_logged : Bytes → Result Message × List String
  unfolding Wire.deserialize_message report_deserialized
  deserialize_message_logged data_bytes =
      let result = Wire.deserialize_message f s data_bytes in
      (result, report_deserialized data_bytes result)

-- `unwrap_or_default().len()`
abbrev pub size_or_zero : String ⊎ Bytes → ℕ
size_or_zero (inl e) = 0
size_or_zero (inr bs) = length bs

module _ (pretty : Pretty) (floats : FloatOps) (texts : FloatText) (m : Modes)
    (snapshots : Formats WorldSnapshot) (deltas : Formats Wire.Delta) (micros : ℕ) where
  unfoldable pub report_delta : WorldSnapshot → Wire.Delta → List String
  unfolding log_delta trace_delta trace_compression
  report_delta current_snapshot delta =
      (if is_debug_enabled m then log_delta pretty m "Created" delta else [])
      ++ (if is_trace_enabled m
          then trace_delta texts m delta
            ++ trace_compression floats texts m
                (size_or_zero (snapshots.bincode.to_vec current_snapshot))
                (size_or_zero (deltas.bincode.to_vec delta)) micros
          else [])

  unfoldable pub create_delta_logged :
      SerdeJson
      → HashOrder ComponentId SerializedComponent
      → HashOrder EntityId SerializedEntity
      → WorldSnapshot
      → DeltaCompressor
      → (Wire.Delta × DeltaCompressor) × List String
  unfolding Delta.create_delta report_delta
  create_delta_logged json order entities current_snapshot c =
      let result = Delta.create_delta json order entities current_snapshot c in
      (result, report_delta current_snapshot result.0)
