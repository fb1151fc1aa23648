-- ===== src/Serialization/Stream.antt =====
-- `StreamingSerializer` and `StreamingDeserializer`: each message is a frame, a length of four
-- bytes, lowest first, and the encoded message. A byte is a number below 256.
pub mod Frames
pub mod Drain
pub mod Ends
pub mod RoundTrip
mod Examples
use tx2_link.Common.{
  ℕ, ◌+◌, ◌*◌, ◌/◌, ◌%◌, ◌^◌, Option, none, some, List, [], ◌∷◌, ◌++◌, ltb, if◌then◌else◌, length,
  take, drop, as_u32,
}
use tx2_link.Error.{Result, ok, err}
use tx2_link.Protocol.{Message}
use tx2_link.Serialization.{BinaryFormat, Bytes, Formats, serialize_message, deserialize_message}

-- `put_u32_le`, `u32::to_le_bytes`
unfoldable pub to_le_bytes : ℕ → Bytes
to_le_bytes n = n % 256 ∷ n / 2 ^ 8 % 256 ∷ n / 2 ^ 16 % 256 ∷ n / 2 ^ 24 % 256 ∷ []

-- `u32::from_le_bytes` of the first four bytes; only called on four bytes or more
unfoldable pub from_le_bytes : Bytes → ℕ
from_le_bytes (b0 ∷ b1 ∷ b2 ∷ b3 ∷ rest) = b0 + b1 * 2 ^ 8 + b2 * 2 ^ 16 + b3 * 2 ^ 24
from_le_bytes _ = 0

pub record StreamingSerializer : Type 0 where
  pub format : BinaryFormat
  pub buffer : Bytes

pub record StreamingDeserializer : Type 0 where
  pub format : BinaryFormat
  pub buffer : Bytes

abbrev pub new_serializer : BinaryFormat → StreamingSerializer
new_serializer format = record { format = format; buffer = [] }

abbrev pub new_deserializer : BinaryFormat → StreamingDeserializer
new_deserializer format = record { format = format; buffer = [] }

-- The length is cut to 32 bits: `data.len() as u32`.
unfoldable pub frame : Bytes → Bytes
unfolding to_le_bytes
frame bs = to_le_bytes (as_u32 (length bs)) ++ bs

module _ (f : Formats Message) where
  unfoldable pub write_message :
      Message → StreamingSerializer → Result (Unit {0}) × StreamingSerializer
  unfolding serialize_message frame
  write_message message s = elim (serialize_message f (record { format = s.format }) message) [
    | ok bs ↦ (ok tt, record s { buffer = s.buffer ++ frame bs })
    | err e ↦ (err e, s)
  ]

-- The bytes so far, and an empty buffer.
unfoldable pub flush : StreamingSerializer → Bytes × StreamingSerializer
flush s = (s.buffer, record s { buffer = [] })

unfoldable pub clear_serializer : StreamingSerializer → StreamingSerializer
clear_serializer s = record s { buffer = [] }

unfoldable pub feed : Bytes → StreamingDeserializer → StreamingDeserializer
feed bs d = record d { buffer = d.buffer ++ bs }

unfoldable pub clear_deserializer : StreamingDeserializer → StreamingDeserializer
clear_deserializer d = record d { buffer = [] }

-- `Advance::advance`
unfoldable pub advance : ℕ → Bytes → Bytes
advance n buffer = drop n buffer

-- A decoded message, or the decoder's error with the frame consumed.
abbrev pub decoded : Result Message → Result (Option Message)
decoded (ok m) = ok (some m)
decoded (err e) = err e

module _ (f : Formats Message) where
  unfoldable pub try_read_message :
      StreamingDeserializer → Result (Option Message) × StreamingDeserializer
  unfolding from_le_bytes advance deserialize_message
  try_read_message d =
      if ltb (length d.buffer) 4
      then (ok none, d)
      else let n = from_le_bytes d.buffer in
        if ltb (length d.buffer) (4 + n)
        then (ok none, d)
        else let buffer = advance 4 d.buffer in
          (
            decoded (deserialize_message f (record { format = d.format }) (take n buffer)),
            record d { buffer = drop n buffer },
          )
