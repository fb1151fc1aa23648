-- ===== src/Serialization/Stream/Examples.antt =====
-- Tests of the framing, and its theorems at concrete inputs.
use tx2_link.Common.{◌≡◌, refl, ◌*◌, ◌+◌, ◌≤◌, none, length, List, [], ◌∷◌, ◌++◌, map, arith}
use mathlib.Core.List.{flatten}
use tx2_link.Error.{ok, err, LinkError}
use tx2_link.Protocol.{Message}
use tx2_link.Samples.{ping_at, ping_formats}
use tx2_link.Serialization.{Bytes, BinaryFormat, serialize_message, deserialize_message}
use tx2_link.Serialization.Stream.{
  new_serializer, new_deserializer, frame, flush, write_message, try_read_message,
}
use tx2_link.Serialization.Stream.Frames.{next_frame}
use tx2_link.Serialization.Stream.Drain.{feed_all, feed_all-drain, drain, drain_fuel, reader}
use tx2_link.Serialization.Stream.Ends.{drain_ends}
use tx2_link.Serialization.Stream.RoundTrip.{write_all, drain-frames, stream_round_trip}

abbrev two_pings : List Message
two_pings = ping_at 1 ∷ ping_at 200 ∷ []

-- The second frame is cut inside its length.
abbrev two_pieces : List Bytes
two_pieces = (2 ∷ 0 ∷ 0 ∷ 0 ∷ 1 ∷ 7 ∷ 2 ∷ 0 ∷ []) ∷ (0 ∷ 0 ∷ 200 ∷ 7 ∷ []) ∷ []

writes :
    (flush (write_all ping_formats two_pings (new_serializer BinaryFormat.message_pack))).0
    ≡ flatten two_pieces
unfolding flush write_all write_message flatten
writes = refl

stream_round_trip_example :
    feed_all ping_formats two_pieces (new_deserializer BinaryFormat.message_pack)
    ≡ (map ok two_pings, new_deserializer BinaryFormat.message_pack)
unfolding flush write_all write_message flatten serialize_message deserialize_message
stream_round_trip_example =
    stream_round_trip ping_formats BinaryFormat.message_pack two_pings two_pieces
      ((1 ∷ 7 ∷ [], refl, omega arith, refl), ((200 ∷ 7 ∷ [], refl, omega arith, refl), tt)) refl

-- Three frames, the second of which does not decode, and the start of a fourth.
abbrev contents : List Bytes
contents = (1 ∷ 7 ∷ []) ∷ (9 ∷ []) ∷ (2 ∷ 7 ∷ []) ∷ []

drain-frames_example :
    drain ping_formats
      (reader ping_formats BinaryFormat.json (flatten (map frame contents) ++ 5 ∷ 0 ∷ []))
    ≡ (
      ok (ping_at 1) ∷ err (LinkError.json "not a ping") ∷ ok (ping_at 2) ∷ [],
      reader ping_formats BinaryFormat.json (5 ∷ 0 ∷ []),
    )
unfolding deserialize_message next_frame
drain-frames_example =
    drain-frames ping_formats BinaryFormat.json contents (5 ∷ 0 ∷ []) (omega arith) refl

feed_all-drain_example :
    feed_all ping_formats two_pieces (reader ping_formats BinaryFormat.json [])
    ≡ drain ping_formats (reader ping_formats BinaryFormat.json ([] ++ flatten two_pieces))
unfolding next_frame
feed_all-drain_example = feed_all-drain ping_formats BinaryFormat.json two_pieces [] refl

drain_ends_example :
    (let start =
        reader ping_formats BinaryFormat.json (flatten (map frame contents) ++ 5 ∷ 0 ∷ []) in
      let (ms, d') = drain ping_formats start in
      (drain_fuel ping_formats 99 start ≡ (ms, d'))
      × (try_read_message ping_formats d' ≡ (ok none, d'))
      × (length ms * 4 + length d'.buffer ≤ length start.buffer))
unfolding frame flatten
drain_ends_example =
    drain_ends ping_formats 99
      (reader ping_formats BinaryFormat.json (flatten (map frame contents) ++ 5 ∷ 0 ∷ []))
      (omega arith)
