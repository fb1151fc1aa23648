-- ===== src/Suite/Wires.antt =====
-- The tests of serialization.rs and transport.rs. What the clock reads and where the message counter
-- stands are arguments.
use tx2_link.Common.{
  ℕ, zero, ◌≡◌, refl, Bool, true, not, ◌&&◌, ◌==◌, String, ◌⊎◌, inl, inr, [], ◌∷◌, length,
}
use tx2_link.Common.Maps.{◌=?◌, string_key}
use tx2_link.Error.{is_ok, ok}
use tx2_link.Protocol.{Message, MessageType, MessagePayload, ComponentData, eq_f64}
use tx2_link.Protocol.Messages as Messages
use tx2_link.Serialization.{
  TakesBack, Codec, Formats, Bytes, WorldSnapshot, BinaryFormat, BinarySerializer, json_serializer,
  messagepack_serializer, bincode_serializer, serialize_message, deserialize_message,
  serialize_snapshot, deserialize_snapshot,
}
use tx2_link.Serialization.Stream.{
  new_serializer, new_deserializer, write_message, flush, feed, try_read_message,
}
use tx2_link.Transport.Memory.{MemoryTransport, connect_to}
use tx2_link.Transport.Memory as Memory
use tx2_link.Samples.{entity}
use tx2_link.Samples.OneCodec.{formats_of}
use tx2_link.Suite.{unwrap, unwrap_some}

-- The discriminants of `MessageType`, which its derived `==` compares.
abbrev type_discriminant : MessageType → ℕ
type_discriminant MessageType.snapshot = 0
type_discriminant MessageType.delta = 1
type_discriminant MessageType.request_snapshot = 2
type_discriminant MessageType.ack = 3
type_discriminant MessageType.ping = 4
type_discriminant MessageType.pong = 5
type_discriminant MessageType.schema_sync = 6
type_discriminant MessageType.error = 7

-- `assert_eq!(a.header.msg_type, b.header.msg_type)`
abbrev same_type : Message → Message → Bool
same_type a b = type_discriminant a.header.msg_type == type_discriminant b.header.msg_type

abbrev nothing_at_100 : WorldSnapshot
nothing_at_100 = record { entities = []; timestamp = 0x4059_0000_0000_0000; version = "1.0.0" }

-- A position, and a snapshot of it at 123.456; the text is the printed JSON value.
abbrev position_text : String → WorldSnapshot
position_text text = record {
  entities = entity 1 (record { id = "Position"; payload = ComponentData.json text } ∷ []) ∷ [];
  timestamp = 0x405e_dd2f_1a9f_be77;
  version = "1.0.0";
}

module _ (f : Formats Message) (millis counter : ℕ) where
  -- A ping is encoded and decoded.
  unfoldable ping_returns : BinarySerializer → Bool
  unfolding serialize_message deserialize_message Messages.ping
  ping_returns serializer =
      let message = (Messages.ping 1 millis counter).0 in
      unwrap (serialize_message f serializer message) λ serialized.
        unwrap (deserialize_message f serializer serialized)
          λ deserialized. same_type message deserialized

  unfoldable test_json_serialization : Bool
  unfolding ping_returns
  test_json_serialization = ping_returns json_serializer

  unfoldable test_messagepack_serialization : Bool
  unfolding ping_returns
  test_messagepack_serialization = ping_returns messagepack_serializer

  unfoldable test_streaming_serialization : Bool
  unfolding write_message flush feed try_read_message Messages.ping Messages.pong
  test_streaming_serialization =
      let (msg1, counter1) = Messages.ping 1 millis counter in
      let (msg2, counter2) = Messages.pong 1 millis counter1 in
      let (r1, s1) = write_message f msg1 (new_serializer BinaryFormat.message_pack) in
      let (r2, s2) = write_message f msg2 s1 in
      let d = feed (flush s2).0 (new_deserializer BinaryFormat.message_pack) in
      let (r3, d1) = try_read_message f d in
      let (r4, d2) = try_read_message f d1 in
      is_ok r1
      && is_ok r2
      && (unwrap r3 λ o1. unwrap_some o1 λ decoded1.
          unwrap r4
            λ o2. unwrap_some o2 λ decoded2. same_type msg1 decoded1 && same_type msg2 decoded2)

  unfoldable test_memory_transport : Bool
  unfolding Memory.send Memory.receive connect_to Messages.ping
  test_memory_transport =
      let message = (Messages.ping 1 millis counter).0 in
      let (sent, transport1) = Memory.send f message (Memory.new BinaryFormat.message_pack) in
      let (t1, transport2) = connect_to transport1 (Memory.new BinaryFormat.message_pack) in
      is_ok sent
      && (unwrap (Memory.receive f transport2).0
          λ o. unwrap_some o λ received. same_type message received)

  unfoldable test_transport_close : Bool
  unfolding Memory.send Memory.close Messages.ping
  test_transport_close =
      let transport = Memory.new BinaryFormat.json in
      let (closed, transport1) = Memory.close f transport in
      let message = (Messages.ping 1 millis counter).0 in
      Memory.is_connected f transport
      && is_ok closed
      && not (Memory.is_connected f transport1)
      && not (is_ok (Memory.send f message transport1).0)

  -- The tests of one message pass with formats that carry it.
  ping_returns-true :
      (serializer : BinarySerializer) (bs : Bytes)
      → TakesBack f serializer (Messages.ping 1 millis counter).0
      → serialize_message f serializer (Messages.ping 1 millis counter).0 ≡ ok bs
      → ping_returns serializer ≡ true
  unfolding ping_returns
  ping_returns-true serializer bs back e = rw (e, back bs e) refl

  test_json_serialization_passes :
      (bs : Bytes)
      → TakesBack f json_serializer (Messages.ping 1 millis counter).0
      → serialize_message f json_serializer (Messages.ping 1 millis counter).0 ≡ ok bs
      → test_json_serialization ≡ true
  unfolding test_json_serialization
  test_json_serialization_passes = ping_returns-true json_serializer

  test_messagepack_serialization_passes :
      (bs : Bytes)
      → TakesBack f messagepack_serializer (Messages.ping 1 millis counter).0
      → serialize_message f messagepack_serializer (Messages.ping 1 millis counter).0 ≡ ok bs
      → test_messagepack_serialization ≡ true
  unfolding test_messagepack_serialization
  test_messagepack_serialization_passes = ping_returns-true messagepack_serializer

  test_memory_transport_passes :
      (bs : Bytes)
      → TakesBack f messagepack_serializer (Messages.ping 1 millis counter).0
      → serialize_message f messagepack_serializer (Messages.ping 1 millis counter).0 ≡ ok bs
      → test_memory_transport ≡ true
  unfolding test_memory_transport
  test_memory_transport_passes bs back e = rw (e, back bs e) refl

  test_transport_close_passes : test_transport_close ≡ true
  unfolding test_transport_close
  test_transport_close_passes = refl

module _ (f : Formats WorldSnapshot) where
  unfoldable test_bincode_serialization : Bool
  unfolding serialize_snapshot deserialize_snapshot eq_f64
  test_bincode_serialization =
      unwrap (serialize_snapshot f bincode_serializer nothing_at_100) λ serialized.
        unwrap (deserialize_snapshot f bincode_serializer serialized)
          λ deserialized. eq_f64 nothing_at_100.timestamp deserialized.timestamp

  unfoldable test_snapshot_serialization : String → Bool
  unfolding serialize_snapshot deserialize_snapshot eq_f64
  test_snapshot_serialization text =
      let snapshot = position_text text in
      unwrap (serialize_snapshot f messagepack_serializer snapshot) λ serialized.
        unwrap (deserialize_snapshot f messagepack_serializer serialized) λ deserialized.
          length snapshot.entities == length deserialized.entities
          && eq_f64 snapshot.timestamp deserialized.timestamp
          && (snapshot.version =? deserialized.version)

  test_bincode_serialization_passes :
      (bs : Bytes)
      → serialize_snapshot f bincode_serializer nothing_at_100 ≡ ok bs
      → deserialize_snapshot f bincode_serializer bs ≡ ok nothing_at_100
      → test_bincode_serialization ≡ true
  unfolding test_bincode_serialization
  test_bincode_serialization_passes bs e back = rw (e, back) refl

  test_snapshot_serialization_passes :
      (text : String) (bs : Bytes)
      → serialize_snapshot f messagepack_serializer (position_text text) ≡ ok bs
      → deserialize_snapshot f messagepack_serializer bs ≡ ok (position_text text)
      → test_snapshot_serialization text ≡ true
  unfolding test_snapshot_serialization
  test_snapshot_serialization_passes text bs e back = rw (e, back) refl

-- Pings and pongs in a byte, the rest of the header left out.
abbrev encode_kind : MessageType → String ⊎ Bytes
encode_kind MessageType.ping = inr (0 ∷ [])
encode_kind MessageType.pong = inr (1 ∷ [])
encode_kind _ = inl "not carried"

abbrev headed : MessageType → MessagePayload → Message
headed kind payload = record {
  header = record { msg_type = kind; timestamp = 0; id = 0; sequence = 0; schema_version = 0 };
  payload = payload;
}

abbrev decode_kind : Bytes → String ⊎ Message
decode_kind (zero ∷ []) = inr (headed MessageType.ping MessagePayload.ping)
decode_kind (_ ∷ []) = inr (headed MessageType.pong MessagePayload.pong)
decode_kind _ = inl "not carried"

abbrev kinds : Codec Message
kinds = record { to_vec = λ m. encode_kind m.header.msg_type; from_slice = decode_kind }

test_streaming_serialization_passes : test_streaming_serialization (formats_of kinds) 5 9 ≡ true
unfolding test_streaming_serialization
test_streaming_serialization_passes = refl
