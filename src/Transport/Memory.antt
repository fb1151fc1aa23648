-- ===== src/Transport/Memory.antt =====
-- `MemoryTransport`: two queues of encoded messages.

pub mod Delivery
pub mod Log
use tx2_link.Common.{Bool, true, false, Option, none, some, List, [], ◌∷◌, ◌++◌}
use tx2_link.Error.{LinkError, connection_closed, Result, ok, err}
use tx2_link.Protocol.{Message}
use tx2_link.Serialization.{
  Bytes, BinaryFormat, BinarySerializer, Formats, serialize_message, deserialize_message,
}
use tx2_link.Serialization.Stream.{decoded}
use tx2_link.Transport.{Transport}

pub record MemoryTransport : Type 0 where
  pub serializer : BinarySerializer
  pub send_buffer : List Bytes
  pub receive_buffer : List Bytes
  pub connected : Bool

abbrev pub new : BinaryFormat → MemoryTransport
new format = record {
  serializer = record { format = format };
  send_buffer = [];
  receive_buffer = [];
  connected = true;
}

-- The two are not connected.
abbrev pub create_pair : BinaryFormat → MemoryTransport × MemoryTransport
create_pair format = (new format, new format)

unfoldable pub connect_to : MemoryTransport → MemoryTransport → MemoryTransport × MemoryTransport
connect_to t other = (
  record t { send_buffer = other.receive_buffer; receive_buffer = other.send_buffer },
  record other { receive_buffer = t.send_buffer; send_buffer = t.receive_buffer },
)

pub get_send_buffer : MemoryTransport → List Bytes
get_send_buffer t = t.send_buffer

pub get_receive_buffer : MemoryTransport → List Bytes
get_receive_buffer t = t.receive_buffer

module _ (f : Formats Message) where
  -- What is pushed if the message could be encoded.
  unfoldable pub pushed : Result Bytes → MemoryTransport → Result (Unit {0}) × MemoryTransport
  pushed (ok bs) t = (ok tt, record t { send_buffer = t.send_buffer ++ bs ∷ [] })
  pushed (err e) t = (err e, t)

  unfoldable pub send : Message → MemoryTransport → Result (Unit {0}) × MemoryTransport
  unfolding serialize_message pushed
  send message t = elim t.connected [
    | false ↦ (err connection_closed, t)
    | true ↦ pushed (serialize_message f t.serializer message) t
  ]

  -- The first encoded message is taken, also if it does not decode.
  unfoldable pub shifted : List Bytes → MemoryTransport → Result (Option Message) × MemoryTransport
  unfolding deserialize_message
  shifted [] t = (ok none, t)
  shifted (bs ∷ rest) t =
      (decoded (deserialize_message f t.serializer bs), record t { receive_buffer = rest })

  unfoldable pub receive : MemoryTransport → Result (Option Message) × MemoryTransport
  unfolding shifted
  receive t = elim t.connected [
    | false ↦ (err connection_closed, t)
    | true ↦ shifted t.receive_buffer t
  ]

  unfoldable pub close : MemoryTransport → Result (Unit {0}) × MemoryTransport
  close t = (ok tt, record t { connected = false; send_buffer = []; receive_buffer = [] })

  abbrev pub is_connected : MemoryTransport → Bool
  is_connected t = t.connected

  instance abbrev pub memory_transport : Transport MemoryTransport
  memory_transport = record {
    send = send;
    receive = receive;
    close = close;
    is_connected = is_connected;
  }
