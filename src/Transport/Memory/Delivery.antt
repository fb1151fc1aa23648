-- ===== src/Transport/Memory/Delivery.antt =====
-- What one memory transport sends, the other receives once the two have been connected.
use tx2_link.Common.{
  ◌≡◌, refl, true, Option, none, some, List, [], ◌∷◌, ◌++◌, map, append_assoc, append-nil, length,
  All,
}
use tx2_link.Error.{Result, ok}
use tx2_link.Protocol.{Message}
use tx2_link.Serialization.{Bytes, BinaryFormat, Formats, serialize_message, deserialize_message}
use tx2_link.Transport.{send_all, receive_times}
use tx2_link.Transport.Memory.{MemoryTransport, new, connect_to, send, receive, memory_transport}

-- A swap of buffers, which a second call takes back.
pub connect_to_twice :
    (t other : MemoryTransport)
    → (let (t', other') = connect_to t other in connect_to t' other') ≡ (t, other)
unfolding connect_to
connect_to_twice t other = refl

module _ (f : Formats Message) (format : BinaryFormat) where
  -- The format encodes the message, and decodes it again.
  abbrev pub Carries : Message → Type 0
  Carries m =
      (bs : Bytes) × (serialize_message f (record { format = format }) m ≡ ok bs)
      × (deserialize_message f (record { format = format }) bs ≡ ok m)

  encoded : (ms : List Message) → All Carries ms → List Bytes
  encoded [] h = []
  encoded (m ∷ ms) h = h.0.0 ∷ encoded ms h.1

  abbrev sender : List Bytes → MemoryTransport
  sender bss = record {
    serializer = record { format = format };
    send_buffer = bss;
    receive_buffer = [];
    connected = true;
  }

  abbrev receiver : List Bytes → MemoryTransport
  receiver bss = record {
    serializer = record { format = format };
    send_buffer = [];
    receive_buffer = bss;
    connected = true;
  }

  send_all-encoded :
      (ms : List Message) (h : All Carries ms) (bss : List Bytes)
      → send_all (memory_transport f) ms (sender bss)
        ≡ (map (λ m. ok tt) ms, sender (bss ++ encoded ms h))
  unfolding send_all send encoded
  send_all-encoded [] h bss = rw append-nil
  send_all-encoded (m ∷ ms) h bss = rw (
    h.0.1,
    send_all-encoded ms h.1 (bss ++ h.0.0 ∷ []),
    append_assoc bss (h.0.0 ∷ []) (encoded ms h.1),
  )

  receive_times-encoded :
      (ms : List Message) (h : All Carries ms) (bss : List Bytes)
      → receive_times (memory_transport f) (length ms) (receiver (encoded ms h ++ bss))
        ≡ (map (λ m. ok (some m)) ms, receiver bss)
  unfolding receive_times receive encoded
  receive_times-encoded [] h bss = refl
  receive_times-encoded (m ∷ ms) h bss = rw (h.0.2, receive_times-encoded ms h.1 bss)

  -- One end sends, the ends are connected, the other end receives as often, and then once more.
  unfoldable pub exchange :
      List Message
      → List (Result (Unit {0})) × List (Result (Option Message)) × Result (Option Message)
  unfolding send_all receive_times connect_to receive
  exchange ms =
      let (sent, t) = send_all (memory_transport f) ms (new format) in
      let (t', other) = connect_to t (new format) in
      let (received, other') = receive_times (memory_transport f) (length ms) other in
      (sent, received, (receive f other').0)

  -- Messages that the format carries, sent by a new transport, which is then connected to another
  -- new one: each is sent, and the other receives exactly those, in order, and then has no more.
  pub memory_delivers :
      (ms : List Message)
      → All Carries ms
      → exchange ms ≡ (map (λ m. ok tt) ms, map (λ m. ok (some m)) ms, ok none)
  unfolding exchange connect_to receive
  memory_delivers ms h =
      let received : receive_times (memory_transport f) (length ms) (receiver (encoded ms h))
          ≡ (map (λ m. ok (some m)) ms, receiver []) =
        rw append-nil at (receive_times-encoded ms h []) in
      rw (exchange, send_all-encoded ms h [], connect_to, received) refl
