-- ===== src/Transport/Stdio.antt =====
-- `StdioTransport`: frames on the standard output, read from the standard input.

pub mod RoundTrip
use tx2_link.Common.{
  ℕ, ◌-◌, Bool, true, false, String, Option, none, some, List, [], ◌∷◌, ◌++◌, ltb, if◌then◌else◌,
  length, take, drop, as_u32,
}
use tx2_link.Error.{LinkError, io, connection_closed, Result, ok, err}
use tx2_link.Protocol.{Message}
use tx2_link.Serialization.{
  Bytes, BinaryFormat, BinarySerializer, Formats, serialize_message, deserialize_message,
}
use tx2_link.Serialization.Stream.{to_le_bytes, from_le_bytes, decoded}
use tx2_link.Transport.{Transport}

-- The process's streams. After the bytes of the input it ends, or fails with `stdin_fault`. The
-- output takes any number of bytes, or `room` of them and then fails.
pub record Streams : Type 0 where
  pub stdin : Bytes
  pub stdin_fault : Option String
  pub stdout : Bytes
  pub room : Option ℕ

pub record StdioTransport : Type 0 where
  pub serializer : BinarySerializer
  pub connected : Bool

abbrev pub new : BinaryFormat → StdioTransport
new format = record { serializer = record { format = format }; connected = true }

-- `write_all` of the standard library: what there is room for is written before the error.
unfoldable pub write_bytes : Bytes → Streams → Result (Unit {0}) × Streams
write_bytes bs s = elim s.room [
  | none ↦ (ok tt, record s { stdout = s.stdout ++ bs })
  | some n ↦
      if ltb n (length bs)
      then (err (io "Broken pipe"), record s { stdout = s.stdout ++ take n bs; room = some 0 })
      else (ok tt, record s { stdout = s.stdout ++ bs; room = some (n - length bs) })
]

-- `read_exact` of the standard library; where there is too little, it is consumed.
pub data Input : Type 0 where
  filled : Bytes → Input
  unexpected_eof : Input
  failed : String → Input

ended : Option String → Input
ended none = unexpected_eof
ended (some e) = failed e

unfoldable pub read_exact : ℕ → Streams → Input × Streams
unfolding ended
read_exact n s =
    if ltb (length s.stdin) n
    then (ended s.stdin_fault, record s { stdin = [] })
    else (filled (take n s.stdin), record s { stdin = drop n s.stdin })

-- Two steps, the second only if the first succeeds.
abbrev then_write : Result (Unit {0}) × Streams → Bytes → Result (Unit {0}) × Streams
then_write (ok u, s) bs = write_bytes bs s
then_write (err e, s) bs = (err e, s)

module _ (f : Formats Message) where
  -- Flushing the standard output shows no more of the bytes than are written here.
  unfoldable pub send :
      Message → StdioTransport × Streams → Result (Unit {0}) × (StdioTransport × Streams)
  unfolding serialize_message to_le_bytes write_bytes
  send message (t, s) = elim t.connected [
    | false ↦ (err connection_closed, (t, s))
    | true ↦ elim (serialize_message f t.serializer message) [
      | err e ↦ (err e, (t, s))
      | ok bs ↦
          let (r, s') = then_write (write_bytes (to_le_bytes (as_u32 (length bs))) s) bs in
          (r, (t, s'))
    ]
  ]

  decode_body : StdioTransport → Input → Result (Option Message)
  unfolding deserialize_message
  decode_body t (filled bs) = decoded (deserialize_message f t.serializer bs)
  decode_body t unexpected_eof = err (io "failed to fill whole buffer")
  decode_body t (failed e) = err (io e)

  receive_body :
      StdioTransport → Input → Streams → Result (Option Message) × (StdioTransport × Streams)
  unfolding read_exact from_le_bytes decode_body
  receive_body t unexpected_eof s = (ok none, (t, s))
  receive_body t (failed e) s = (err (io e), (t, s))
  receive_body t (filled len_bytes) s =
      let (body, s') = read_exact (from_le_bytes len_bytes) s in (decode_body t body, (t, s'))

  unfoldable pub receive :
      StdioTransport × Streams → Result (Option Message) × (StdioTransport × Streams)
  unfolding read_exact receive_body
  receive (t, s) = elim t.connected [
    | false ↦ (err connection_closed, (t, s))
    | true ↦ let (header, s') = read_exact 4 s in receive_body t header s'
  ]

  unfoldable pub close : StdioTransport × Streams → Result (Unit {0}) × (StdioTransport × Streams)
  close (t, s) = (ok tt, (record t { connected = false }, s))

  abbrev pub is_connected : StdioTransport × Streams → Bool
  is_connected (t, s) = t.connected

  instance abbrev pub stdio_transport : Transport (StdioTransport × Streams)
  stdio_transport = record {
    send = send;
    receive = receive;
    close = close;
    is_connected = is_connected;
  }
