-- ===== src/Transport/Stdio/RoundTrip.antt =====
-- The standard streams carry the frames of `StreamingSerializer`, and give the messages back.
use tx2_link.Common.{
  ◌≡◌, refl, none, some, List, [], ◌∷◌, ◌++◌, map, append_assoc, append-nil, length, length-append,
  arith, All, IsU32, as_u32, le→ltb, take-append, drop-append,
}
use tx2_link.Error.{ok}
use tx2_link.Protocol.{Message}
use tx2_link.Serialization.{Bytes, BinaryFormat, Formats, serialize_message, deserialize_message}
use tx2_link.Serialization.Stream.{
  to_le_bytes, from_le_bytes, frame, new_serializer, write_message, flush,
}
use tx2_link.Serialization.Stream.RoundTrip.{write_all, write_message_ok, Survives}
use tx2_link.Transport.{send_all, receive_times}
use tx2_link.Transport.Stdio.{
  Streams, new, write_bytes, read_exact, filled, send, receive, stdio_transport,
}

module _ (f : Formats Message) (format : BinaryFormat) where
  -- An output with room, and an input.
  abbrev pub streams : Bytes → Bytes → Streams
  streams input output = record { stdin = input; stdin_fault = none; stdout = output; room = none }

  send_frame :
      (m : Message) (bs input output : Bytes)
      → serialize_message f (record { format = format }) m ≡ ok bs
      → send f m (new format, streams input output)
        ≡ (ok tt, (new format, streams input (output ++ frame bs)))
  unfolding send write_bytes frame
  send_frame m bs input output e = rw (e, append_assoc output (to_le_bytes (as_u32 (length bs))) bs)

  read_exact_front :
      (a b output : Bytes)
      → read_exact (length a) (streams (a ++ b) output) ≡ (filled a, streams b output)
  unfolding read_exact
  read_exact_front a b output =
      rw
        (
          le→ltb (length (a ++ b)) (length a) (omega (arith, length-append a b)),
          take-append a b,
          drop-append a b,
        )
        refl

  read_header :
      (bs rest output : Bytes)
      → read_exact 4 (streams (frame bs ++ rest) output)
        ≡ (filled (to_le_bytes (as_u32 (length bs))), streams (bs ++ rest) output)
  unfolding frame to_le_bytes
  read_header bs rest output =
      read_exact_front (to_le_bytes (as_u32 (length bs))) (bs ++ rest) output

  header_length :
      (bs : Bytes)
      → IsU32 (length bs)
      → from_le_bytes (to_le_bytes (as_u32 (length bs))) ≡ length bs
  unfolding from_le_bytes to_le_bytes
  header_length bs u = omega arith

  receive_frame :
      (m : Message) (bs rest output : Bytes)
      → IsU32 (length bs)
      → deserialize_message f (record { format = format }) bs ≡ ok m
      → receive f (new format, streams (frame bs ++ rest) output)
        ≡ (ok (some m), (new format, streams rest output))
  unfolding receive
  receive_frame m bs rest output u e =
      rw (read_header bs rest output, header_length bs u, read_exact_front bs rest output, e) refl

  -- The frames of messages, one after the other.
  frames_of : (ms : List Message) → All (Survives f format) ms → Bytes
  frames_of [] h = []
  frames_of (m ∷ ms) h = frame h.0.0 ++ frames_of ms h.1

  send_all-frames :
      (ms : List Message) (h : All (Survives f format) ms) (input output : Bytes)
      → send_all (stdio_transport f) ms (new format, streams input output)
        ≡ (map (λ m. ok tt) ms, (new format, streams input (output ++ frames_of ms h)))
  unfolding send_all frames_of
  send_all-frames [] h input output = rw append-nil refl
  send_all-frames (m ∷ ms) h input output =
      rw
        (
          send_frame m h.0.0 input output h.0.1,
          send_all-frames ms h.1 input (output ++ frame h.0.0),
          append_assoc output (frame h.0.0) (frames_of ms h.1),
        )
        refl

  receive_times-frames :
      (ms : List Message) (h : All (Survives f format) ms) (rest output : Bytes)
      → receive_times
          (stdio_transport f)
          (length ms)
          (new format, streams (frames_of ms h ++ rest) output)
        ≡ (map (λ m. ok (some m)) ms, (new format, streams rest output))
  unfolding receive_times frames_of
  receive_times-frames [] h rest output = refl
  receive_times-frames (m ∷ ms) h rest output =
      rw
        (
          append_assoc (frame h.0.0) (frames_of ms h.1) rest,
          receive_frame m h.0.0 (frames_of ms h.1 ++ rest) output h.0.2 h.0.3,
          receive_times-frames ms h.1 rest output,
        )
        refl

  write_all-frames :
      (ms : List Message) (h : All (Survives f format) ms) (output : Bytes)
      → write_all f ms (record { format = format; buffer = output })
        ≡ record { format = format; buffer = output ++ frames_of ms h }
  unfolding write_all write_message frames_of
  write_all-frames [] h output = rw append-nil refl
  write_all-frames (m ∷ ms) h output =
      rw
        (
          write_message_ok f m (record { format = format; buffer = output }) h.0.0 h.0.1,
          write_all-frames ms h.1 (output ++ frame h.0.0),
          append_assoc output (frame h.0.0) (frames_of ms h.1),
        )
        refl

  -- Sending over the standard output, which takes all bytes, writes the bytes that the streaming
  -- serializer gives for the same messages.
  pub stdio_send_all-write_all :
      (ms : List Message)
      → All (Survives f format) ms
      → (send_all (stdio_transport f) ms (new format, streams [] [])).1.1.stdout
        ≡ (flush (write_all f ms (new_serializer format))).0
  unfolding flush
  stdio_send_all-write_all ms h = rw (send_all-frames ms h [] [], write_all-frames ms h []) refl

  -- A process that reads what another has sent over its standard output, which takes all bytes,
  -- receives exactly those messages, in order, and leaves nothing unread, if the format carries the
  -- messages.
  pub stdio_delivers :
      (ms : List Message)
      → All (Survives f format) ms
      → (let sent = (send_all (stdio_transport f) ms (new format, streams [] [])).1.1.stdout in
          receive_times (stdio_transport f) (length ms) (new format, streams sent []))
        ≡ (map (λ m. ok (some m)) ms, (new format, streams [] []))
  stdio_delivers ms h =
      rw (send_all-frames ms h [] []) (rw append-nil at (receive_times-frames ms h [] []))
