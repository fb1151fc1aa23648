-- ===== src/Serialization/Stream/RoundTrip.antt =====
-- What one end writes, the other end reads, however the bytes are cut on the way.
use tx2_link.Common.{
  ◌≡◌, refl, none, List, [], ◌∷◌, ◌++◌, map, append_assoc, append-nil, arith, length, All, IsU32,
}
use mathlib.Core.List.{flatten}
use tx2_link.Error.{ok}
use tx2_link.Protocol.{Message}
use tx2_link.Serialization.{Bytes, Formats, BinaryFormat, serialize_message, deserialize_message}
use tx2_link.Serialization.Stream.{
  StreamingSerializer, new_serializer, new_deserializer, frame, write_message, flush,
}
use tx2_link.Serialization.Stream.Frames.{next_frame, next_frame-frame}
use tx2_link.Serialization.Stream.Drain.{
  Splits, done, more, drain, drain-Splits, feed_all, feed_all-drain, reader, decode,
}

frames : List Bytes → Bytes
unfolding flatten
frames bss = flatten (map frame bss)

next_frame-nil : next_frame [] ≡ none
unfolding next_frame
next_frame-nil = refl

Splits-frames :
    (bss : List Bytes) (rest : Bytes)
    → All (λ bs. IsU32 (length bs)) bss
    → next_frame rest ≡ none
    → Splits (frames bss ++ rest) bss rest
unfolding frames
Splits-frames [] rest h n = done n
Splits-frames (bs ∷ bss) rest h n =
    let s : Splits (frames bss ++ rest) bss rest = Splits-frames bss rest h.1 n in
    rw (append_assoc (frame bs) (frames bss) rest) (more (next_frame-frame bs _ h.0) s)

module _ (f : Formats Message) where
  -- Frames that lie in the buffer in full are each consumed and decoded once, in order, also behind
  -- one that does not decode, whose error is returned in its place. What follows them stays.
  pub drain-frames :
      (format : BinaryFormat) (bss : List Bytes) (rest : Bytes)
      → All (λ bs. IsU32 (length bs)) bss
      → next_frame rest ≡ none
      → drain f (reader f format (flatten (map frame bss) ++ rest))
        ≡ (map (decode f format) bss, reader f format rest)
  unfolding frames
  drain-frames format bss rest h n = drain-Splits f format (Splits-frames bss rest h n)

  -- The caller that writes message after message.
  unfoldable pub write_all : List Message → StreamingSerializer → StreamingSerializer
  write_all [] s = s
  write_all (m ∷ ms) s = write_all ms (write_message f m s).1

  -- The format encodes `m` in less than 2 ^ 32 bytes, and decodes them to `m`.
  abbrev pub Survives : BinaryFormat → Message → Type 0
  Survives format m =
      (bs : Bytes) × (serialize_message f (record { format = format }) m ≡ ok bs)
      × IsU32 (length bs)
      × (deserialize_message f (record { format = format }) bs ≡ ok m)

  written : (format : BinaryFormat) (ms : List Message) → All (Survives format) ms → List Bytes
  written format [] h = []
  written format (m ∷ ms) h = h.0.0 ∷ written format ms h.1

  written-IsU32 :
      (format : BinaryFormat) (ms : List Message) (h : All (Survives format) ms)
      → All (λ bs. IsU32 (length bs)) (written format ms h)
  unfolding written
  written-IsU32 format [] h = tt
  written-IsU32 format (m ∷ ms) h = (h.0.2, written-IsU32 format ms h.1)

  decode-written :
      (format : BinaryFormat) (ms : List Message) (h : All (Survives format) ms)
      → map (decode f format) (written format ms h) ≡ map ok ms
  unfolding written
  decode-written format [] h = refl
  decode-written format (m ∷ ms) h = rw (h.0.3, decode-written format ms h.1)

  pub write_message_ok :
      (m : Message) (s : StreamingSerializer) (bs : Bytes)
      → serialize_message f (record { format = s.format }) m ≡ ok bs
      → write_message f m s ≡ (ok tt, record s { buffer = s.buffer ++ frame bs })
  unfolding write_message
  write_message_ok m s bs e = ground (arith, e)

  write_all-written :
      (ms : List Message) (s : StreamingSerializer) (h : All (Survives s.format) ms)
      → write_all ms s ≡ record s { buffer = s.buffer ++ frames (written s.format ms h) }
  unfolding write_all frames written flatten
  write_all-written [] s h = rw append-nil
  write_all-written (m ∷ ms) s h = rw (
    write_message_ok m s h.0.0 h.0.1,
    write_all-written ms (record s { buffer = s.buffer ++ frame h.0.0 }) h.1,
    append_assoc s.buffer (frame h.0.0) (frames (written s.format ms h.1)),
  )

  -- Messages that the format carries, written one after the other, flushed, cut into any pieces and
  -- fed piece by piece: the reader returns exactly those messages in order, and nothing is left.
  pub stream_round_trip :
      (format : BinaryFormat) (ms : List Message) (pieces : List Bytes)
      → All (Survives format) ms
      → flatten pieces ≡ (flush (write_all ms (new_serializer format))).0
      → feed_all f pieces (new_deserializer format) ≡ (map ok ms, new_deserializer format)
  unfolding flush
  stream_round_trip format ms pieces h e =
      let bss = written format ms h in
      let s : Splits (frames bss) bss [] =
        rw append-nil at (Splits-frames bss [] (written-IsU32 format ms h) next_frame-nil) in
      rw (
        feed_all-drain f format pieces [] next_frame-nil,
        e,
        write_all-written ms (new_serializer format) h,
        drain-Splits f format s,
        decode-written format ms h,
      )
