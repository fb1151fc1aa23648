-- ===== src/Transport/Memory/Log.antt =====
-- What a memory transport has in its send buffer: the encodings of the messages that it has sent.
use tx2_link.Common.{
  ◌≡◌, refl, sym, ap, true, List, [], ◌∷◌, ◌++◌, arith, All, Bool-cases, inl, inr,
}
use tx2_link.Error.{Result, ok, err}
use tx2_link.Protocol.{Message}
use tx2_link.Serialization.{
  Bytes, BinarySerializer, Formats, TakesBack, serialize_message, deserialize_message,
}
use tx2_link.Transport.Recording.{recorded_after}
use tx2_link.Transport.Memory.{MemoryTransport, pushed, send}

module _ (f : Formats Message) where
  abbrev pub add_decoded : Result Message → List Message → List Message
  add_decoded (ok m) ms = m ∷ ms
  add_decoded (err e) ms = ms

  unfoldable pub decode_all : BinarySerializer → List Bytes → List Message
  decode_all s [] = []
  decode_all s (bs ∷ bss) = add_decoded (deserialize_message f s bs) (decode_all s bss)

  -- The one list has the encodings of the other.
  abbrev pub IsEncoded : BinarySerializer → List Bytes → List Message → Type 0
  IsEncoded s [] [] = Unit
  IsEncoded s (bs ∷ bss) (m ∷ ms) = (serialize_message f s m ≡ ok bs) × IsEncoded s bss ms
  IsEncoded s _ _ = ⊥

  IsEncoded-append :
      (s : BinarySerializer) (bss : List Bytes) (ms : List Message) (bs : Bytes) (m : Message)
      → serialize_message f s m ≡ ok bs
      → IsEncoded s bss ms
      → IsEncoded s (bss ++ bs ∷ []) (ms ++ m ∷ [])
  IsEncoded-append s [] [] bs m e h = (e, tt)
  IsEncoded-append s (b ∷ bss) (n ∷ ms) bs m e h = (h.0, IsEncoded-append s bss ms bs m e h.1)
  IsEncoded-append s [] (n ∷ ms) bs m e h = absurd h
  IsEncoded-append s (b ∷ bss) [] bs m e h = absurd h

  -- What the format takes back, it decodes.
  pub decode_all-IsEncoded :
      (s : BinarySerializer) (bss : List Bytes) (ms : List Message)
      → IsEncoded s bss ms
      → All (TakesBack f s) ms
      → decode_all s bss ≡ ms
  unfolding decode_all
  decode_all-IsEncoded s [] [] h a = refl
  decode_all-IsEncoded s (bs ∷ bss) (m ∷ ms) h a =
      rw (a.0 bs h.0, decode_all-IsEncoded s bss ms h.1 a.1) refl
  decode_all-IsEncoded s [] (m ∷ ms) h a = absurd h
  decode_all-IsEncoded s (bs ∷ bss) [] h a = absurd h

  -- The serializer, and that the buffer encodes these messages.
  abbrev pub IsBuffered : BinarySerializer → MemoryTransport × List Message → Type 0
  IsBuffered s (t, ms) = (t.serializer ≡ s) × IsEncoded s t.send_buffer ms

  pub send_open :
      (m : Message) (t : MemoryTransport)
      → t.connected ≡ true
      → send f m t ≡ pushed f (serialize_message f t.serializer m) t
  unfolding send
  send_open m t on = ground (arith, on)

  pushed-IsBuffered :
      (s : BinarySerializer) (m : Message) (t : MemoryTransport) (ms : List Message)
      (r : Result Bytes)
      → serialize_message f s m ≡ r
      → IsBuffered s (t, ms)
      → IsBuffered s (recorded_after m (pushed f r t) ms)
  unfolding pushed
  pushed-IsBuffered s m t ms (ok bs) e (same, h) =
      (same, IsEncoded-append s t.send_buffer ms bs m e h)
  pushed-IsBuffered s m t ms (err x) e h = h

  -- Sending keeps it, whether or not it succeeds.
  pub send-IsBuffered :
      (s : BinarySerializer) (m : Message) (t : MemoryTransport) (ms : List Message)
      → IsBuffered s (t, ms)
      → IsBuffered s (recorded_after m (send f m t) ms)
  unfolding send
  send-IsBuffered s m t ms (same, h) = elim (Bool-cases t.connected) [
    | inl on ↦ rw (send_open m t on) (
        pushed-IsBuffered s m t ms (serialize_message f t.serializer m)
          (ap (λ z. serialize_message f z m) (sym same)) (same, h))
    | inr off ↦ rw (send, off) (same, h)
  ]
