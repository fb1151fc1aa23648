-- ===== src/Samples/OneCodec.antt =====
-- One codec in the place of all three, and that it takes back what it encodes if its
-- decoder does.
use tx2_link.Common.{String, ◌⊎◌, inl, inr, ◌≡◌, ap, arith}
use tx2_link.Error.{LinkError, ok}
use tx2_link.Protocol.{Message}
use tx2_link.Serialization.{
  Bytes, Codec, Formats, BinaryFormat, try_with, serialize, deserialize, serialize_message,
  deserialize_message, TakesBack, BinarySerializer,
}

abbrev pub formats_of : Codec Message → Formats Message
formats_of c = record { serde_json = c; rmp_serde = c; bincode = c }

try_with-inr :
    (wrap : String → LinkError) (r : String ⊎ Bytes) (bs : Bytes)
    → try_with wrap r ≡ ok bs
    → r ≡ inr bs
try_with-inr wrap (inl e) bs h = absurd (ground arith)
try_with-inr wrap (inr b) bs h = ap inr cc

module _ (c : Codec Message)
    (takes_back : (m : Message) (bs : Bytes) → c.to_vec m ≡ inr bs → c.from_slice bs ≡ inr m) where
  decode_back :
      (wrap wrap' : String → LinkError) (m : Message) (bs : Bytes)
      → try_with wrap (c.to_vec m) ≡ ok bs
      → try_with wrap' (c.from_slice bs) ≡ ok m
  decode_back wrap wrap' m bs h =
      ap (try_with wrap') (takes_back m bs (try_with-inr wrap (c.to_vec m) bs h))

  by_format :
      (format : BinaryFormat) (m : Message) (bs : Bytes)
      → serialize (formats_of c) format m ≡ ok bs
      → deserialize (formats_of c) format bs ≡ ok m
  unfolding serialize deserialize
  by_format BinaryFormat.json m bs h = decode_back LinkError.json LinkError.json m bs h
  by_format BinaryFormat.message_pack m bs h =
      decode_back LinkError.msg_pack_encode LinkError.msg_pack_decode m bs h
  by_format BinaryFormat.bincode m bs h = decode_back LinkError.bincode LinkError.bincode m bs h

  pub formats_of-TakesBack : (s : BinarySerializer) (m : Message) → TakesBack (formats_of c) s m
  unfolding serialize_message deserialize_message
  formats_of-TakesBack s m bs h = by_format s.format m bs h
