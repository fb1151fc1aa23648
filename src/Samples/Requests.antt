-- ===== src/Samples/Requests.antt =====
-- Formats that carry requests for a snapshot, and snapshots of an empty world.
use tx2_link.Common.{ℕ, String, ◌⊎◌, inl, inr, List, [], ◌∷◌, ◌≡◌, refl, sym, arith}
use tx2_link.Protocol.{
  SerializedEntity, SnapshotMetadata, CompressionType, Message, MessageType, MessagePayload,
}
use tx2_link.Serialization.{BinarySerializer, TakesBack, Codec, Formats, Bytes}
use tx2_link.Samples.OneCodec.{formats_of, formats_of-TakesBack}

unfoldable encode_snapshot :
    List SerializedEntity → CompressionType → SnapshotMetadata → ℕ → ℕ → ℕ → ℕ → String ⊎ Bytes
encode_snapshot [] CompressionType.none m t i s v =
    inr (t ∷ i ∷ s ∷ v ∷ m.world_time ∷ m.entity_count ∷ m.component_count ∷ [])
encode_snapshot _ _ m t i s v = inl "not empty"

unfoldable encode : MessageType → MessagePayload → ℕ → ℕ → ℕ → ℕ → String ⊎ Bytes
unfolding encode_snapshot
encode MessageType.request_snapshot MessagePayload.request_snapshot t i s v =
    inr (t ∷ i ∷ s ∷ v ∷ [])
encode MessageType.snapshot (MessagePayload.snapshot p) t i s v =
    encode_snapshot p.entities p.metadata.compression p.metadata t i s v
encode _ _ t i s v = inl "not carried"

unfoldable decode : Bytes → String ⊎ Message
decode (t ∷ i ∷ s ∷ v ∷ []) = inr (record {
  header = record {
    msg_type = MessageType.request_snapshot;
    timestamp = t;
    id = i;
    sequence = s;
    schema_version = v;
  };
  payload = MessagePayload.request_snapshot;
})
decode (t ∷ i ∷ s ∷ v ∷ w ∷ e ∷ c ∷ []) = inr (record {
  header = record {
    msg_type = MessageType.snapshot;
    timestamp = t;
    id = i;
    sequence = s;
    schema_version = v;
  };
  payload = MessagePayload.snapshot (record {
    entities = [];
    metadata = record {
      world_time = w;
      entity_count = e;
      component_count = c;
      compression = CompressionType.none;
    };
  });
})
decode _ = inl "not carried"

unfoldable pub request_codec : Codec Message
unfolding encode decode
request_codec = record {
  to_vec = λ m.
      encode m.header.msg_type m.payload m.header.timestamp m.header.id m.header.sequence
        m.header.schema_version;
  from_slice = decode;
}

abbrev pub request_formats : Formats Message
request_formats = formats_of request_codec

decode-encode_snapshot :
    (es : List SerializedEntity) (k : CompressionType) (m : SnapshotMetadata) (t i s v : ℕ)
    (bs : Bytes)
    → encode_snapshot es k m t i s v ≡ inr bs
    → m.compression ≡ k
    → decode bs
      ≡ inr (record {
        header = record {
          msg_type = MessageType.snapshot;
          timestamp = t;
          id = i;
          sequence = s;
          schema_version = v;
        };
        payload = MessagePayload.snapshot (record { entities = es; metadata = m });
      })
unfolding encode_snapshot decode
decode-encode_snapshot [] CompressionType.none m t i s v bs h p =
    let e : t ∷ i ∷ s ∷ v ∷ m.world_time ∷ m.entity_count ∷ m.component_count ∷ [] ≡ bs = cc in
    rw (sym e) (ground (arith, p))
decode-encode_snapshot _ _ m t i s v bs h p = absurd (ground arith)

decode-encode :
    (k : MessageType) (p : MessagePayload) (t i s v : ℕ) (bs : Bytes)
    → encode k p t i s v ≡ inr bs
    → decode bs
      ≡ inr (record {
        header = record { msg_type = k; timestamp = t; id = i; sequence = s; schema_version = v };
        payload = p;
      })
unfolding encode decode
decode-encode MessageType.request_snapshot MessagePayload.request_snapshot t i s v bs h =
    let e : t ∷ i ∷ s ∷ v ∷ [] ≡ bs = cc in rw (sym e) refl
decode-encode MessageType.snapshot (MessagePayload.snapshot p) t i s v bs h =
    decode-encode_snapshot p.entities p.metadata.compression p.metadata t i s v bs h refl
decode-encode _ _ t i s v bs h = absurd (ground arith)

pub request_formats-TakesBack : (s : BinarySerializer) (m : Message) → TakesBack request_formats s m
unfolding request_codec
request_formats-TakesBack = formats_of-TakesBack request_codec (λ m bs h.
    decode-encode m.header.msg_type m.payload m.header.timestamp m.header.id m.header.sequence
      m.header.schema_version bs h)
