-- ===== src/Samples/Deltas.antt =====
-- Formats that carry the deltas which add and remove entities, and take back what they carry.
use tx2_link.Common.{
  ℕ, zero, suc, String, Option, none, some, ◌⊎◌, inl, inr, List, [], ◌∷◌, ◌≡◌, refl, ap, sym, arith,
  Option-cases,
}
use tx2_link.Protocol.{DeltaChange, DeltaPayload, Message, MessageType, MessagePayload}
use tx2_link.Serialization.{BinarySerializer, TakesBack, Codec, Formats, Bytes, WorldSnapshot}
use tx2_link.Samples.{entity}
use tx2_link.Samples.OneCodec.{formats_of, formats_of-TakesBack}

unfoldable put_changes : List DeltaChange → Option Bytes
put_changes [] = some []
put_changes (DeltaChange.entity_added e ∷ cs) = elim (put_changes cs) [
  | none ↦ none
  | some bs ↦ some (0 ∷ e ∷ bs)
]
put_changes (DeltaChange.entity_removed e ∷ cs) = elim (put_changes cs) [
  | none ↦ none
  | some bs ↦ some (1 ∷ e ∷ bs)
]
put_changes (c ∷ cs) = none

unfoldable take_changes : Bytes → List DeltaChange
take_changes (zero ∷ e ∷ bs) = DeltaChange.entity_added e ∷ take_changes bs
take_changes (suc n ∷ e ∷ bs) = DeltaChange.entity_removed e ∷ take_changes bs
take_changes bs = []

take-put_changes :
    (cs : List DeltaChange) (bs : Bytes) → put_changes cs ≡ some bs → take_changes bs ≡ cs
unfolding put_changes take_changes
take-put_changes [] bs h = let e : [] ≡ bs = cc in rw (sym e) refl
take-put_changes (DeltaChange.entity_added e ∷ cs) bs h = elim (Option-cases (put_changes cs)) [
  | inl nothing ↦ absurd (ground (arith, nothing))
  | inr (b, p) ↦
      let same : 0 ∷ e ∷ b ≡ bs = cc in
      rw (sym same) (ap (λ ds. DeltaChange.entity_added e ∷ ds) (take-put_changes cs b p))
]
take-put_changes (DeltaChange.entity_removed e ∷ cs) bs h = elim (Option-cases (put_changes cs)) [
  | inl nothing ↦ absurd (ground (arith, nothing))
  | inr (b, p) ↦
      let same : 1 ∷ e ∷ b ≡ bs = cc in
      rw (sym same) (ap (λ ds. DeltaChange.entity_removed e ∷ ds) (take-put_changes cs b p))
]
take-put_changes (c ∷ cs) bs h = absurd (ground arith)

abbrev framed : DeltaPayload → ℕ → ℕ → ℕ → ℕ → Option Bytes → String ⊎ Bytes
framed p t i s v none = inl "other changes"
framed p t i s v (some bs) =
    let m = p.metadata in
    inr (
      t ∷ i ∷ s ∷ v ∷ p.base_timestamp ∷ m.change_count ∷ m.entities_added ∷ m.entities_removed
      ∷ m.components_updated ∷ bs)

unfoldable encode : MessageType → MessagePayload → ℕ → ℕ → ℕ → ℕ → String ⊎ Bytes
unfolding put_changes
encode MessageType.delta (MessagePayload.delta p) t i s v = framed p t i s v (put_changes p.changes)
encode _ _ t i s v = inl "not a delta"

unfoldable decode : Bytes → String ⊎ Message
unfolding take_changes
decode (t ∷ i ∷ s ∷ v ∷ base ∷ count ∷ added ∷ removed ∷ updated ∷ bs) = inr (record {
  header = record {
    msg_type = MessageType.delta;
    timestamp = t;
    id = i;
    sequence = s;
    schema_version = v;
  };
  payload = MessagePayload.delta (record {
    changes = take_changes bs;
    base_timestamp = base;
    metadata = record {
      change_count = count;
      entities_added = added;
      entities_removed = removed;
      components_updated = updated;
    };
  });
})
decode _ = inl "too short"

unfoldable pub delta_codec : Codec Message
unfolding encode decode
delta_codec = record {
  to_vec = λ m.
      encode m.header.msg_type m.payload m.header.timestamp m.header.id m.header.sequence
        m.header.schema_version;
  from_slice = decode;
}

abbrev pub delta_formats : Formats Message
delta_formats = formats_of delta_codec

decode-framed :
    (p : DeltaPayload) (t i s v : ℕ) (r : Option Bytes) (bs : Bytes)
    → put_changes p.changes ≡ r
    → framed p t i s v r ≡ inr bs
    → decode bs
      ≡ inr (record {
        header = record {
          msg_type = MessageType.delta;
          timestamp = t;
          id = i;
          sequence = s;
          schema_version = v;
        };
        payload = MessagePayload.delta p;
      })
unfolding decode
decode-framed p t i s v none bs q h = absurd (ground arith)
decode-framed p t i s v (some b) bs q h =
    let m = p.metadata in
    let e : t ∷ i ∷ s ∷ v ∷ p.base_timestamp ∷ m.change_count ∷ m.entities_added
          ∷ m.entities_removed ∷ m.components_updated ∷ b
        ≡ bs =
      cc in
    rw (sym e, take-put_changes p.changes b q) refl

decode-encode :
    (k : MessageType) (p : MessagePayload) (t i s v : ℕ) (bs : Bytes)
    → encode k p t i s v ≡ inr bs
    → decode bs
      ≡ inr (record {
        header = record { msg_type = k; timestamp = t; id = i; sequence = s; schema_version = v };
        payload = p;
      })
unfolding encode
decode-encode MessageType.delta (MessagePayload.delta p) t i s v bs h =
    decode-framed p t i s v (put_changes p.changes) bs refl h
decode-encode _ _ t i s v bs h = absurd (ground arith)

pub delta_formats-TakesBack : (s : BinarySerializer) (m : Message) → TakesBack delta_formats s m
unfolding delta_codec
delta_formats-TakesBack = formats_of-TakesBack delta_codec (λ m bs h.
    decode-encode m.header.msg_type m.payload m.header.timestamp m.header.id m.header.sequence
      m.header.schema_version bs h)

-- Entities without components.
abbrev pub bare_first : WorldSnapshot
bare_first = record { entities = entity 1 [] ∷ entity 2 [] ∷ []; timestamp = 10; version = "1.0.0" }

-- Entity 1 is gone, and 3 is new.
abbrev pub bare_later : WorldSnapshot
bare_later = record { entities = entity 2 [] ∷ entity 3 [] ∷ []; timestamp = 20; version = "1.0.0" }
