-- ===== src/Serialization.antt =====
-- serialization.rs: snapshots, deltas, the choice of a wire format, and the byte-stream framing in
-- the children. The encoders of serde_json, rmp-serde and bincode are a parameter, `Formats`.
-- Logging, which leaves no trace in the results, is in `Debug.Calls`.
pub mod Stream
use tx2_link.Common.{ℕ, ◌≡◌, String, List, ◌⊎◌, inl, inr}
use tx2_link.Error.{LinkError, Result, ok, err}
use tx2_link.Protocol.{SerializedEntity, SerializedComponent, DeltaChange, Message}

pub record WorldSnapshot : Type 0 where
  pub entities : List SerializedEntity
  pub timestamp : ℕ
  pub version : String

pub record Delta : Type 0 where
  pub changes : List DeltaChange
  pub timestamp : ℕ
  pub base_timestamp : ℕ

pub data BinaryFormat : Type 0 where
  json message_pack bincode : BinaryFormat

abbrev pub Bytes : Type 0
Bytes = List ℕ

-- One crate's encoder and decoder at a type: a value, or the text of the crate's error.
pub record Codec (A : Type 0) : Type 0 where
  pub to_vec : A → String ⊎ Bytes
  pub from_slice : Bytes → String ⊎ A

pub record Formats (A : Type 0) : Type 0 where
  pub serde_json : Codec A
  pub rmp_serde : Codec A
  pub bincode : Codec A

-- `?` on a crate's result: the error is wrapped by its `From` instance.
abbrev pub try_with {ℓ} : {A : Type ℓ} → (String → LinkError) → String ⊎ A → Result A
try_with wrap (inl e) = err (wrap e)
try_with wrap (inr a) = ok a

module _ {A : Type 0} (f : Formats A) where
  unfoldable pub serialize : BinaryFormat → A → Result Bytes
  serialize BinaryFormat.json a = try_with LinkError.json (f.serde_json.to_vec a)
  serialize BinaryFormat.message_pack a = try_with LinkError.msg_pack_encode (f.rmp_serde.to_vec a)
  serialize BinaryFormat.bincode a = try_with LinkError.bincode (f.bincode.to_vec a)

  unfoldable pub deserialize : BinaryFormat → Bytes → Result A
  deserialize BinaryFormat.json bs = try_with LinkError.json (f.serde_json.from_slice bs)
  deserialize BinaryFormat.message_pack bs =
      try_with LinkError.msg_pack_decode (f.rmp_serde.from_slice bs)
  deserialize BinaryFormat.bincode bs = try_with LinkError.bincode (f.bincode.from_slice bs)

pub record BinarySerializer : Type 0 where
  pub format : BinaryFormat

abbrev binary_serializer : BinaryFormat → BinarySerializer
binary_serializer format = record { format = format }

abbrev pub json_serializer : BinarySerializer
json_serializer = binary_serializer BinaryFormat.json

abbrev pub messagepack_serializer : BinarySerializer
messagepack_serializer = binary_serializer BinaryFormat.message_pack

abbrev pub bincode_serializer : BinarySerializer
bincode_serializer = binary_serializer BinaryFormat.bincode

abbrev get_format : BinarySerializer → BinaryFormat
get_format s = s.format

-- The four pairs of methods of `BinarySerializer` are one code at four types.
module _ (f : Formats Message) (s : BinarySerializer) where
  unfoldable pub serialize_message : Message → Result Bytes
  unfolding serialize
  serialize_message message = serialize f s.format message

  unfoldable pub deserialize_message : Bytes → Result Message
  unfolding deserialize
  deserialize_message bs = deserialize f s.format bs

  -- If the message is encoded, it is decoded again.
  abbrev pub TakesBack : Message → Type 0
  TakesBack message =
      (bs : Bytes) → serialize_message message ≡ ok bs → deserialize_message bs ≡ ok message

module _ (f : Formats WorldSnapshot) (s : BinarySerializer) where
  unfoldable pub serialize_snapshot : WorldSnapshot → Result Bytes
  unfolding serialize
  serialize_snapshot snapshot = serialize f s.format snapshot

  unfoldable pub deserialize_snapshot : Bytes → Result WorldSnapshot
  unfolding deserialize
  deserialize_snapshot bs = deserialize f s.format bs

module _ (f : Formats Delta) (s : BinarySerializer) where
  unfoldable pub serialize_delta : Delta → Result Bytes
  unfolding serialize
  serialize_delta delta = serialize f s.format delta

  unfoldable pub deserialize_delta : Bytes → Result Delta
  unfolding deserialize
  deserialize_delta bs = deserialize f s.format bs

module _ (f : Formats SerializedComponent) (s : BinarySerializer) where
  unfoldable pub serialize_component : SerializedComponent → Result Bytes
  unfolding serialize
  serialize_component component = serialize f s.format component

  unfoldable pub deserialize_component : Bytes → Result SerializedComponent
  unfolding deserialize
  deserialize_component bs = deserialize f s.format bs
