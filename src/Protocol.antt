-- ===== src/Protocol.antt =====
-- protocol.rs: the data that travels. The constructors of messages are in `Messages`, values of
-- fields in `Value`; `String` keys are native texts, machine integers native numbers.
mod Value
pub mod Messages
pub mod Ids
pub mod Json
pub mod Race
mod Examples
unfoldable pub use Value.*
use tx2_link.Common.{ℕ, String, Bool, Option, List}
use tx2_link.Common.Maps.{Map}

abbrev pub EntityId : Type 0
EntityId = ℕ

abbrev pub ComponentId : Type 0
ComponentId = String

abbrev pub FieldId : Type 0
FieldId = String

-- `ComponentData`; the map of a structured component is a list of fields in its order of iteration.
pub data ComponentData : Type 0 where
  binary : List ℕ → ComponentData
  json : String → ComponentData
  structured : Map FieldId FieldValue → ComponentData

pub record SerializedComponent : Type 0 where
  pub id : ComponentId
  pub payload : ComponentData

pub record SerializedEntity : Type 0 where
  pub id : EntityId
  pub components : List SerializedComponent

pub record FieldDelta : Type 0 where
  pub field_id : FieldId
  pub old_value : Option FieldValue
  pub new_value : FieldValue

pub data DeltaChange : Type 0 where
  entity_added : EntityId → DeltaChange
  entity_removed : EntityId → DeltaChange
  component_added : EntityId → ComponentId → ComponentData → DeltaChange
  component_removed : EntityId → ComponentId → DeltaChange
  component_updated : EntityId → ComponentId → ComponentData → DeltaChange
  fields_updated : EntityId → ComponentId → List FieldDelta → DeltaChange

pub data CompressionType : Type 0 where
  none deflate lz4 zstd : CompressionType

pub record SnapshotMetadata : Type 0 where
  pub world_time : ℕ
  pub entity_count : ℕ
  pub component_count : ℕ
  pub compression : CompressionType

pub record SnapshotPayload : Type 0 where
  pub entities : List SerializedEntity
  pub metadata : SnapshotMetadata

pub record DeltaMetadata : Type 0 where
  pub change_count : ℕ
  pub entities_added : ℕ
  pub entities_removed : ℕ
  pub components_updated : ℕ

pub record DeltaPayload : Type 0 where
  pub changes : List DeltaChange
  pub base_timestamp : ℕ
  pub metadata : DeltaMetadata

pub data FieldType : Type 0 where
  null bool u8 u16 u32 u64 i8 i16 i32 i64 f32 f64 string bytes array map : FieldType

pub record FieldSchemaInfo : Type 0 where
  pub field_id : FieldId
  pub field_type : FieldType
  pub optional : Bool

pub record ComponentSchemaInfo : Type 0 where
  pub component_id : ComponentId
  pub version : ℕ
  pub fields : List FieldSchemaInfo

pub record SchemaSyncPayload : Type 0 where
  pub schemas : List ComponentSchemaInfo

pub data MessageType : Type 0 where
  snapshot delta request_snapshot ack ping pong schema_sync error : MessageType

pub record MessageHeader : Type 0 where
  pub msg_type : MessageType
  pub timestamp : ℕ
  pub id : ℕ
  pub sequence : ℕ
  pub schema_version : ℕ

pub data MessagePayload : Type 0 where
  snapshot : SnapshotPayload → MessagePayload
  delta : DeltaPayload → MessagePayload
  request_snapshot : MessagePayload
  ack : ℕ → MessagePayload
  ping pong : MessagePayload
  schema_sync : SchemaSyncPayload → MessagePayload
  error : ℕ → String → MessagePayload

pub record Message : Type 0 where
  pub header : MessageHeader
  pub payload : MessagePayload
