-- ===== src/Samples.antt =====
-- Concrete inputs that the tests of several modules share: codecs, messages, snapshots, a transport.
pub mod Deltas
pub mod OneCodec
pub mod Texts
pub mod Managers
pub mod Requests
use tx2_link.Common.{
  ℕ, ◌*◌, ◌/◌, ◌-◌, ◌^◌, min, String, ◌⊎◌, inl, inr, List, [], ◌∷◌, refl, none, false, true, zero,
  All, ◌≡◌, subst, ◌≢◌, arith, ◌++◌,
}
use tx2_link.Error.{ok}
use tx2_link.Compression.Field.{components_equal}
use tx2_link.Compression.Unchanged.{IsReflexiveEntity}
use tx2_link.Compression.Replay.Json.{HasUniqueKeys, HasEquality}
use tx2_link.Compression.Replay.Whole.{IsDiffableSnapshot}
use tx2_link.Transport.{Transport}
use tx2_link.Common.Maps.{get, string_key, Key, Map, HashOrder}
use tx2_link.Float.{FloatOps}
use tx2_link.Protocol.{
  FieldId, FieldValue, field_value_eq, ComponentData, SerializedComponent, SerializedEntity,
  Message, MessageType, MessagePayload,
}
use tx2_link.Serialization.{Codec, Formats, Bytes, WorldSnapshot}
use tx2_link.Compression.Json.{SerdeJson}

-- The ping with a given schema version, as the sample codec decodes it.
abbrev pub ping_at : ℕ → Message
ping_at v = record {
  header = record {
    msg_type = MessageType.ping;
    timestamp = 0;
    id = 0;
    sequence = 0;
    schema_version = v;
  };
  payload = MessagePayload.ping;
}

-- Carries pings in two bytes; anything else does not decode.
abbrev pub decode_ping : Bytes → String ⊎ Message
decode_ping (v ∷ w ∷ []) = inr (ping_at v)
decode_ping _ = inl "not a ping"

abbrev pub ping_codec : Codec Message
ping_codec = record {
  to_vec = λ m. inr (m.header.schema_version ∷ 7 ∷ []);
  from_slice = decode_ping;
}

abbrev pub ping_formats : Formats Message
ping_formats = record { serde_json = ping_codec; rmp_serde = ping_codec; bincode = ping_codec }

-- Floats that are whole numbers of billionths, enough for durations and rates.
abbrev pub billionths : FloatOps
billionths = record {
  of_nat = λ n. n;
  mul = λ x y. x * y;
  div = λ x y. x / y;
  to_u32 = λ x. min (x / 1_000_000_000) (2 ^ 32 - 1);
  to_u64 = λ x. min x (2 ^ 64 - 1);
  as_secs_f64 = λ nanos. nanos;
}

-- A hash map that is iterated in the order of its first insertions.
abbrev pub as_inserted : {K V : Type 0} ⦃k : Key K⦄ → HashOrder K V
as_inserted = record {
  arrange = λ number m. m;
  arrange-IsMap = λ number m u. u;
  get-arrange = λ number i m u. refl;
}

-- No text parses, and no value is equal to another.
abbrev pub no_json : SerdeJson
no_json = record { from_str = λ s. none; value_eq = λ v w. false }

pub no_json-HasUniqueKeys : HasUniqueKeys no_json
no_json-HasUniqueKeys s m h = absurd (ground arith)

pub no_json-HasEquality : HasEquality no_json
no_json-HasEquality v w h = absurd (ground arith)

abbrev component : String → Map FieldId FieldValue → SerializedComponent
component id m = record { id = id; payload = ComponentData.structured m }

abbrev pub position : ℕ → SerializedComponent
position x = component "Position" (("x", FieldValue.u64 x) ∷ ("y", FieldValue.u64 5) ∷ [])

abbrev pub health : SerializedComponent
health = component "Health" (("hp", FieldValue.u64 100) ∷ [])

abbrev pub entity : ℕ → List SerializedComponent → SerializedEntity
entity id components = record { id = id; components = components }

-- At the later time, entity 2 is gone, 3 is new, and 1 has moved and lost a component.
abbrev pub at_first : WorldSnapshot
at_first = record {
  entities = entity 1 (position 0 ∷ health ∷ []) ∷ entity 2 (health ∷ []) ∷ [];
  timestamp = 10;
  version = "1.0.0";
}

abbrev pub later : WorldSnapshot
later = record {
  entities = entity 1 (position 3 ∷ []) ∷ entity 3 (position 7 ∷ []) ∷ [];
  timestamp = 20;
  version = "1.0.0";
}

-- A transport that is always connected and keeps all that is sent; nothing comes back.
instance abbrev pub log_transport : Transport (List Message)
log_transport = record {
  send = λ message log. (ok tt, log ++ message ∷ []);
  receive = λ log. (ok none, log);
  close = λ log. (ok tt, log);
  is_connected = λ log. true;
}

pub y_ne_x : ◌≢◌ {A = String} "y" "x"
y_ne_x p = absurd (ground (arith, string_key.beq_iff "y" "x"))

pub at_first-IsDiffable : IsDiffableSnapshot at_first
at_first-IsDiffable = ((((y_ne_x, tt), (tt, tt)), ((tt, tt), tt)), (((tt, tt), tt), tt))

pub later-IsDiffable : IsDiffableSnapshot later
later-IsDiffable = ((((y_ne_x, tt), (tt, tt)), tt), ((((y_ne_x, tt), (tt, tt)), tt), tt))

pub at_first-IsReflexive : All IsReflexiveEntity at_first.entities
unfolding get field_value_eq components_equal
at_first-IsReflexive = ((refl, (refl, tt)), ((refl, tt), tt))
