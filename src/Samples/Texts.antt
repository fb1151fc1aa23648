-- ===== src/Samples/Texts.antt =====
-- A JSON parser for two texts, and snapshots whose components hold these.
use tx2_link.Common.{
  ℕ, ◌≡◌, refl, String, Bool, true, false, Option, none, some, some_inj, [], ◌∷◌, arith, subst,
}
use text.Mathlib.Text.{◌==◌ as str_eq}
use tx2_link.Common.Maps.{Map, IsMap, string_key}
use tx2_link.Protocol.{ComponentData, SerializedComponent}
use tx2_link.Serialization.{WorldSnapshot}
use tx2_link.Compression.Json.{
  JsonValue, JsonMembers, SerdeJson, as_object, members, done, member, json_to_field_value,
}
use tx2_link.Compression.World.{SameValue, identical}
use tx2_link.Compression.Replay.Json.{object_in, HasUniqueKeys, HasEquality}
use tx2_link.Compression.Replay.Whole.{IsDiffableSnapshot}
use tx2_link.Samples.{y_ne_x, entity, position}

-- Two texts parse, and booleans can be equal.
abbrev bool_eq : JsonValue → JsonValue → Bool
bool_eq (JsonValue.bool true) (JsonValue.bool true) = true
bool_eq (JsonValue.bool false) (JsonValue.bool false) = true
bool_eq _ _ = false

abbrev members_before : JsonMembers
members_before = member "x" (JsonValue.bool true) (member "y" (JsonValue.bool true) done)

abbrev members_after : JsonMembers
members_after = member "x" (JsonValue.bool false) done

abbrev parsed : Bool → Bool → Option JsonValue
parsed true other = some (JsonValue.object members_before)
parsed false true = some (JsonValue.object members_after)
parsed false false = none

abbrev pub two_texts : SerdeJson
two_texts = record {
  from_str = λ s. parsed (str_eq s "before") (str_eq s "after");
  value_eq = bool_eq;
}

bool_eq-SameValue :
    (v w : JsonValue)
    → bool_eq v w ≡ true
    → SameValue (json_to_field_value v) (json_to_field_value w)
bool_eq-SameValue (JsonValue.bool true) (JsonValue.bool true) h = identical refl
bool_eq-SameValue (JsonValue.bool false) (JsonValue.bool false) h = identical refl
bool_eq-SameValue (JsonValue.bool true) (JsonValue.bool false) h = absurd (ground (arith, h))
bool_eq-SameValue v w h = absurd (ground (arith, h))

parsed-IsMap : (b c : Bool) (m : Map String JsonValue) → object_in (parsed b c) ≡ some m → IsMap m
unfolding as_object members
parsed-IsMap true c m h = subst IsMap (some_inj.0 h) ((y_ne_x, tt), (tt, tt))
parsed-IsMap false true m h = subst IsMap (some_inj.0 h) (tt, tt)
parsed-IsMap false false m h = absurd (ground (arith, h))

pub two_texts-HasUniqueKeys : HasUniqueKeys two_texts
two_texts-HasUniqueKeys s m h = parsed-IsMap (str_eq s "before") (str_eq s "after") m h

pub two_texts-HasEquality : HasEquality two_texts
two_texts-HasEquality = bool_eq-SameValue

abbrev pub text_component : String → SerializedComponent
text_component text = record { id = "Flags"; payload = ComponentData.json text }

abbrev with_text : String → ℕ → WorldSnapshot
with_text text x = record {
  entities = entity 1 (position x ∷ text_component text ∷ []) ∷ [];
  timestamp = 30;
  version = "1.0.0";
}

-- The text of a component changes, and another component moves.
abbrev pub text_before : WorldSnapshot
text_before = with_text "before" 0

abbrev pub text_after : WorldSnapshot
text_after = with_text "after" 3

pub text_before-IsDiffable : IsDiffableSnapshot text_before
text_before-IsDiffable = ((((y_ne_x, tt), (tt, tt)), (tt, tt)), tt)

pub text_after-IsDiffable : IsDiffableSnapshot text_after
text_after-IsDiffable = ((((y_ne_x, tt), (tt, tt)), (tt, tt)), tt)
