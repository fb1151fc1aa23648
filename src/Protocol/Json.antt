-- ===== src/Protocol/Json.antt =====
-- The conversions of `ComponentData` from and to JSON values.
use tx2_link.Common.{String, Option, none, some}
use tx2_link.Protocol.{ComponentData}
use tx2_link.Compression.Json.{JsonValue, SerdeJson}

-- `to_string` prints a value.
abbrev pub from_json_value : (JsonValue → String) → JsonValue → ComponentData
from_json_value to_string value = ComponentData.json (to_string value)

-- The data is parsed only if it is a JSON text.
abbrev to_json_value : SerdeJson → ComponentData → Option JsonValue
to_json_value j (ComponentData.json s) = j.from_str s
to_json_value j _ = none

abbrev as_json_str : ComponentData → Option String
as_json_str (ComponentData.json s) = some s
as_json_str _ = none
