-- ===== src/Compression/JsonExamples.antt =====
-- Field deltas of JSON texts, at concrete inputs.
use tx2_link.Common.{◌≡◌, refl, true, false, some, List, [], ◌∷◌}
use tx2_link.Common.Maps.{get, contains_key}
use tx2_link.Protocol.{ComponentData, FieldDelta, FieldValue}
use tx2_link.Compression.Json.{as_object, members, json_to_field_value}
use tx2_link.Compression.Field.{with_enabled, compute_field_deltas}
use tx2_link.Compression.Replay.Json.{fields_of, IsPatch, compute_field_deltas-IsPatch}
use tx2_link.Samples.Texts.{
  two_texts, two_texts-HasUniqueKeys, two_texts-HasEquality, text_component,
}

-- `x` has changed, and `y` is gone.
abbrev flag_deltas : List FieldDelta
flag_deltas =
    record {
      field_id = "x";
      old_value = some (FieldValue.bool true);
      new_value = FieldValue.bool false;
    }
    ∷ record {
      field_id = "y";
      old_value = some (FieldValue.bool true);
      new_value = FieldValue.null;
    }
    ∷ []

compute_field_deltas-IsPatch_example :
    ((with_enabled true).enabled ≡ true)
    × IsPatch
        (fields_of two_texts (ComponentData.json "before"))
        (fields_of two_texts (ComponentData.json "after"))
        flag_deltas
unfolding compute_field_deltas as_object members json_to_field_value get contains_key
compute_field_deltas-IsPatch_example =
    compute_field_deltas-IsPatch two_texts two_texts-HasUniqueKeys two_texts-HasEquality
      (with_enabled true) (text_component "before") (text_component "after") flag_deltas tt tt refl
