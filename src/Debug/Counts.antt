-- ===== src/Debug/Counts.antt =====
-- `trace_delta`: the summary of a delta. Its five counters are i32, kept here as their 32 bits.
use tx2_link.Common.{
  ℕ, ltb, not, ◌&&◌, ◌^◌, ◌-◌, Bool, String, List, [], ◌∷◌, ◌++◌, length, if◌then◌else◌, add32,
}
use tx2_link.Common.Text.{◌<>◌, show}
use tx2_link.Protocol.{DeltaChange}
use tx2_link.Serialization as Wire
use tx2_link.Debug.{Modes, FloatText, line_if, is_trace_enabled}

pub record ChangeCounts : Type 0 where
  pub entities_added : ℕ
  pub entities_removed : ℕ
  pub components_added : ℕ
  pub components_removed : ℕ
  pub components_modified : ℕ

abbrev pub no_changes : ChangeCounts
no_changes = record {
  entities_added = 0;
  entities_removed = 0;
  components_added = 0;
  components_removed = 0;
  components_modified = 0;
}

abbrev pub count_change : DeltaChange → ChangeCounts → ChangeCounts
count_change (DeltaChange.entity_added e) c = record c { entities_added = add32 c.entities_added 1 }
count_change (DeltaChange.entity_removed e) c = record c {
  entities_removed = add32 c.entities_removed 1;
}
count_change (DeltaChange.component_added e id d) c = record c {
  components_added = add32 c.components_added 1;
}
count_change (DeltaChange.component_removed e id) c = record c {
  components_removed = add32 c.components_removed 1;
}
count_change (DeltaChange.component_updated e id d) c = record c {
  components_modified = add32 c.components_modified 1;
}
count_change (DeltaChange.fields_updated e id fs) c = record c {
  components_modified = add32 c.components_modified 1;
}

unfoldable pub count_changes : List DeltaChange → ChangeCounts → ChangeCounts
count_changes [] c = c
count_changes (change ∷ changes) c = count_changes changes (count_change change c)

-- `n > 0` and `{}` of the i32 with these bits
abbrev pub is_positive : ℕ → Bool
is_positive n = ltb 0 n && ltb n (2 ^ 31)

unfoldable pub show_i32 : ℕ → String
show_i32 n = if ltb n (2 ^ 31) then show n else "-" <> show (2 ^ 32 - n)

-- A line for a count that is positive.
unfoldable pub count_line : String → ℕ → String → List String
unfolding show_i32
count_line sign n what = line_if (is_positive n) (sign <> show_i32 n <> what)

unfoldable pub count_lines : ChangeCounts → List String
unfolding count_line
count_lines c =
    count_line "  + " c.entities_added " entities added"
    ++ count_line "  - " c.entities_removed " entities removed"
    ++ count_line "  + " c.components_added " components added"
    ++ count_line "  - " c.components_removed " components removed"
    ++ count_line "  ~ " c.components_modified " components modified"

unfoldable pub trace_delta : FloatText → Modes → Wire.Delta → List String
unfolding count_changes count_lines
trace_delta texts m delta =
    if not (is_trace_enabled m)
    then []
    else "[TX2-LINK] Delta Summary:"
        ∷ ("  Timestamp: "
            <> texts.plain delta.timestamp
            <> " (base: "
            <> texts.plain delta.base_timestamp
            <> ")")
        ∷ ("  Total changes: " <> show (length delta.changes))
        ∷ count_lines (count_changes delta.changes no_changes)
      ++ "" ∷ []
