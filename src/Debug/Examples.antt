-- ===== src/Debug/Examples.antt =====
-- Tests of what is printed, after those of debug.rs, and the theorems on it at concrete inputs.
use tx2_link.Common.{
  ℕ, ◌*◌, ◌/◌, ◌%◌, ◌^◌, ◌≡◌, ◌↔◌, refl, Bool, true, false, String, inr, List, [], ◌∷◌, ltb,
  if◌then◌else◌,
}
use tx2_link.Common.Text.{◌<>◌, show}
use tx2_link.Float.{FloatOps}
use tx2_link.Protocol.{
  DeltaChange, entity_added, component_added, component_updated, fields_updated, ComponentData,
}
use tx2_link.Protocol.Messages.{delta_metadata}
use tx2_link.Serialization.{BinaryFormat, BinarySerializer}
use tx2_link.Samples.{ping_at}
use tx2_link.Debug.{Modes, Pretty, FloatText, init_debug_mode, initial_modes}
use tx2_link.Debug.Counts.{no_changes, count_changes, trace_delta}
use tx2_link.Debug.Totals.{all_five, count_changes-delta_metadata}
use tx2_link.Debug.Texts.{format_bytes, message_summary}
use tx2_link.Debug.Quiet.{Call, session}
use tx2_link.Debug.Session.{session-nil_iff}

-- Floats that are whole numbers of hundredths.
abbrev hundredths : FloatOps
hundredths = record {
  of_nat = λ n. n * 100;
  mul = λ x y. x * y / 100;
  div = λ x y. x * 100 / y;
  to_u32 = λ x. x / 100;
  to_u64 = λ x. x / 100;
  as_secs_f64 = λ nanos. nanos;
}

abbrev two_digits : ℕ → String
two_digits n = if ltb n 10 then "0" <> show n else show n

abbrev texts : FloatText
texts = record {
  plain = λ x. show (x / 100);
  fixed = λ digits x. show (x / 100) <> "." <> two_digits (x % 100);
}

abbrev pretty : Pretty
pretty = record { message = λ m. inr "{}"; snapshot = λ s. inr "{}"; delta = λ d. inr "{}" }

format_bytes_runs :
    (format_bytes hundredths texts 500 ≡ "500 bytes")
    × (format_bytes hundredths texts 1024 ≡ "1.00 KB")
    × (format_bytes hundredths texts 1536 ≡ "1.50 KB")
    × (format_bytes hundredths texts (1024 * 1024) ≡ "1.00 MB")
    × (format_bytes hundredths texts (1024 * 1024 * 1024) ≡ "1.00 GB")
unfolding format_bytes show
format_bytes_runs = (refl, refl, refl, refl, refl)

summary_runs : message_summary (ping_at 3) ≡ "Ping (seq: 0)"
unfolding message_summary show
summary_runs = refl

abbrev some_changes : List DeltaChange
some_changes =
    entity_added 1
    ∷ component_added 1 "Health" (ComponentData.json "{}")
    ∷ component_updated 2 "Health" (ComponentData.json "[]")
    ∷ fields_updated 3 "Position" []
    ∷ []

abbrev tracing : Modes
tracing = record { debug_mode = false; trace_mode = true }

trace_delta_runs :
    trace_delta texts tracing
      (record { changes = some_changes; timestamp = 200; base_timestamp = 100 })
    ≡ "[TX2-LINK] Delta Summary:" ∷ "  Timestamp: 2 (base: 1)" ∷ "  Total changes: 4"
      ∷ "  + 1 entities added" ∷ "  + 1 components added" ∷ "  ~ 2 components modified" ∷ "" ∷ []
unfolding trace_delta show
trace_delta_runs = refl

count_changes-delta_metadata_example :
    (let c = count_changes some_changes no_changes in
      let metadata = delta_metadata some_changes in
      (c.entities_added ≡ metadata.entities_added)
      × (c.entities_removed ≡ metadata.entities_removed)
      × (c.components_modified ≡ metadata.components_updated)
      × (all_five c % 2 ^ 32 ≡ metadata.change_count))
count_changes-delta_metadata_example = count_changes-delta_metadata some_changes

-- An environment without variables.
abbrev unset : String → Bool
unset name = false

abbrev two_calls : List Call
two_calls = Call.message "Serialized" (ping_at 1) ∷ Call.transport_send 12 "peer" ∷ []

session-nil_iff_example :
    (session pretty hundredths texts unset two_calls ≡ [])
    ↔ ((unset "TX2_DEBUG" ≡ false) × (unset "TX2_DEBUG_JSON" ≡ false) × (unset "TX2_TRACE" ≡ false))
session-nil_iff_example = session-nil_iff pretty hundredths texts unset two_calls

unset_runs : init_debug_mode unset ≡ (initial_modes, [])
unfolding init_debug_mode
unset_runs = refl

abbrev packer : BinarySerializer
packer = record { format = BinaryFormat.message_pack }
