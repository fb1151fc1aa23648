-- ===== src/Debug/Texts.antt =====
-- The texts of debug.rs that are made in any mode.
use tx2_link.Common.{ℕ, leb, ◌*◌, String, if◌then◌else◌}
use tx2_link.Common.Text.{◌<>◌, show}
use tx2_link.Float.{FloatOps}
use tx2_link.Protocol.{Message, MessageType}
use tx2_link.Debug.{FloatText}

abbrev pub kb : ℕ
kb = 1024

abbrev pub mb : ℕ
mb = kb * 1024

abbrev pub gb : ℕ
gb = mb * 1024

-- `{:.2}` of a number of bytes in a larger unit
unfoldable pub in_unit : FloatOps → FloatText → ℕ → ℕ → String
in_unit floats texts unit bytes =
    texts.fixed 2 (floats.div (floats.of_nat bytes) (floats.of_nat unit))

unfoldable pub format_bytes : FloatOps → FloatText → ℕ → String
unfolding in_unit
format_bytes floats texts bytes =
    if leb gb bytes
    then in_unit floats texts gb bytes <> " GB"
    else if leb mb bytes
    then in_unit floats texts mb bytes <> " MB"
    else if leb kb bytes
    then in_unit floats texts kb bytes <> " KB"
    else show bytes <> " bytes"

abbrev pub type_name : MessageType → String
type_name MessageType.snapshot = "Snapshot"
type_name MessageType.delta = "Delta"
type_name MessageType.request_snapshot = "RequestSnapshot"
type_name MessageType.ack = "Ack"
type_name MessageType.ping = "Ping"
type_name MessageType.pong = "Pong"
type_name MessageType.schema_sync = "SchemaSync"
type_name MessageType.error = "Error"

unfoldable pub message_summary : Message → String
message_summary message =
    type_name message.header.msg_type <> " (seq: " <> show message.header.sequence <> ")"
