-- ===== src/Samples/Managers.antt =====
-- Parameters for the tests of the sync manager: hash maps in the order of insertion, clocks, and the
-- log of the sample transport.
use tx2_link.Common.{ℕ, ◌*◌, List, refl}
use tx2_link.Common.Maps.{HashOrder, string_key, nat_key}
use tx2_link.Protocol.{ComponentId, EntityId, SerializedComponent, SerializedEntity, Message}
use tx2_link.Sync.Send.{Clocks}
use tx2_link.Sync.Logged.{MessageLog}
use tx2_link.Samples.{as_inserted, log_transport}

abbrev pub components : HashOrder ComponentId SerializedComponent
components = as_inserted

abbrev pub entities : HashOrder EntityId SerializedEntity
entities = as_inserted

-- The clocks at a number of seconds.
abbrev pub at : ℕ → Clocks
at seconds = record {
  millis = seconds * 1000;
  at_limiter = seconds * 1_000_000_000;
  at_sync = seconds * 1_000_000_000;
}

abbrev pub kept_log : MessageLog (List Message)
kept_log = record { sent = λ l. l; logs = λ message l. refl; kept = λ l. refl }
