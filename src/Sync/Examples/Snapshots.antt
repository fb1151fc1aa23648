-- ===== src/Sync/Examples/Snapshots.antt =====
-- Snapshots that are sent and received among deltas, at concrete inputs.
use tx2_link.Common.{some, ◌≡◌, refl, List, []}
use tx2_link.Error.{ok}
use tx2_link.Protocol.{Message, MessagePayload, CompressionType}
use tx2_link.Common.Maps.{string_key, nat_key}
use tx2_link.RateLimit.Window as Window
use tx2_link.Samples.Managers.{components, entities, at, kept_log}
use tx2_link.Samples.{
  ping_at, no_json, billionths, at_first, later, at_first-IsReflexive, log_transport,
}
use tx2_link.Compression.World.{nowhere, view, overlay}
use tx2_link.RateLimit.Window.{default_config as default_limits, with_max_messages}
use tx2_link.Sync.{SyncManager, new}
use tx2_link.Sync.Send.{send_snapshot, send_delta}
use tx2_link.Sync.Hears.{hear}
use tx2_link.Sync.Reset.{received_snapshot_overlays}
use tx2_link.Sync.Receive.{process_message}
use tx2_link.Sync.Resync.{send_snapshot_recovers, send_snapshot_strands}
use tx2_link.RateLimit.Window.{burst_window}
use tx2_link.Sync.Examples.{manager, peer}

send_snapshot_recovers_example :
    hear (λ d. d) billionths 0 (send_snapshot (at 5) later manager 4).1.transport peer 0 nowhere
    ≡ view (λ d. d) later
unfolding send_snapshot new Window.new
send_snapshot_recovers_example =
    send_snapshot_recovers kept_log (λ d. d) billionths 0 peer 0 nowhere (at 5) later manager 4 refl

-- The first delta is sent; then a snapshot of the later world; then the world goes back.
abbrev after_first : SyncManager (List Message)
after_first = (send_delta billionths no_json components entities (at 1) at_first manager 0).1

send_snapshot_strands_example :
    (let (r, m', counter') = send_snapshot (at 2) later after_first 1 in
      let (r', m'', counter'') =
        send_delta billionths no_json components entities
          (at 3)
          (record at_first { timestamp = 30 })
          m'
          counter' in
      (r' ≡ ok tt)
      × (m'' ≡ record m' {
        delta_compressor = record (m'.delta_compressor) {
          previous_snapshot = some (record at_first { timestamp = 30 });
        };
      })
      × (counter'' ≡ counter')
      × (hear (λ d. d) billionths 0 m''.transport peer 0 nowhere ≡ view (λ d. d) later))
unfolding send_snapshot send_delta new Window.new
send_snapshot_strands_example =
    send_snapshot_strands kept_log billionths no_json components entities (λ d. d) 0 peer 0 nowhere
      (at 2) (at 3) at_first later (record at_first { timestamp = 30 }) after_first 1 refl refl
      at_first-IsReflexive refl refl

-- The manager is sent a snapshot by a peer, and then entity 2 is gone. The delta does not say so.
abbrev a_snapshot : Message
a_snapshot = record {
  header = (ping_at 1).header;
  payload = MessagePayload.snapshot (record {
    entities = [];
    metadata = record {
      world_time = 0;
      entity_count = 0;
      component_count = 0;
      compression = CompressionType.none;
    };
  });
}

abbrev after_snapshot : SyncManager (List Message)
after_snapshot = (process_message billionths 0 a_snapshot after_first 1).1

after_snapshot_ok :
    (send_delta billionths no_json components entities (at 2) later after_snapshot 1).0 ≡ ok tt
unfolding process_message send_delta new Window.new
after_snapshot_ok = refl

received_snapshot_overlays_example :
    hear
      (λ d. d)
      billionths
      0
      (send_delta billionths no_json components entities (at 2) later after_snapshot 1).1.transport
      peer
      0
      nowhere
    ≡ overlay (λ d. d) later (hear (λ d. d) billionths 0 after_first.transport peer 0 nowhere)
unfolding process_message
received_snapshot_overlays_example =
    received_snapshot_overlays kept_log billionths no_json components entities (λ d. d) 0 peer 0
      nowhere (ping_at 1).header
      (record {
        entities = [];
        metadata = record {
          world_time = 0;
          entity_count = 0;
          component_count = 0;
          compression = CompressionType.none;
        };
      })
      (at 2) later after_first 1 after_snapshot_ok
