-- ===== src/Sync/Hears.antt =====
-- What messages do to the world of the one that hears them. It depends on the messages alone, not
-- on the state of the hearer.
use tx2_link.Common.{ℕ, ◌≡◌, refl, ◌∙◌, ap, List, [], ◌∷◌, ◌++◌}
use tx2_link.Error.{Result, ok, err}
use tx2_link.Float.{FloatOps}
use tx2_link.Protocol.{ComponentData, Message, MessageHeader, MessagePayload}
use tx2_link.Compression.World.{World, view, replay}
use tx2_link.Transport.{Transport}
use tx2_link.Protocol.Messages as Messages
use tx2_link.Serialization.{WorldSnapshot}
use tx2_link.Sync.{SyncManager}
use tx2_link.Sync.Receive.{SyncEvent, as_event, process_message, handle}

-- What a receiver does with an event: it takes over a snapshot, and replays a delta.
-- It keeps what `shown` makes of the data of a component.
abbrev pub apply_event : (ComponentData → ComponentData) → Result SyncEvent → World → World
apply_event shown (ok (SyncEvent.snapshot s)) w = view shown s
apply_event shown (ok (SyncEvent.delta d)) w = replay shown d.changes w
apply_event shown _ w = w

module _ {P : Type 0} ⦃line : Transport P⦄ (shown : ComponentData → ComponentData)
    (floats : FloatOps) (millis : ℕ) where
  -- The world of a peer that processes the messages in order.
  unfoldable pub hear : List Message → SyncManager P → ℕ → World → World
  unfolding process_message
  hear [] peer counter w = w
  hear (message ∷ ms) peer counter w =
      let (r, peer', counter') = process_message floats millis message peer counter in
      hear ms peer' counter' (apply_event shown r w)

module _ (shown : ComponentData → ComponentData) where
  unfoldable pub hear_payload : MessagePayload → World → World
  unfolding replay view
  hear_payload (MessagePayload.snapshot p) w =
      view shown
        (record { entities = p.entities; timestamp = p.metadata.world_time; version = "1.0.0" })
  hear_payload (MessagePayload.delta p) w = replay shown p.changes w
  hear_payload MessagePayload.ping w = w
  hear_payload _ w = w

  unfoldable pub hear_messages : List Message → World → World
  unfolding hear_payload
  hear_messages [] w = w
  hear_messages (m ∷ ms) w = hear_messages ms (hear_payload m.payload w)

  pub hear_messages-append :
      (ms ns : List Message) (w : World)
      → hear_messages (ms ++ ns) w ≡ hear_messages ns (hear_messages ms w)
  unfolding hear_messages
  hear_messages-append [] ns w = refl
  hear_messages-append (m ∷ ms) ns w = hear_messages-append ms ns (hear_payload m.payload w)

  apply_event-ping :
      (r : Result (Unit {0})) (w : World) → apply_event shown (as_event r SyncEvent.ping) w ≡ w
  apply_event-ping (ok u) w = refl
  apply_event-ping (err e) w = refl

module _ {P : Type 0} ⦃line : Transport P⦄ (shown : ComponentData → ComponentData)
    (floats : FloatOps) (millis : ℕ) where
  handle-hear_payload :
      (header : MessageHeader) (payload : MessagePayload) (peer : SyncManager P) (counter : ℕ)
      (w : World)
      → apply_event shown (handle floats millis header payload peer counter).0 w
        ≡ hear_payload shown payload w
  unfolding handle hear_payload
  handle-hear_payload header (MessagePayload.snapshot p) peer counter w = refl
  handle-hear_payload header (MessagePayload.delta p) peer counter w = refl
  handle-hear_payload header MessagePayload.request_snapshot peer counter w = refl
  handle-hear_payload header (MessagePayload.ack n) peer counter w = refl
  handle-hear_payload header MessagePayload.ping peer counter w = apply_event-ping shown _ w
  handle-hear_payload header MessagePayload.pong peer counter w = refl
  handle-hear_payload header (MessagePayload.schema_sync p) peer counter w = refl
  handle-hear_payload header (MessagePayload.error code text) peer counter w = refl

  pub process_message-hear_payload :
      (m : Message) (peer : SyncManager P) (counter : ℕ) (w : World)
      → apply_event shown (process_message floats millis m peer counter).0 w
        ≡ hear_payload shown m.payload w
  unfolding process_message
  process_message-hear_payload m peer counter w =
      handle-hear_payload m.header m.payload peer counter w

  pub hear-hear_messages :
      (ms : List Message) (peer : SyncManager P) (counter : ℕ) (w : World)
      → hear shown floats millis ms peer counter w ≡ hear_messages shown ms w
  unfolding hear hear_messages
  hear-hear_messages [] peer counter w = refl
  hear-hear_messages (m ∷ ms) peer counter w =
      hear-hear_messages ms _ _ _
      ∙ ap (hear_messages shown ms) (process_message-hear_payload m peer counter w)

pub hear-snapshot :
    (shown : ComponentData → ComponentData) (s : WorldSnapshot) (version clock number : ℕ)
    (w : World)
    → hear_messages shown ((Messages.snapshot s.entities s.timestamp version clock number).0 ∷ []) w
      ≡ view shown s
unfolding hear_messages hear_payload Messages.snapshot Messages.new view
hear-snapshot shown s version clock number w = refl
