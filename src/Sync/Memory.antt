-- ===== src/Sync/Memory.antt =====
-- Two managers over memory transports: what the peer receives is what the manager has sent.
use tx2_link.Common.{
  ℕ, zero, suc, ◌≡◌, refl, sym, ap, ◌∙◌, subst, true, Option, none, some, List, [], ◌∷◌, map,
  length, All, Bool-cases, inl, inr, arith,
}
use tx2_link.Common.Maps.{HashOrder, string_key, nat_key}
use tx2_link.Error.{Result, ok, err}
use tx2_link.Float.{FloatOps}
use tx2_link.Protocol.{
  EntityId, ComponentId, ComponentData, SerializedComponent, SerializedEntity, Message,
  MessageHeader, MessagePayload,
}
use tx2_link.Serialization.{
  Bytes, BinaryFormat, BinarySerializer, Formats, WorldSnapshot, TakesBack, serialize_message,
  deserialize_message,
}
use tx2_link.Compression.Json.{SerdeJson}
use tx2_link.Compression.Field.{with_enabled}
use tx2_link.Compression.World.{World, nowhere, view, SameWorld}
use tx2_link.Compression.Replay.Json.{HasUniqueKeys, HasEquality}
use tx2_link.Compression.Replay.Content.{content}
use tx2_link.Compression.Replay.Whole.{IsDiffableSnapshot}
use tx2_link.Compression.Replay.Follow.{last}
use tx2_link.Transport.Memory.{MemoryTransport, pushed, shifted, connect_to, memory_transport}
use tx2_link.Transport.Memory as Memory
use tx2_link.Transport.Memory.Log.{
  decode_all, add_decoded, decode_all-IsEncoded, IsBuffered, send-IsBuffered,
}
use tx2_link.Transport.Recording.{recording}
use tx2_link.Serialization.Stream.{decoded}
use tx2_link.Sync.{SyncManager, SyncConfig, new}
use tx2_link.Sync.Send.{Clocks, transmit}
use tx2_link.Sync.Receive.{SyncEvent, as_some, handle, process_message, after_receive, receive}
use tx2_link.Sync.Kept.{send_deltas-kept}
use tx2_link.Sync.Recorded.{record_log, send_deltas-forget}
use tx2_link.Sync.Follow.{send_deltas, send_deltas-SameWorld}
use tx2_link.Sync.Hears.{
  apply_event, hear_messages, hear-hear_messages, process_message-hear_payload,
}

-- What a receiver does with what `receive` returns.
abbrev pub apply_received :
    (ComponentData → ComponentData) → Result (Option SyncEvent) → World → World
apply_received shown (ok (some event)) w = apply_event shown (ok event) w
apply_received shown (ok none) w = w
apply_received shown (err e) w = w

apply_received-as_some :
    (shown : ComponentData → ComponentData) (r : Result SyncEvent) (w : World)
    → apply_received shown (as_some r) w ≡ apply_event shown r w
apply_received-as_some shown (ok event) w = refl
apply_received-as_some shown (err e) w = refl

module _ (f : Formats Message) where
  -- A transport that differs from another in its send buffer alone.
  abbrev IsSender : MemoryTransport → MemoryTransport → Type 0
  IsSender t t' = (bss : List Bytes) × (t' ≡ record t { send_buffer = bss })

  pushed-IsSender : (r : Result Bytes) (t : MemoryTransport) → IsSender t (pushed f r t).1
  unfolding pushed
  pushed-IsSender (ok bs) t = (_, refl)
  pushed-IsSender (err e) t = (t.send_buffer, refl)

  send-IsSender : (m : Message) (t : MemoryTransport) → IsSender t (Memory.send f m t).1
  unfolding Memory.send
  send-IsSender m t = elim (Bool-cases t.connected) [
    | inl on ↦
        let (bss, e) = pushed-IsSender (serialize_message f t.serializer m) t in
        (bss, ground (arith, on, e))
    | inr off ↦ (t.send_buffer, ground (arith, off))
  ]

  abbrev pub IsOpenAt : List Bytes → MemoryTransport → Type 0
  IsOpenAt bss t = (t.connected ≡ true) × (t.receive_buffer ≡ bss)

  module _ (floats : FloatOps) (millis : ℕ) where
    pub receive_open :
        (bs : Bytes) (rest : List Bytes) (peer : SyncManager MemoryTransport) (counter : ℕ)
        → IsOpenAt (bs ∷ rest) peer.transport
        → receive ⦃transport = memory_transport f⦄ floats millis peer counter
          ≡ after_receive ⦃transport = memory_transport f⦄ floats millis
              (decoded (deserialize_message f peer.transport.serializer bs))
              (record peer { transport = record (peer.transport) { receive_buffer = rest } })
              counter
    unfolding receive Memory.receive shifted
    receive_open bs rest peer counter (on, e) = ground (arith, on, e)

  module _ (shown : ComponentData → ComponentData) (floats : FloatOps) (millis : ℕ) where
    -- A caller that calls `receive` a number of times and takes over each event.
    unfoldable pub listen : ℕ → SyncManager MemoryTransport → ℕ → World → World
    unfolding receive
    listen zero peer counter w = w
    listen (suc n) peer counter w =
        let (r, peer', counter') =
          receive ⦃transport = memory_transport f⦄ floats millis peer counter in
        listen n peer' counter' (apply_received shown r w)

    handle-IsSender :
        (header : MessageHeader) (payload : MessagePayload) (peer : SyncManager MemoryTransport)
        (counter : ℕ)
        → IsSender peer.transport
            (handle ⦃transport = memory_transport f⦄ floats millis header payload peer
              counter).1.transport
    unfolding handle transmit
    handle-IsSender header (MessagePayload.snapshot p) peer counter =
        (peer.transport.send_buffer, refl)
    handle-IsSender header (MessagePayload.delta p) peer counter =
        (peer.transport.send_buffer, refl)
    handle-IsSender header MessagePayload.ping peer counter = send-IsSender _ peer.transport
    handle-IsSender header (MessagePayload.error code text) peer counter =
        (peer.transport.send_buffer, refl)
    handle-IsSender header _ peer counter = (peer.transport.send_buffer, refl)

    after_receive-world :
        (r : Result Message) (rest : List Bytes) (peer : SyncManager MemoryTransport) (counter : ℕ)
        (w : World)
        → IsOpenAt rest peer.transport
        → (let (r', peer', counter') =
              after_receive ⦃transport = memory_transport f⦄ floats millis
                (decoded r)
                peer
                counter in
            IsOpenAt rest peer'.transport
            × (peer'.transport.serializer ≡ peer.transport.serializer)
            × (apply_received shown r' w ≡ hear_messages shown (add_decoded f r []) w))
    unfolding after_receive process_message hear_messages
    after_receive-world (err e) rest peer counter w o = (o, refl, refl)
    after_receive-world (ok m) rest peer counter w o =
        let (bss, e) = handle-IsSender m.header m.payload peer counter in
        rw e (
          o,
          refl,
          apply_received-as_some shown
                (process_message ⦃transport = memory_transport f⦄ floats millis m peer counter).0 w
              ∙ process_message-hear_payload ⦃line = memory_transport f⦄ shown floats millis m peer
                  counter w,
        )

    hear_messages-add_decoded :
        (r : Result Message) (ms : List Message) (w : World)
        → hear_messages shown ms (hear_messages shown (add_decoded f r []) w)
          ≡ hear_messages shown (add_decoded f r ms) w
    unfolding hear_messages
    hear_messages-add_decoded (ok m) ms w = refl
    hear_messages-add_decoded (err e) ms w = refl

    -- Of a peer whose transport has so many encoded messages to receive, as many calls of `receive`
    -- do to the world what the messages that decode do.
    listen-hear_messages :
        (bss : List Bytes) (peer : SyncManager MemoryTransport) (counter : ℕ) (w : World)
        → IsOpenAt bss peer.transport
        → listen (length bss) peer counter w
          ≡ hear_messages shown (decode_all f peer.transport.serializer bss) w
    unfolding listen hear_messages decode_all
    listen-hear_messages [] peer counter w o = refl
    listen-hear_messages (bs ∷ rest) peer counter w (on, e) =
        let t = peer.transport in
        let r = deserialize_message f t.serializer bs in
        let peer' = record peer { transport = record t { receive_buffer = rest } } in
        let heard =
          apply_received shown
            (after_receive ⦃transport = memory_transport f⦄ floats millis (decoded r) peer'
              counter).0
            w in
        let (o, same, world) = after_receive-world r rest peer' counter w (on, refl) in
        let decoded_rest = decode_all f t.serializer rest in
        ap (λ x. listen (length rest) x.1 x.2 (apply_received shown x.0 w))
          (receive_open floats millis bs rest peer counter (on, e))
        ∙ listen-hear_messages rest _ _ _ o
        ∙ ap (λ s. hear_messages shown (decode_all f s rest) heard) same
        ∙ ap (hear_messages shown decoded_rest) world
        ∙ hear_messages-add_decoded r decoded_rest w

module _ (f : Formats Message) (floats : FloatOps) (json : SerdeJson)
    (order : HashOrder ComponentId SerializedComponent)
    (entities : HashOrder EntityId SerializedEntity) where
  -- A manager over a new memory transport sends the delta of each snapshot in turn.
  abbrev pub sent_over :
      BinaryFormat
      → SyncConfig
      → List (Clocks × WorldSnapshot)
      → ℕ
      → List (Result (Unit {0})) × SyncManager MemoryTransport × ℕ
  sent_over format config turns counter =
      send_deltas ⦃transport = memory_transport f⦄ floats json order entities turns
        (new (Memory.new format) config) counter

  -- The same with a record of what is sent.
  abbrev recorded_over :
      BinaryFormat
      → SyncConfig
      → List (Clocks × WorldSnapshot)
      → ℕ
      → List (Result (Unit {0})) × SyncManager (MemoryTransport × List Message) × ℕ
  recorded_over format config turns counter =
      send_deltas ⦃transport = recording (memory_transport f)⦄ floats json order entities turns
        (new (Memory.new format, []) config) counter

  -- The messages that are sent with success.
  abbrev pub said_over :
      BinaryFormat → SyncConfig → List (Clocks × WorldSnapshot) → ℕ → List Message
  said_over format config turns counter = (recorded_over format config turns counter).1.transport.1

  recorded_over-forget :
      (format : BinaryFormat) (config : SyncConfig) (turns : List (Clocks × WorldSnapshot))
      (counter : ℕ)
      → ((recorded_over format config turns counter).0 ≡ (sent_over format config turns counter).0)
        × ((recorded_over format config turns counter).1.transport.0
            ≡ (sent_over format config turns counter).1.transport)
  unfolding new
  recorded_over-forget format config turns counter =
      let e =
        send_deltas-forget (memory_transport f) floats json order entities turns
          (new (Memory.new format, []) config) counter in
      (ap (λ z. z.0) e, ap (λ z. z.1.transport) e)

  -- Of a manager over a new memory transport, what a peer decodes of the send buffer is what was
  -- sent, if the format takes back each of these messages.
  decode-said_over :
      (format : BinaryFormat) (config : SyncConfig) (turns : List (Clocks × WorldSnapshot))
      (counter : ℕ)
      → All (TakesBack f (record { format = format })) (said_over format config turns counter)
      → decode_all f
          (record { format = format })
          (sent_over format config turns counter).1.transport.send_buffer
        ≡ said_over format config turns counter
  unfolding new
  decode-said_over format config turns counter back =
      let s : BinarySerializer = record { format = format } in
      let (same, encoded) =
        send_deltas-kept ⦃transport = recording (memory_transport f)⦄ (IsBuffered f s)
          (λ m t. send-IsBuffered f s m t.0 t.1) floats json order entities turns
          (new (Memory.new format, []) config) counter (refl, tt) in
      ap (λ t. decode_all f s t.send_buffer)
        (sym (recorded_over-forget format config turns counter).1)
      ∙ decode_all-IsEncoded f s _ _ encoded back

  -- Two managers over memory transports of the same format, which are connected after the first has
  -- sent its deltas. Each of these was a success, the format takes back each message that was sent,
  -- and the structured components of the snapshots have each field once; of the JSON parser, an
  -- object has each key once, and its values are equal only if their conversions are. The peer calls
  -- `receive` once for each encoded message, and starts from no world: then it has the world of the
  -- last snapshot, up to `Null` for a field that is gone and the `==` of values; with field
  -- compression, a world shows the members of a JSON text that is an object.
  pub listen-SameWorld :
      HasUniqueKeys json
      → HasEquality json
      → (millis : ℕ) (format : BinaryFormat) (config config' : SyncConfig)
        (turn : Clocks × WorldSnapshot) (turns : List (Clocks × WorldSnapshot)) (counter number : ℕ)
      → All
          (TakesBack f (record { format = format }))
          (said_over format config (turn ∷ turns) counter)
      → All (λ a. IsDiffableSnapshot a.1) (turn ∷ turns)
      → All (λ r. r ≡ ok tt) (sent_over format config (turn ∷ turns) counter).0
      → (let shown = content json (with_enabled config.enable_field_compression) in
          let m = (sent_over format config (turn ∷ turns) counter).1 in
          let (mine, theirs) = connect_to m.transport (Memory.new format) in
          SameWorld
            (listen f shown floats millis
              (length theirs.receive_buffer)
              (new theirs config')
              number
              nowhere)
            (view shown (last turn.1 (map (λ a. a.1) turns))))
  unfolding connect_to new decode_all
  listen-SameWorld keys eq millis format config config' turn turns counter number back h k =
      let shown = content json (with_enabled config.enable_field_compression) in
      let m = (sent_over format config (turn ∷ turns) counter).1 in
      let theirs = (connect_to m.transport (Memory.new format)).1 in
      let said = said_over format config (turn ∷ turns) counter in
      let heard =
        hear-hear_messages ⦃line = memory_transport f⦄ shown floats millis said (new theirs config')
          number nowhere in
      let listened =
        listen-hear_messages f shown floats millis m.transport.send_buffer (new theirs config')
          number nowhere (refl, refl) in
      subst (λ w. SameWorld w (view shown (last turn.1 (map (λ a. a.1) turns))))
        (heard
          ∙ ap (λ ms. hear_messages shown ms nowhere)
              (sym (decode-said_over format config (turn ∷ turns) counter back))
          ∙ sym listened)
        (send_deltas-SameWorld ⦃transport = recording (memory_transport f)⦄
          (record_log (memory_transport f)) floats json keys eq order entities
          ⦃line = memory_transport f⦄ millis (new theirs config') number (Memory.new format, [])
          config turn turns counter refl h
          (subst (All (λ r. r ≡ ok tt))
            (sym (recorded_over-forget format config (turn ∷ turns) counter).0) k))
