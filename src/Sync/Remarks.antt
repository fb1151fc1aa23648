-- ===== src/Sync/Remarks.antt =====
-- The steps of a manager that leave the world of a hearer as it is: what they put into the log, if
-- anything, is neither a snapshot nor a delta.
use tx2_link.Common.{
  ℕ, ◌≡◌, refl, sym, ap, ◌∙◌, Option, none, some, [], ◌∷◌, ◌++◌, ◌⊎◌, append-nil, Bool-cases, inl,
  inr, false, arith,
}
use tx2_link.Common.Maps.{HashOrder, string_key, nat_key}
use tx2_link.Error.{Result, ok, err}
use tx2_link.Float.{FloatOps}
use tx2_link.Protocol.{
  EntityId, ComponentId, ComponentData, SerializedComponent, SerializedEntity, Message,
  MessageHeader, MessagePayload,
}
use tx2_link.Protocol.Messages as Messages
use tx2_link.Serialization.{WorldSnapshot}
use tx2_link.Compression.Json.{SerdeJson}
use tx2_link.Compression.World.{World, view}
use tx2_link.Transport.{Transport}
use tx2_link.Sync.{SyncManager, is_connected}
use tx2_link.Sync.Send.{
  Clocks, count_attempt, transmit, post, send_snapshot, send_delta, request_snapshot, send_ack,
  ping,
}
use tx2_link.Sync.Receive.{SyncEvent, as_some, handle, process_message, after_receive, receive}
use tx2_link.Sync.Logged.{MessageLog, IsLogged, IsPosted, post-IsPosted}
use tx2_link.Sync.Hears.{hear_payload, hear_messages, hear-snapshot}
use tx2_link.Sync.Said.{Effect, IsSaid, untouched}

-- A hearer of a snapshot has its world.
abbrev pub shows : WorldSnapshot → Effect
shows s shown w = view shown s

-- What was received is no snapshot.
abbrev pub IsNoSnapshot : Result (Option SyncEvent) → Type 0
IsNoSnapshot (ok (some (SyncEvent.snapshot s))) = ⊥
IsNoSnapshot _ = Unit

module _ {T : Type 0} ⦃transport : Transport T⦄ (log : MessageLog T) where
  abbrev pub SaysNothing : SyncManager T → SyncManager T → Type 0
  SaysNothing m m' = IsSaid log untouched m.delta_compressor m m'

  silent :
      (m m' : SyncManager T)
      → log.sent m'.transport ≡ log.sent m.transport
      → m'.delta_compressor ≡ m.delta_compressor
      → SaysNothing m m'
  unfolding hear_messages
  silent m m' e q = record {
    messages = [];
    grown = e ∙ sym (append-nil (log.sent m.transport));
    taken = λ shown w. refl;
    compressor = q;
  }

  pub transmit-SaysNothing :
      (message : Message) (m : SyncManager T)
      → ((shown : ComponentData → ComponentData) (w : World)
          → hear_payload shown message.payload w ≡ w)
      → SaysNothing m (transmit message m).1
  unfolding transmit hear_messages
  transmit-SaysNothing message m quiet =
      sent_or_not (transport.send message m.transport) (log.logs message m.transport)
    where
      sent_or_not :
          (p : Result (Unit {0}) × T)
          → IsLogged log.sent message m.transport p
          → SaysNothing m (record m { transport = p.1 })
      sent_or_not (ok u, t) l = record {
        messages = message ∷ [];
        grown = l;
        taken = quiet;
        compressor = refl;
      }
      sent_or_not (err e, t) l = silent m (record m { transport = t }) l refl

  module _ (millis : ℕ) (m : SyncManager T) (counter : ℕ) where
    pub request_snapshot-SaysNothing : SaysNothing m (request_snapshot millis m counter).1
    unfolding request_snapshot hear_payload Messages.request_snapshot
    request_snapshot-SaysNothing = transmit-SaysNothing _ m (λ shown w. refl)

    pub send_ack-SaysNothing : (id : ℕ) → SaysNothing m (send_ack id millis m counter).1
    unfolding send_ack hear_payload Messages.ack
    send_ack-SaysNothing id = transmit-SaysNothing _ m (λ shown w. refl)

    pub ping-SaysNothing : SaysNothing m (ping millis m counter).1
    unfolding ping hear_payload Messages.ping
    ping-SaysNothing = transmit-SaysNothing _ m (λ shown w. refl)

  count_attempt-same :
      (m : SyncManager T)
      → ((count_attempt m).transport ≡ m.transport)
        × ((count_attempt m).delta_compressor ≡ m.delta_compressor)
  unfolding count_attempt
  count_attempt-same m = (ground arith, ground arith)

  -- A snapshot is sent, or nothing is.
  pub send_snapshot-IsSaid :
      (now : Clocks) (s : WorldSnapshot) (m : SyncManager T) (counter : ℕ)
      → IsSaid log (shows s) m.delta_compressor m (send_snapshot now s m counter).1
        ⊎ SaysNothing m (send_snapshot now s m counter).1
  unfolding send_snapshot
  send_snapshot-IsSaid now s m counter = elim (Bool-cases (is_connected m)) [
    | inl on ↦
        let message =
          (Messages.snapshot s.entities s.timestamp m.schema_version now.millis counter).0 in
        rw (send_snapshot, on)
          (posted message (post now message m) (post-IsPosted log now message m)
            (λ shown w. hear-snapshot shown s m.schema_version now.millis counter w))
    | inr off ↦
        let (e, q) = count_attempt-same m in
        rw (send_snapshot, off) (inr (silent m (count_attempt m) (ap log.sent e) q))
  ]
    where
      posted :
          (message : Message) (p : Result (Unit {0}) × SyncManager T)
          → IsPosted log now message m p
          → ((shown : ComponentData → ComponentData) (w : World)
              → hear_messages shown (message ∷ []) w ≡ view shown s)
          → IsSaid log (shows s) m.delta_compressor m p.1 ⊎ SaysNothing m p.1
      posted message (ok u, n) (l, q, c) taken =
          inl (record { messages = message ∷ []; grown = l; taken = taken; compressor = q })
      posted message (err e, n) (l, q, c) taken = inr (silent m n l q)

  pub refused-SaysNothing :
      (floats : FloatOps) (json : SerdeJson) (order : HashOrder ComponentId SerializedComponent)
      (entities : HashOrder EntityId SerializedEntity) (now : Clocks) (s : WorldSnapshot)
      (m : SyncManager T) (counter : ℕ)
      → is_connected m ≡ false
      → SaysNothing m (send_delta floats json order entities now s m counter).1
  unfolding send_delta count_attempt
  refused-SaysNothing floats json order entities now s m counter off =
      let (e, q) = count_attempt-same m in
      rw (send_delta, off) (silent m (count_attempt m) (ap log.sent e) q)

  module _ (floats : FloatOps) (millis : ℕ) where
    handle-SaysNothing :
        (header : MessageHeader) (payload : MessagePayload) (m : SyncManager T) (counter : ℕ)
        → IsNoSnapshot (as_some (handle floats millis header payload m counter).0)
        → SaysNothing m (handle floats millis header payload m counter).1
    unfolding handle hear_payload Messages.pong
    handle-SaysNothing header (MessagePayload.snapshot p) m counter h = absurd h
    handle-SaysNothing header MessagePayload.ping m counter h =
        transmit-SaysNothing _ m (λ shown w. refl)
    handle-SaysNothing header (MessagePayload.error code text) m counter h = silent m _ refl refl
    handle-SaysNothing header _ m counter h = silent m m refl refl

    after_receive-SaysNothing :
        (r : Result (Option Message)) (m : SyncManager T) (counter : ℕ)
        → IsNoSnapshot (after_receive floats millis r m counter).0
        → SaysNothing m (after_receive floats millis r m counter).1
    unfolding after_receive process_message
    after_receive-SaysNothing (err e) m counter h = silent m m refl refl
    after_receive-SaysNothing (ok none) m counter h = silent m m refl refl
    after_receive-SaysNothing (ok (some message)) m counter h =
        handle-SaysNothing message.header message.payload m counter h

    pub receive-SaysNothing :
        (m : SyncManager T) (counter : ℕ)
        → IsNoSnapshot (receive floats millis m counter).0
        → SaysNothing m (receive floats millis m counter).1
    unfolding receive
    receive-SaysNothing m counter h = elim (Bool-cases (is_connected m)) [
      | inl on ↦
          let (r, t) = transport.receive m.transport in
          let said =
            after_receive-SaysNothing r (record m { transport = t }) counter
              (rw (receive, on) at h) in
          rw (receive, on)
            (record {
              messages = said.messages;
              grown = said.grown ∙ ap (λ ms. ms ++ said.messages) (log.kept m.transport);
              taken = said.taken;
              compressor = said.compressor;
            })
      | inr off ↦ rw (receive, off) (silent m m refl refl)
    ]
