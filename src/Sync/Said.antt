-- ===== src/Sync/Said.antt =====
-- What a `send_delta` that succeeds puts into the log of the transport, and how a hearer takes it.
use tx2_link.Common.{
  ℕ, ◌≡◌, refl, sym, ap, ◌∙◌, some, List, [], ◌∷◌, ◌++◌, append-nil, Bool-cases, inl, inr, arith,
}
use tx2_link.Common.Maps.{HashOrder, replay_by, string_key, nat_key}
use tx2_link.Error.{ok}
use tx2_link.Float.{FloatOps}
use tx2_link.Protocol.{
  EntityId, ComponentId, ComponentData, SerializedComponent, SerializedEntity, DeltaChange, Message,
}
use tx2_link.Protocol.Messages as Messages
use tx2_link.Serialization.{WorldSnapshot}
use tx2_link.Serialization as Wire
use tx2_link.Compression.Json.{SerdeJson}
use tx2_link.Compression.Delta.{DeltaCompressor, create_delta, changes_since}
use tx2_link.Compression.World.{World, replay}
use tx2_link.Transport.{Transport}
use tx2_link.Sync.{SyncManager, is_connected}
use tx2_link.Sync.Send.{Clocks, base_millis, post, send_changes, send_delta}
use tx2_link.Sync.Logged.{MessageLog, post-IsPosted, posted_ok}
use tx2_link.Sync.Hears.{
  hear, hear_payload, hear_messages, hear_messages-append, hear-hear_messages,
}

hear-delta_message :
    (shown : ComponentData → ComponentData) (changes : List DeltaChange)
    (base version clock number : ℕ) (w : World)
    → hear_messages shown ((Messages.delta changes base version clock number).0 ∷ []) w
      ≡ replay shown changes w
unfolding hear_messages hear_payload Messages.delta Messages.new
hear-delta_message shown changes base version clock number w = refl

-- What happens to a world, given what it shows of a component.
abbrev pub Effect : Type 0
Effect = (ComponentData → ComponentData) → World → World

-- A hearer replays changes, or keeps its world.
abbrev pub replays : List DeltaChange → Effect
replays changes shown w = replay shown changes w

abbrev pub untouched : Effect
untouched shown w = w

module _ {T : Type 0} ⦃transport : Transport T⦄ (log : MessageLog T) where
  -- Messages that the log has grown by, with what they do to a hearer's world; and the compressor.
  pub record IsSaid (effect : Effect) (c : DeltaCompressor) (m m' : SyncManager T) : Type 0 where
    pub messages : List Message
    pub grown : log.sent m'.transport ≡ log.sent m.transport ++ messages
    pub taken :
        (shown : ComponentData → ComponentData) (w : World)
        → hear_messages shown messages w ≡ effect shown w
    pub compressor : m'.delta_compressor ≡ c

  pub IsSaid-heard :
      {P : Type 0} ⦃line : Transport P⦄ (floats : FloatOps) (millis : ℕ) {effect : Effect}
      {c : DeltaCompressor} {m m' : SyncManager T}
      → IsSaid effect c m m'
      → (shown : ComponentData → ComponentData) (peer : SyncManager P) (number : ℕ) (w : World)
      → hear shown floats millis (log.sent m'.transport) peer number w
        ≡ effect shown (hear shown floats millis (log.sent m.transport) peer number w)
  IsSaid-heard floats millis {effect} {c} {m} {m'} said shown peer number w =
      let before = log.sent m.transport in
      ap (λ ms. hear shown floats millis ms peer number w) said.grown
      ∙ hear-hear_messages shown floats millis (before ++ said.messages) peer number w
      ∙ hear_messages-append shown before said.messages w
      ∙ said.taken shown (hear_messages shown before w)
      ∙ ap (effect shown) (sym (hear-hear_messages shown floats millis before peer number w))

  module _ (floats : FloatOps) (json : SerdeJson)
      (order : HashOrder ComponentId SerializedComponent)
      (entities : HashOrder EntityId SerializedEntity) (now : Clocks) where
    send_changes-IsSaid :
        (delta : Wire.Delta) (changes : List DeltaChange) (m : SyncManager T) (counter : ℕ)
        → (send_changes floats json order entities now delta changes m counter).0 ≡ ok tt
        → IsSaid
            (replays changes)
            m.delta_compressor
            m
            (send_changes floats json order entities now delta changes m counter).1
    unfolding send_changes hear_messages replay replay_by
    send_changes-IsSaid delta [] m counter h = record {
      messages = [];
      grown = sym (append-nil (log.sent m.transport));
      taken = λ shown w. refl;
      compressor = refl;
    }
    send_changes-IsSaid delta (c ∷ cs) m counter h =
        let base = base_millis floats delta.base_timestamp in
        let message = (Messages.delta (c ∷ cs) base m.schema_version now.millis counter).0 in
        let (e, q) =
          posted_ok log now message m (post now message m) (post-IsPosted log now message m) h in
        record {
          messages = message ∷ [];
          grown = e;
          taken = λ shown w.
              hear-delta_message shown (c ∷ cs) base m.schema_version now.millis counter w;
          compressor = q;
        }

    pub send_delta-IsSaid :
        (s : WorldSnapshot) (m : SyncManager T) (counter : ℕ)
        → (send_delta floats json order entities now s m counter).0 ≡ ok tt
        → (let c = m.delta_compressor in
            IsSaid
              (replays (changes_since json order entities c.field_compressor c.previous_snapshot s))
              (record c { previous_snapshot = some s })
              m
              (send_delta floats json order entities now s m counter).1)
    unfolding send_delta create_delta
    send_delta-IsSaid s m counter k = elim (Bool-cases (is_connected m)) [
      | inl on ↦
          let c = m.delta_compressor in
          let changes =
            changes_since json order entities c.field_compressor c.previous_snapshot s in
          let delta = (create_delta json order entities s c).0 in
          let m' = record m { delta_compressor = record c { previous_snapshot = some s } } in
          let said = send_changes-IsSaid delta changes m' counter (rw (send_delta, on) at k) in
          rw (send_delta, on)
            (record {
              messages = said.messages;
              grown = said.grown;
              taken = said.taken;
              compressor = said.compressor;
            })
      | inr off ↦ absurd (ground (arith, rw (send_delta, off) at k))
    ]
