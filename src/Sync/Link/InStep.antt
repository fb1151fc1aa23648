-- ===== src/Sync/Link/InStep.antt =====
-- Whatever steps a manager and its peer take, what is on its way brings the peer up to date.
use tx2_link.Common.{
  ℕ, ◌+◌, ◌≡◌, sym, ap, ◌∙◌, subst, some, some_inj, List, ◌∷◌, length, length-append,
  drop-append_le, drop-cons, inl, inr, arith,
}
use tx2_link.Common.Maps.{HashOrder, get, string_key, nat_key}
use tx2_link.Float.{FloatOps}
use tx2_link.Protocol.{
  EntityId, ComponentId, ComponentData, SerializedComponent, SerializedEntity, Message,
}
use tx2_link.Serialization.{WorldSnapshot}
use tx2_link.Compression.Json.{SerdeJson}
use tx2_link.Compression.Field.{FieldCompressor}
use tx2_link.Compression.Delta.{DeltaCompressor, by_id, changes_since}
use tx2_link.Compression.World.{World, view, replay, components_of, map_some, SameWorld}
use tx2_link.Compression.Replay.Json.{HasUniqueKeys, HasEquality}
use tx2_link.Compression.Replay.Content.{content}
use tx2_link.Compression.Replay.Whole.{IsDiffableSnapshot}
use tx2_link.Compression.Replay.Follow.{
  assumed, IsDiffableBase, changes_since-SameWorld, SameWorld-refl,
}
use tx2_link.Transport.{Transport}
use tx2_link.Sync.{SyncManager}
use tx2_link.Sync.Receive.{process_message}
use tx2_link.Sync.Logged.{MessageLog}
use tx2_link.Sync.Hears.{
  apply_event, hear_messages, hear_messages-append, process_message-hear_payload,
}
use tx2_link.Sync.Said.{Effect, IsSaid, send_delta-IsSaid}
use tx2_link.Sync.Remarks.{
  SaysNothing, request_snapshot-SaysNothing, send_ack-SaysNothing, ping-SaysNothing,
  refused-SaysNothing, receive-SaysNothing, send_snapshot-IsSaid,
}
use tx2_link.Sync.Link.{
  Link, Step, sends_delta, is_refused, repeats, asks, acknowledges, pings, receives, hears, acts,
  Reach, here, next, on_their_way, IsInStep,
}

view-entities :
    (shown : ComponentData → ComponentData) (s base : WorldSnapshot)
    → s.entities ≡ base.entities
    → view shown s ≡ view shown base
unfolding view
view-entities shown s base e = ap (λ es. λ i. map_some (components_of shown) (get i (by_id es))) e

delta-SameWorld :
    (json : SerdeJson) (f : FieldCompressor)
    → HasUniqueKeys json
    → HasEquality json
    → (order : HashOrder ComponentId SerializedComponent)
      (entities : HashOrder EntityId SerializedEntity) (c : DeltaCompressor) (s : WorldSnapshot)
      (w : World)
    → c.field_compressor ≡ f
    → IsDiffableBase c
    → IsDiffableSnapshot s
    → SameWorld w (assumed (content json f) c.previous_snapshot)
    → SameWorld
        (replay
          (content json f)
          (changes_since json order entities c.field_compressor c.previous_snapshot s)
          w)
        (view (content json f) s)
delta-SameWorld json f keys eq order entities c s w e d h same =
    subst
      (λ z.
        SameWorld
          (replay (content json z)
            (changes_since json order entities c.field_compressor c.previous_snapshot s) w)
          (view (content json z) s))
      e
      (changes_since-SameWorld json keys eq order entities c c.previous_snapshot s w d h
        (rw e same))

module _ {T P : Type 0} ⦃transport : Transport T⦄ ⦃line : Transport P⦄ (log : MessageLog T)
    (floats : FloatOps) (json : SerdeJson) (f : FieldCompressor) where
  said-IsInStep :
      (l : Link T P) (m : SyncManager T) (effect : Effect) (c : DeltaCompressor)
      → IsSaid log effect c l.sender m
      → c.field_compressor ≡ f
      → IsDiffableBase c
      → ((w : World)
          → SameWorld w (assumed (content json f) l.sender.delta_compressor.previous_snapshot)
          → SameWorld (effect (content json f) w) (assumed (content json f) c.previous_snapshot))
      → IsInStep log floats json f l
      → IsInStep log floats json f (record l { sender = m })
  said-IsInStep l m effect c said same base follows i = record {
    compressing = ap (λ z. z.field_compressor) said.compressor ∙ same;
    base = subst IsDiffableBase (sym said.compressor) base;
    within = omega (
      arith,
      ap length said.grown,
      length-append (log.sent l.sender.transport) said.messages,
      i.within,
    );
    following =
        let before = log.sent l.sender.transport in
        rw
          (
            said.grown,
            said.compressor,
            drop-append_le l.processed before said.messages i.within,
            hear_messages-append (content json f) (on_their_way log floats json f l) said.messages
                l.world,
            said.taken (content json f)
                (hear_messages (content json f) (on_their_way log floats json f l) l.world),
          )
          (follows _ i.following);
  }

  silence-IsInStep :
      (l : Link T P) (m : SyncManager T)
      → SaysNothing log l.sender m
      → IsInStep log floats json f l
      → IsInStep log floats json f (record l { sender = m })
  silence-IsInStep l m said i =
      said-IsInStep l m _ l.sender.delta_compressor said i.compressing i.base (λ w same. same) i

  hears-IsInStep :
      (l : Link T P) (millis counter : ℕ) (message : Message) (rest : List Message)
      → on_their_way log floats json f l ≡ message ∷ rest
      → (p : SyncManager P) → IsInStep log floats json f l
      → IsInStep log floats json f (record l {
        peer = p;
        processed = l.processed + 1;
        world =
            apply_event
              (content json f)
              (process_message floats millis message l.peer counter).0
              l.world;
      })
  unfolding hear_messages
  hears-IsInStep l millis counter message rest e p i =
      let (left, le) = drop-cons l.processed (log.sent l.sender.transport) e in
      record {
        compressing = i.compressing;
        base = i.base;
        within = le;
        following =
            rw
              (
                left,
                process_message-hear_payload ⦃line = line⦄ (content json f) floats millis message
                    l.peer counter l.world,
              )
              (rw e at i.following);
      }

  Step-IsInStep :
      HasUniqueKeys json
      → HasEquality json
      → {l m : Link T P} → Step log floats json f l m
      → IsInStep log floats json f l
      → IsInStep log floats json f m
  Step-IsInStep keys eq (sends_delta l order entities now s counter h k) i =
      let c = l.sender.delta_compressor in
      said-IsInStep l _ _ (record c { previous_snapshot = some s })
        (send_delta-IsSaid log floats json order entities now s l.sender counter k) i.compressing
        (λ p q. subst IsDiffableSnapshot (some_inj.0 q) h)
        (λ w same. delta-SameWorld json f keys eq order entities c s w i.compressing i.base h same)
        i
  Step-IsInStep keys eq (is_refused l order entities now s counter off) i =
      silence-IsInStep l _
        (refused-SaysNothing log floats json order entities now s l.sender counter off) i
  Step-IsInStep keys eq (repeats l now s base counter e same) i =
      elim (send_snapshot-IsSaid log now s l.sender counter) [
        | inl said ↦
            said-IsInStep l _ _ l.sender.delta_compressor said i.compressing i.base
              (λ w q.
                rw (e, view-entities (content json f) s base same)
                  (SameWorld-refl (view (content json f) base)))
              i
        | inr said ↦ silence-IsInStep l _ said i
      ]
  Step-IsInStep keys eq (asks l millis counter) i =
      silence-IsInStep l _ (request_snapshot-SaysNothing log millis l.sender counter) i
  Step-IsInStep keys eq (acknowledges l id millis counter) i =
      silence-IsInStep l _ (send_ack-SaysNothing log millis l.sender counter id) i
  Step-IsInStep keys eq (pings l millis counter) i =
      silence-IsInStep l _ (ping-SaysNothing log millis l.sender counter) i
  Step-IsInStep keys eq (receives l millis counter h) i =
      silence-IsInStep l _ (receive-SaysNothing log floats millis l.sender counter h) i
  Step-IsInStep keys eq (hears l millis counter message rest e) i =
      hears-IsInStep l millis counter message rest e _ i
  Step-IsInStep keys eq (acts l peer) i = record {
    compressing = i.compressing;
    base = i.base;
    within = i.within;
    following = i.following;
  }

  pub Reach-IsInStep :
      HasUniqueKeys json
      → HasEquality json
      → {l m : Link T P} → IsInStep log floats json f l
      → Reach log floats json f l m
      → IsInStep log floats json f m
  Reach-IsInStep keys eq i here = i
  Reach-IsInStep keys eq i (next r x) = Step-IsInStep keys eq x (Reach-IsInStep keys eq i r)
