-- ===== src/Sync/Link/CaughtUp.antt =====
-- A peer that has processed all that was sent has the sender's world, and can always get there.
use tx2_link.Common.{◌≡◌, refl, subst, List, [], ◌∷◌, drop-cons, arith}
use tx2_link.Common.Maps.{string_key, nat_key}
use tx2_link.Float.{FloatOps}
use tx2_link.Protocol.{Message}
use tx2_link.Compression.Json.{SerdeJson}
use tx2_link.Compression.Field.{FieldCompressor, with_enabled}
use tx2_link.Compression.World.{nowhere, SameWorld}
use tx2_link.Compression.Replay.Json.{HasUniqueKeys, HasEquality}
use tx2_link.Compression.Replay.Content.{content}
use tx2_link.Compression.Replay.Follow.{assumed, SameWorld-refl}
use tx2_link.Transport.{Transport}
use tx2_link.Sync.{SyncConfig, SyncManager, new}
use tx2_link.Sync.Logged.{MessageLog}
use tx2_link.Sync.Hears.{hear_messages}
use tx2_link.Sync.Link.{Link, hears, Reach, next, last_told, on_their_way, IsInStep}
use tx2_link.Sync.Link.InStep.{Reach-IsInStep}
use tx2_link.Sync.Link.Told.{Reach-stored}

module _ {T P : Type 0} ⦃transport : Transport T⦄ ⦃line : Transport P⦄ (log : MessageLog T)
    (floats : FloatOps) (json : SerdeJson) where
  -- A new manager over a transport with an empty log, any peer, and no world.
  abbrev pub starts : T → SyncConfig → SyncManager P → Link T P
  starts t config peer = record {
    sender = new t config;
    peer = peer;
    processed = 0;
    world = nowhere;
  }

  -- From a new manager over a transport with an empty log, a peer in any state and the empty world, let
  -- the two take any steps, in any order. Whenever the peer has processed all that was sent, its world
  -- is that of the snapshot of the last `send_delta` that succeeded, and empty if there was none. Up to
  -- `Null` for a field that is gone and the `==` of values; with field compression, a world shows the
  -- members of a JSON text that is an object. The structured components have each field once; of the
  -- JSON parser, an object has each key once, and its values are equal only if their conversions are.
  pub caught_up-SameWorld :
      HasUniqueKeys json
      → HasEquality json
      → (t : T) (config : SyncConfig) (peer : SyncManager P) (l : Link T P)
        (r : Reach log floats json
          (with_enabled config.enable_field_compression)
          (starts t config peer)
          l)
      → log.sent t ≡ []
      → on_their_way log floats json (with_enabled config.enable_field_compression) l ≡ []
      → (let f = with_enabled config.enable_field_compression in
          SameWorld l.world (assumed (content json f) (last_told log floats json f r)))
  unfolding new hear_messages
  caught_up-SameWorld keys eq t config peer l r empty done =
      let f = with_enabled config.enable_field_compression in
      let start : IsInStep log floats json f (starts t config peer) = record {
        compressing = refl;
        base = λ p e. absurd (ground arith);
        within = omega arith;
        following = rw empty (SameWorld-refl nowhere);
      } in
      let i = Reach-IsInStep log floats json f keys eq start r in
      let stored = Reach-stored log floats json f refl r in rw (← stored) (rw done at i.following)

module _ {T P : Type 0} ⦃transport : Transport T⦄ ⦃line : Transport P⦄ (log : MessageLog T)
    (floats : FloatOps) (json : SerdeJson) (f : FieldCompressor) {l : Link T P} where
  -- A state that the peer alone can bring about, with nothing on the way.
  pub record CatchesUp {m : Link T P} (r : Reach log floats json f l m) : Type 0 where
    pub later : Link T P
    pub reach : Reach log floats json f l later
    pub idle : on_their_way log floats json f later ≡ []
    pub same_sender : later.sender ≡ m.sender
    pub same_told : last_told log floats json f reach ≡ last_told log floats json f r

  -- The peer processes what is on its way, one message after the other.
  Reach-CatchesUp :
      (ms : List Message) (m : Link T P) (r : Reach log floats json f l m)
      → on_their_way log floats json f m ≡ ms
      → CatchesUp r
  Reach-CatchesUp [] m r e = record {
    later = m;
    reach = r;
    idle = e;
    same_sender = refl;
    same_told = refl;
  }
  Reach-CatchesUp (message ∷ rest) m r e =
      let c =
        Reach-CatchesUp rest _ (next r (hears m 0 0 message rest e))
          (drop-cons m.processed (log.sent m.sender.transport) e).0 in
      record {
        later = c.later;
        reach = c.reach;
        idle = c.idle;
        same_sender = c.same_sender;
        same_told = c.same_told;
      }

module _ {T P : Type 0} ⦃transport : Transport T⦄ ⦃line : Transport P⦄ (log : MessageLog T)
    (floats : FloatOps) (json : SerdeJson) where
  -- From every state that such a run reaches, one can be reached with the sender as it is where the
  -- peer has processed all that was sent and has the world of the snapshot of the last `send_delta`
  -- that succeeded: the peer can always catch up. Under the conditions on the snapshots and the parser
  -- above, and up to the same.
  pub catches_up :
      HasUniqueKeys json
      → HasEquality json
      → (t : T) (config : SyncConfig) (peer : SyncManager P) (l : Link T P)
        (r : Reach log floats json
          (with_enabled config.enable_field_compression)
          (starts log floats json t config peer)
          l)
      → log.sent t ≡ []
      → (let f = with_enabled config.enable_field_compression in
          (c : CatchesUp log floats json f r) × SameWorld c.later.world
            (assumed (content json f) (last_told log floats json f r)))
  catches_up keys eq t config peer l r empty =
      let f = with_enabled config.enable_field_compression in
      let c = Reach-CatchesUp log floats json f (on_their_way log floats json f l) l r refl in
      (
        c,
        subst (λ o. SameWorld c.later.world (assumed (content json f) o)) c.same_told
            (caught_up-SameWorld log floats json keys eq t config peer c.later c.reach empty
              c.idle),
      )
