-- ===== src/Sync/Kept.antt =====
-- What the sending methods keep is what the transport's `send` keeps.
use tx2_link.Common.{
  ℕ, ◌≡◌, refl, sym, subst, List, [], ◌∷◌, Bool-cases, Option-cases, inl, inr, arith,
}
use tx2_link.Common.Maps.{HashOrder, string_key, nat_key}
use tx2_link.Error.{Result, ok, err}
use tx2_link.Float.{FloatOps}
use tx2_link.Protocol.{
  EntityId, ComponentId, SerializedComponent, SerializedEntity, DeltaChange, Message,
}
use tx2_link.Serialization.{WorldSnapshot}
use tx2_link.Serialization as Wire
use tx2_link.Compression.Json.{SerdeJson}
use tx2_link.Compression.Delta.{create_delta}
use tx2_link.Transport.{Transport}
use tx2_link.Sync.{SyncManager, is_connected}
use tx2_link.Sync.Send.{
  Clocks, count_attempt, count_sync, limit, transmit, after_limit, post, send_changes, send_delta,
}
use tx2_link.Sync.Follow.{send_deltas}

module _ {T : Type 0} ⦃transport : Transport T⦄ (Q : T → Type 0)
    (keeps : (message : Message) (t : T) → Q t → Q (transport.send message t).1) where
  limit-kept : (now : ℕ) (m : SyncManager T) → (limit now m).1.transport ≡ m.transport
  unfolding limit
  limit-kept now m = elim (Option-cases m.rate_limiter) [
    | inl none_here ↦ ground (arith, none_here)
    | inr (l, here) ↦ ground (arith, here)
  ]

  count_sync-kept :
      (now : ℕ) (r : Result (Unit {0})) (m : SyncManager T)
      → (count_sync now r m).transport ≡ m.transport
  count_sync-kept now (ok u) m = refl
  count_sync-kept now (err e) m = refl

  after_limit-kept :
      (now : Clocks) (message : Message) (r : Result (Unit {0})) (m : SyncManager T)
      → Q m.transport
      → Q (after_limit now message r m).1.transport
  unfolding after_limit transmit
  after_limit-kept now message (err e) m q = q
  after_limit-kept now message (ok u) m q =
      let (r, t) = transport.send message m.transport in
      subst Q (sym (count_sync-kept now.at_sync r (record m { transport = t })))
        (keeps message m.transport q)

  post-kept :
      (now : Clocks) (message : Message) (m : SyncManager T)
      → Q m.transport
      → Q (post now message m).1.transport
  unfolding post
  post-kept now message m q =
      let (r, m') = limit now.at_limiter m in
      after_limit-kept now message r m' (subst Q (sym (limit-kept now.at_limiter m)) q)

  count_attempt-kept : (m : SyncManager T) → (count_attempt m).transport ≡ m.transport
  unfolding count_attempt
  count_attempt-kept m = ground arith

  module _ (floats : FloatOps) (json : SerdeJson)
      (order : HashOrder ComponentId SerializedComponent)
      (entities : HashOrder EntityId SerializedEntity) where
    send_changes-kept :
        (now : Clocks) (delta : Wire.Delta) (changes : List DeltaChange) (m : SyncManager T)
        (counter : ℕ)
        → Q m.transport
        → Q (send_changes floats json order entities now delta changes m counter).1.transport
    unfolding send_changes
    send_changes-kept now delta [] m counter q = q
    send_changes-kept now delta (c ∷ cs) m counter q = post-kept now _ m q

    send_delta-kept :
        (now : Clocks) (s : WorldSnapshot) (m : SyncManager T) (counter : ℕ)
        → Q m.transport
        → Q (send_delta floats json order entities now s m counter).1.transport
    unfolding send_delta create_delta
    send_delta-kept now s m counter q = elim (Bool-cases (is_connected m)) [
      | inl on ↦
          let (delta, compressor) = create_delta json order entities s m.delta_compressor in
          rw (send_delta, on)
            (send_changes-kept now delta delta.changes (record m { delta_compressor = compressor })
              counter q)
      | inr off ↦ rw (send_delta, off) (subst Q (sym (count_attempt-kept m)) q)
    ]

    pub send_deltas-kept :
        (turns : List (Clocks × WorldSnapshot)) (m : SyncManager T) (counter : ℕ)
        → Q m.transport
        → Q (send_deltas floats json order entities turns m counter).1.transport
    unfolding send_deltas
    send_deltas-kept [] m counter q = q
    send_deltas-kept ((now, s) ∷ turns) m counter q =
        let (r, m', counter') = send_delta floats json order entities now s m counter in
        send_deltas-kept turns m' counter' (send_delta-kept now s m counter q)
