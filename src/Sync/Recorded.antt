-- ===== src/Sync/Recorded.antt =====
-- A manager whose transport records what it sends does what it does without the record.
use tx2_link.Common.{
  ℕ, ◌≡◌, refl, ap, ◌∙◌, List, [], ◌∷◌, Bool-cases, Option-cases, inl, inr, arith,
}
use tx2_link.Common.Maps.{HashOrder, string_key, nat_key}
use tx2_link.Error.{Result, ok, err}
use tx2_link.Float.{FloatOps}
use tx2_link.Protocol.{
  EntityId, ComponentId, SerializedComponent, SerializedEntity, DeltaChange, Message,
}
use tx2_link.Serialization.{WorldSnapshot}
use tx2_link.Serialization as Wire
use tx2_link.Compression.Json.{SerdeJson}
use tx2_link.Compression.Delta.{create_delta}
use tx2_link.Transport.{Transport}
use tx2_link.Transport.Recording.{recording, recorded_after}
use tx2_link.Sync.{SyncManager}
use tx2_link.Sync.Send.{
  Clocks, count_attempt, count_sync, limit, transmit, after_limit, post, send_changes, send_delta,
}
use tx2_link.Sync.Logged.{MessageLog, IsLogged}
use tx2_link.Sync.Follow.{send_deltas}

module _ {T : Type 0} (transport : Transport T) where
  instance abbrev with_record : Transport (T × List Message)
  with_record = recording transport

  pub recorded-IsLogged :
      (message : Message) (p : Result (Unit {0}) × T) (t : T) (ms : List Message)
      → IsLogged (λ (z : T × List Message). z.1) message (t, ms) (p.0, recorded_after message p ms)
  recorded-IsLogged message (ok u, t') t ms = refl
  recorded-IsLogged message (err e, t') t ms = refl

  -- The record is a log.
  abbrev pub record_log : MessageLog (T × List Message) ⦃transport = recording transport⦄
  record_log = record {
    sent = λ t. t.1;
    logs = λ message t. recorded-IsLogged message (transport.send message t.0) t.0 t.1;
    kept = λ t. refl;
  }

  abbrev pub forget : SyncManager (T × List Message) → SyncManager T
  forget m = record {
    transport = m.transport.0;
    config = m.config;
    delta_compressor = m.delta_compressor;
    rate_limiter = m.rate_limiter;
    schema_registry = m.schema_registry;
    last_sync = m.last_sync;
    sync_count = m.sync_count;
    error_count = m.error_count;
    reconnect_attempts = m.reconnect_attempts;
    schema_version = m.schema_version;
  }

  limit-forget :
      (now : ℕ) (m : SyncManager (T × List Message))
      → ((limit now m).0, forget (limit now m).1) ≡ limit ⦃transport = transport⦄ now (forget m)
  unfolding limit
  limit-forget now m = elim (Option-cases m.rate_limiter) [
    | inl none_here ↦ ground (arith, none_here)
    | inr (l, here) ↦ ground (arith, here)
  ]

  count_sync-forget :
      (now : ℕ) (message : Message) (p : Result (Unit {0}) × T) (m : SyncManager (T × List Message))
      → forget
          (count_sync now p.0 (record m { transport = recorded_after message p m.transport.1 }))
        ≡ count_sync ⦃transport = transport⦄ now p.0 (record (forget m) { transport = p.1 })
  count_sync-forget now message (ok u, t) m = refl
  count_sync-forget now message (err e, t) m = refl

  after_limit-forget :
      (now : Clocks) (message : Message) (r : Result (Unit {0}))
      (m : SyncManager (T × List Message))
      → ((after_limit now message r m).0, forget (after_limit now message r m).1)
        ≡ after_limit ⦃transport = transport⦄ now message r (forget m)
  unfolding after_limit transmit
  after_limit-forget now message (err e) m = refl
  after_limit-forget now message (ok u) m =
      let p = transport.send message m.transport.0 in
      ap (λ z. (p.0, z)) (count_sync-forget now.at_sync message p m)

  post-forget :
      (now : Clocks) (message : Message) (m : SyncManager (T × List Message))
      → ((post now message m).0, forget (post now message m).1)
        ≡ post ⦃transport = transport⦄ now message (forget m)
  unfolding post
  post-forget now message m =
      after_limit-forget now message (limit now.at_limiter m).0 (limit now.at_limiter m).1
      ∙ ap (λ z. after_limit ⦃transport = transport⦄ now message z.0 z.1)
          (limit-forget now.at_limiter m)

  count_attempt-forget :
      (m : SyncManager (T × List Message))
      → forget (count_attempt m) ≡ count_attempt ⦃transport = transport⦄ (forget m)
  unfolding count_attempt
  count_attempt-forget m = ground arith

  module _ (floats : FloatOps) (json : SerdeJson)
      (order : HashOrder ComponentId SerializedComponent)
      (entities : HashOrder EntityId SerializedEntity) where
    -- What a call returns, without the record.
    abbrev forgetting :
        {R : Type 0} → R × SyncManager (T × List Message) × ℕ → R × SyncManager T × ℕ
    forgetting (r, m, counter) = (r, forget m, counter)

    send_changes-forget :
        (now : Clocks) (delta : Wire.Delta) (changes : List DeltaChange)
        (m : SyncManager (T × List Message)) (counter : ℕ)
        → forgetting (send_changes floats json order entities now delta changes m counter)
          ≡ send_changes ⦃transport = transport⦄ floats json order entities now delta changes
              (forget m)
              counter
    unfolding send_changes
    send_changes-forget now delta [] m counter = refl
    send_changes-forget now delta (c ∷ cs) m counter =
        let next = (send_changes floats json order entities now delta (c ∷ cs) m counter).2 in
        ap (λ z. (z.0, z.1, next)) (post-forget now _ m)

    send_delta-forget :
        (now : Clocks) (s : WorldSnapshot) (m : SyncManager (T × List Message)) (counter : ℕ)
        → forgetting (send_delta floats json order entities now s m counter)
          ≡ send_delta ⦃transport = transport⦄ floats json order entities now s (forget m) counter
    unfolding send_delta create_delta
    send_delta-forget now s m counter = elim (Bool-cases (transport.is_connected m.transport.0)) [
      | inl on ↦
          let (delta, compressor) = create_delta json order entities s m.delta_compressor in
          rw (send_delta, on)
            (send_changes-forget now delta delta.changes
              (record m { delta_compressor = compressor }) counter)
      | inr off ↦ rw (send_delta, off, count_attempt-forget m) refl
    ]

    pub send_deltas-forget :
        (turns : List (Clocks × WorldSnapshot)) (m : SyncManager (T × List Message)) (counter : ℕ)
        → forgetting (send_deltas floats json order entities turns m counter)
          ≡ send_deltas ⦃transport = transport⦄ floats json order entities turns (forget m) counter
    unfolding send_deltas
    send_deltas-forget [] m counter = refl
    send_deltas-forget ((now, s) ∷ turns) m counter =
        let (r, m', counter') = send_delta floats json order entities now s m counter in
        rw (← send_delta-forget now s m counter, ← send_deltas-forget turns m' counter') refl
