-- ===== src/Sync/Metered.antt =====
-- The limiter stands before every message that a manager posts: the limits hold of the log.
use tx2_link.Common.{
  ℕ, ◌≡◌, refl, ap, Option, some, List, [], ◌∷◌, ◌++◌, arith, Bool-cases, inl, inr,
}
use tx2_link.Common.Maps.{HashOrder, string_key, nat_key}
use tx2_link.Error.{Result, ok, err}
use tx2_link.Float.{FloatOps}
use tx2_link.Protocol.{
  EntityId, ComponentId, SerializedComponent, SerializedEntity, DeltaChange, Message,
}
use tx2_link.Serialization.{WorldSnapshot}
use tx2_link.Serialization as Wire
use tx2_link.RateLimit.Window.{RateLimiter, check_and_record}
use tx2_link.Compression.Json.{SerdeJson}
use tx2_link.Compression.Delta.{create_delta}
use tx2_link.Transport.{Transport}
use tx2_link.Sync.{SyncMode, SyncManager, is_connected}
use tx2_link.Sync.Send.{
  Clocks, estimated_size, count_attempt, count_sync, limit, after_limit, transmit, post,
  send_snapshot, send_changes, send_delta, send_as, send,
}
use tx2_link.Sync.Logged.{MessageLog, IsLogged, after_limit-IsPosted}

module _ {T : Type 0} (sent : T → List Message) where
  -- The limiter and the transport, before and after a call: either neither the limiter nor the log
  -- has changed; or the limiter was asked, and nothing was logged; or it was asked and said yes, and
  -- one message was logged.
  pub data IsMetered (now : Clocks) (o : Option RateLimiter) (t : T) (o' : Option RateLimiter)
      (t' : T) : Type 0 where
    unasked : o' ≡ o → sent t' ≡ sent t → IsMetered now o t o' t'
    held_back :
        (l : RateLimiter)
        → o ≡ some l
        → o' ≡ some (check_and_record now.at_limiter estimated_size l).1
        → sent t' ≡ sent t
        → IsMetered now o t o' t'
    let_through :
        (l : RateLimiter) (message : Message)
        → o ≡ some l
        → o' ≡ some (check_and_record now.at_limiter estimated_size l).1
        → (check_and_record now.at_limiter estimated_size l).0 ≡ ok tt
        → sent t' ≡ sent t ++ message ∷ []
        → IsMetered now o t o' t'

module _ {T : Type 0} ⦃transport : Transport T⦄ (log : MessageLog T) where
  count_sync-limiter :
      (now : ℕ) (r : Result (Unit {0})) (m : SyncManager T)
      → (count_sync now r m).rate_limiter ≡ m.rate_limiter
  count_sync-limiter now (ok u) m = refl
  count_sync-limiter now (err e) m = refl

  after_limit-limiter :
      (now : Clocks) (message : Message) (r : Result (Unit {0})) (m : SyncManager T)
      → (after_limit now message r m).1.rate_limiter ≡ m.rate_limiter
  unfolding after_limit transmit
  after_limit-limiter now message (err e) m = refl
  after_limit-limiter now message (ok u) m =
      let (r, t) = transport.send message m.transport in
      count_sync-limiter now.at_sync r (record m { transport = t })

  count_attempt-keeps :
      (m : SyncManager T)
      → ((count_attempt m).rate_limiter ≡ m.rate_limiter)
        × ((count_attempt m).transport ≡ m.transport)
  unfolding count_attempt
  count_attempt-keeps m = (ground arith, ground arith)

  module _ (now : Clocks) (l : RateLimiter) where
    abbrev Metered : SyncManager T → SyncManager T → Type 0
    Metered m m' = IsMetered log.sent now m.rate_limiter m.transport m'.rate_limiter m'.transport

    -- What the limiter leaves, and what comes of its verdict.
    abbrev asked : SyncManager T → SyncManager T
    asked m = record m { rate_limiter = some (check_and_record now.at_limiter estimated_size l).1 }

    logged-IsMetered :
        (message : Message) (m : SyncManager T) (r : Result (Unit {0})) (m' : SyncManager T)
        → m.rate_limiter ≡ some l
        → (check_and_record now.at_limiter estimated_size l).0 ≡ ok tt
        → m'.rate_limiter ≡ (asked m).rate_limiter
        → IsLogged log.sent message m.transport (r, m'.transport)
        → Metered m m'
    logged-IsMetered message m (ok u) m' here v e g = let_through l message here e v g
    logged-IsMetered message m (err x) m' here v e g = held_back l here e g

    after_limit-IsMetered :
        (message : Message) (v : Result (Unit {0})) (m : SyncManager T)
        → m.rate_limiter ≡ some l
        → (check_and_record now.at_limiter estimated_size l).0 ≡ v
        → Metered m (after_limit now message v (asked m)).1
    unfolding after_limit
    after_limit-IsMetered message (err x) m here v = held_back l here refl refl
    after_limit-IsMetered message (ok u) m here v =
        logged-IsMetered message m (after_limit now message (ok u) (asked m)).0
          (after_limit now message (ok u) (asked m)).1 here v
          (after_limit-limiter now message (ok u) (asked m))
          (after_limit-IsPosted log now message (ok u) (asked m)).0

    post-IsMetered :
        (message : Message) (m : SyncManager T)
        → m.rate_limiter ≡ some l
        → Metered m (post now message m).1
    unfolding post limit
    post-IsMetered message m here =
        let v = (check_and_record now.at_limiter estimated_size l).0 in
        let limited : limit now.at_limiter m ≡ (v, asked m) = ground (arith, here) in
        rw limited (after_limit-IsMetered message v m here refl)

    send_snapshot-IsMetered :
        (s : WorldSnapshot) (m : SyncManager T) (counter : ℕ)
        → m.rate_limiter ≡ some l
        → Metered m (send_snapshot now s m counter).1
    unfolding send_snapshot
    send_snapshot-IsMetered s m counter here = elim (Bool-cases (is_connected m)) [
      | inl on ↦ rw (send_snapshot, on) (post-IsMetered _ m here)
      | inr off ↦
          let (e, q) = count_attempt-keeps m in rw (send_snapshot, off) (unasked e (ap log.sent q))
    ]

    module _ (floats : FloatOps) (json : SerdeJson)
        (order : HashOrder ComponentId SerializedComponent)
        (entities : HashOrder EntityId SerializedEntity) where
      send_changes-IsMetered :
          (delta : Wire.Delta) (changes : List DeltaChange) (m : SyncManager T) (counter : ℕ)
          → m.rate_limiter ≡ some l
          → Metered m (send_changes floats json order entities now delta changes m counter).1
      unfolding send_changes
      send_changes-IsMetered delta [] m counter here = unasked refl refl
      send_changes-IsMetered delta (c ∷ cs) m counter here = post-IsMetered _ m here

      send_delta-IsMetered :
          (s : WorldSnapshot) (m : SyncManager T) (counter : ℕ)
          → m.rate_limiter ≡ some l
          → Metered m (send_delta floats json order entities now s m counter).1
      unfolding send_delta
      send_delta-IsMetered s m counter here = elim (Bool-cases (is_connected m)) [
        | inl on ↦
            let (delta, c) = create_delta json order entities s m.delta_compressor in
            rw (send_delta, on)
              (send_changes-IsMetered delta delta.changes (record m { delta_compressor = c })
                counter here)
        | inr off ↦
            let (e, q) = count_attempt-keeps m in rw (send_delta, off) (unasked e (ap log.sent q))
      ]

      send_as-IsMetered :
          (mode : SyncMode) (s : WorldSnapshot) (m : SyncManager T) (counter : ℕ)
          → m.rate_limiter ≡ some l
          → Metered m (send_as floats json order entities mode now s m counter).1
      unfolding send_as
      send_as-IsMetered SyncMode.full s m counter here = send_snapshot-IsMetered s m counter here
      send_as-IsMetered SyncMode.delta s m counter here = send_delta-IsMetered s m counter here
      send_as-IsMetered SyncMode.manual s m counter here = unasked refl refl

      pub send-IsMetered :
          (s : WorldSnapshot) (m : SyncManager T) (counter : ℕ)
          → m.rate_limiter ≡ some l
          → Metered m (send floats json order entities now s m counter).1
      unfolding send
      send-IsMetered s m counter here = send_as-IsMetered m.config.mode s m counter here
