-- ===== src/Sync/Logged.antt =====
-- What posting a message does to a transport that logs what it sends, and to the counts.
use tx2_link.Common.{
  ℕ, ◌≡◌, refl, Option, none, some, List, [], ◌∷◌, ◌++◌, arith, Option-cases, inl, inr, add64,
}
use tx2_link.Error.{Result, ok, err}
use tx2_link.Protocol.{Message}
use tx2_link.RateLimit.Window.{RateLimiter, check_and_record}
use tx2_link.Transport.{Transport}
use tx2_link.Sync.{SyncManager}
use tx2_link.Sync.Send.{Clocks, count_sync, limit, transmit, after_limit, post}

-- The transport keeps a log of what it has sent.
abbrev pub IsLogged :
    {T : Type 0} → (T → List Message) → Message → T → Result (Unit {0}) × T → Type 0
IsLogged sent message t (ok u, t') = sent t' ≡ sent t ++ message ∷ []
IsLogged sent message t (err e, t') = sent t' ≡ sent t

-- What the manager's theorems ask of a transport: the log of what it has sent, which grows by each
-- message that is sent, and stays as it is where sending fails and where the transport receives.
pub record MessageLog (T : Type 0) ⦃transport : Transport T⦄ : Type 0 where
  pub sent : T → List Message
  pub logs : (message : Message) (t : T) → IsLogged sent message t (transport.send message t)
  pub kept : (t : T) → sent (transport.receive t).1 ≡ sent t

-- A success is counted, and takes the time and ends the attempts to reconnect; an error is not.
abbrev pub IsCounted :
    {T : Type 0} → Clocks → SyncManager T → Result (Unit {0}) → SyncManager T → Type 0
IsCounted now m (ok u) m' =
    (m'.sync_count ≡ add64 m.sync_count 1)
    × (m'.last_sync ≡ some now.at_sync)
    × (m'.reconnect_attempts ≡ 0)
IsCounted now m (err e) m' =
    (m'.sync_count ≡ m.sync_count)
    × (m'.last_sync ≡ m.last_sync)
    × (m'.reconnect_attempts ≡ m.reconnect_attempts)

module _ {T : Type 0} ⦃transport : Transport T⦄ where
  -- The limiter changes nothing but itself.
  pub limit_keeps :
      (now : ℕ) (m : SyncManager T)
      → (l : Option RateLimiter) × ((limit now m).1 ≡ record m { rate_limiter = l })
  unfolding limit
  limit_keeps now m = elim (Option-cases m.rate_limiter) [
    | inl none_here ↦ (none, ground (arith, none_here))
    | inr (l, here) ↦ (some (check_and_record now 1024 l).1, ground (arith, here))
  ]

module _ {T : Type 0} ⦃transport : Transport T⦄ (log : MessageLog T) where
  -- The message is logged if the result is a success, and only then.
  abbrev pub IsPosted :
      Clocks → Message → SyncManager T → Result (Unit {0}) × SyncManager T → Type 0
  IsPosted now message m (r, m') =
      IsLogged log.sent message m.transport (r, m'.transport)
      × (m'.delta_compressor ≡ m.delta_compressor)
      × IsCounted now m r m'

  pub after_limit-IsPosted :
      (now : Clocks) (message : Message) (r : Result (Unit {0})) (m : SyncManager T)
      → IsPosted now message m (after_limit now message r m)
  unfolding after_limit transmit
  after_limit-IsPosted now message (err e) m = (refl, refl, (refl, refl, refl))
  after_limit-IsPosted now message (ok u) m =
      sent_or_not (transport.send message m.transport) (log.logs message m.transport)
    where
      sent_or_not :
          (p : Result (Unit {0}) × T)
          → IsLogged log.sent message m.transport p
          → IsPosted now message m (p.0, count_sync now.at_sync p.0 (record m { transport = p.1 }))
      sent_or_not (ok u, t) l = (l, refl, (refl, refl, refl))
      sent_or_not (err e, t) l = (l, refl, (refl, refl, refl))

  pub post-IsPosted :
      (now : Clocks) (message : Message) (m : SyncManager T)
      → IsPosted now message m (post now message m)
  unfolding post
  post-IsPosted now message m =
      let (l, e) = limit_keeps now.at_limiter m in
      let r = (limit now.at_limiter m).0 in
      rw e (after_limit-IsPosted now message r (record m { rate_limiter = l }))

  pub posted_ok :
      (now : Clocks) (message : Message) (m : SyncManager T) (p : Result (Unit {0}) × SyncManager T)
      → IsPosted now message m p
      → p.0 ≡ ok tt
      → (log.sent p.1.transport ≡ log.sent m.transport ++ message ∷ [])
        × (p.1.delta_compressor ≡ m.delta_compressor)
  posted_ok now message m (ok u, n) (l, e, c) k = (l, e)
  posted_ok now message m (err x, n) h k = absurd (ground arith)
