-- ===== src/Sync/Paced.antt =====
-- Snapshots that are sent over a transport that takes them all: the limiter alone decides.
use tx2_link.Common.{
  ℕ, ◌+◌, ◌%◌, ◌^◌, IsU64, ◌≡◌, refl, sym, ap, ◌∙◌, Bool, true, some, List, [], ◌∷◌, if◌then◌else◌,
  arith,
}
use tx2_link.Error.{Result, ok, err, is_ok}
use tx2_link.Protocol.{Message}
use tx2_link.Serialization.{Bytes, BinarySerializer, Formats, WorldSnapshot, serialize_message}
use tx2_link.RateLimit.Window.{Instant, RateLimiter, RateLimitConfig, check_and_record}
use tx2_link.RateLimit.Window as Window
use tx2_link.RateLimit.Window.Bounds.{IsConfig, IsRun}
use tx2_link.RateLimit.Window.Reference.{verdicts, reference, limiter_as_reference}
use tx2_link.Transport.{Transport}
use tx2_link.Transport.Memory.{MemoryTransport, pushed, memory_transport}
use tx2_link.Transport.Memory as Memory
use tx2_link.Transport.Memory.Log.{send_open}
use tx2_link.Sync.{SyncConfig, SyncManager, new}
use tx2_link.Sync.Send.{Clocks, estimated_size, limit, after_limit, transmit, post, send_snapshot}
use tx2_link.Sync.Limits.{checks_of}

-- In the states that are `Good` it is connected, and takes every message and stays in them.
pub record IsReliable {T : Type 0} (transport : Transport T) (Good : T → Type 0) : Type 0 where
  pub stays : (t : T) → Good t → transport.is_connected t ≡ true
  pub takes :
      (message : Message) (t : T)
      → Good t
      → ((transport.send message t).0 ≡ ok tt) × Good (transport.send message t).1

-- A memory transport is, as long as it is open, if its format encodes every message.
pub memory_transport-IsReliable :
    (f : Formats Message) (s : BinarySerializer)
    → ((message : Message) → (bs : Bytes) × (serialize_message f s message ≡ ok bs))
    → IsReliable (memory_transport f) (λ t. (t.connected ≡ true) × (t.serializer ≡ s))
unfolding Memory.send pushed
memory_transport-IsReliable f s encodes = record {
  stays = λ t good. good.0;
  takes = λ message t (on, same).
      let (bs, e) = encodes message in
      let e' : serialize_message f t.serializer message ≡ ok bs =
        ap (λ z. serialize_message f z message) same ∙ e in
      rw (send_open f message t on, e') (refl, (on, same));
}

abbrev pub count_accepted : List Bool → ℕ
count_accepted [] = 0
count_accepted (accepted ∷ vs) = (if accepted then 1 else 0) + count_accepted vs

module _ {T : Type 0} ⦃transport : Transport T⦄ where
  -- A manager sends a snapshot at each turn: which of the sends succeed, and the manager after them.
  unfoldable pub send_snapshots :
      List (Clocks × WorldSnapshot) → SyncManager T → ℕ → List Bool × SyncManager T
  unfolding send_snapshot
  send_snapshots [] m counter = ([], m)
  send_snapshots ((now, s) ∷ turns) m counter =
      let (r, m', counter') = send_snapshot now s m counter in
      let (rest, last) = send_snapshots turns m' counter' in (is_ok r ∷ rest, last)

  module _ (Good : T → Type 0) (reliable : IsReliable transport Good) where
    -- What a post does: it says what the limiter says, and is counted if that is yes.
    record IsPaced (now : Clocks) (l : RateLimiter) (m : SyncManager T)
        (r : Result (Unit {0}) × SyncManager T) : Type 0 where
      same : is_ok r.0 ≡ is_ok (check_and_record now.at_limiter estimated_size l).0
      limited : r.1.rate_limiter ≡ some (check_and_record now.at_limiter estimated_size l).1
      good : Good r.1.transport
      counted : r.1.sync_count ≡ (if is_ok r.0 then (m.sync_count + 1) % 2 ^ 64 else m.sync_count)

    after_limit-IsPaced :
        (now : Clocks) (message : Message) (l : RateLimiter) (m : SyncManager T)
        (v : Result (Unit {0}))
        → Good m.transport
        → (check_and_record now.at_limiter estimated_size l).0 ≡ v
        → IsPaced now l m (
            after_limit now message v (record m {
              rate_limiter = some (check_and_record now.at_limiter estimated_size l).1;
            }))
    unfolding after_limit transmit
    after_limit-IsPaced now message l m (err x) g e = record {
      same = ap is_ok (sym e);
      limited = refl;
      counted = refl;
      good = g;
    }
    after_limit-IsPaced now message l m (ok u) g e =
        let (taken, after) = reliable.takes message m.transport g in
        rw taken (record { same = ap is_ok (sym e); limited = refl; counted = refl; good = after })

    post-IsPaced :
        (now : Clocks) (message : Message) (l : RateLimiter) (m : SyncManager T)
        → m.rate_limiter ≡ some l
        → Good m.transport
        → IsPaced now l m (post now message m)
    unfolding post limit
    post-IsPaced now message l m here g =
        let (v, l') = check_and_record now.at_limiter estimated_size l in
        let asked : limit now.at_limiter m ≡ (v, record m { rate_limiter = some l' }) =
          ground (arith, here) in
        rw asked (after_limit-IsPaced now message l m v g refl)

    send_snapshot-IsPaced :
        (now : Clocks) (s : WorldSnapshot) (l : RateLimiter) (m : SyncManager T) (counter : ℕ)
        → m.rate_limiter ≡ some l
        → Good m.transport
        → (let (r, m', counter') = send_snapshot now s m counter in IsPaced now l m (r, m'))
    unfolding send_snapshot
    send_snapshot-IsPaced now s l m counter here g =
        rw (send_snapshot, reliable.stays m.transport g) (post-IsPaced now _ l m here g)

    send_snapshots-verdicts :
        (turns : List (Clocks × WorldSnapshot)) (l : RateLimiter) (m : SyncManager T) (counter : ℕ)
        → m.rate_limiter ≡ some l
        → Good m.transport
        → IsU64 m.sync_count
        → (let (sent, last) = send_snapshots turns m counter in
            (sent ≡ verdicts (checks_of turns) l)
            × (last.sync_count ≡ (m.sync_count + count_accepted sent) % 2 ^ 64))
    unfolding send_snapshots verdicts
    send_snapshots-verdicts [] l m counter here g small = (refl, omega (arith, small))
    send_snapshots-verdicts ((now, s) ∷ turns) l m counter here g small =
        let step = send_snapshot-IsPaced now s l m counter here g in
        let (r, m', counter') = send_snapshot now s m counter in
        let (same_rest, counted_rest) =
          send_snapshots-verdicts turns (check_and_record now.at_limiter estimated_size l).1 m'
            counter' step.limited step.good (ground (arith, step.counted, small)) in
        (rw (step.same, same_rest) refl, ground (arith, step.counted, counted_rest))

    -- A new manager with rate limiting on sends a snapshot at each turn, over a transport in a state
    -- in which it is connected and takes every message, and stays in such states; the window is 100 ms at least, the clock does not go
    -- back, and the size that is taken of each message does not wrap with the byte limit. The sends
    -- that succeed are exactly those that the reference limiter, which keeps all it ever let
    -- through, accepts, each message being taken for 1024 bytes; and the manager has counted them,
    -- on 64 bits.
    pub send_snapshots-reference :
        (t : T) (config : SyncConfig) (turns : List (Clocks × WorldSnapshot)) (counter : ℕ)
        (start : Instant)
        → Good t
        → config.enable_rate_limiting ≡ true
        → IsConfig config.rate_limit_config
        → IsRun config.rate_limit_config start (checks_of turns)
        → (let (sent, last) = send_snapshots turns (new t config) counter in
            let (answers, accepted) = reference config.rate_limit_config (checks_of turns) [] in
            (sent ≡ answers) × (last.sync_count ≡ count_accepted answers % 2 ^ 64))
    unfolding new
    send_snapshots-reference t config turns counter start g on u h =
        let limits = config.rate_limit_config in
        let (same, counted) =
          send_snapshots-verdicts turns (Window.new limits) (new t config) counter
            (ground (arith, on)) g (omega arith) in
        let as_reference = (limiter_as_reference limits start (checks_of turns) u h).0 in
        rw (← as_reference, ← same) (refl, omega (arith, counted))
