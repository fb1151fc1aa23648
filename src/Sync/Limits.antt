-- ===== src/Sync/Limits.antt =====
-- A manager with rate limiting keeps the limits over any run of sends, in whatever mode, and
-- whichever of them fail.
use tx2_link.Common.{
  ℕ, ◌+◌, ◌≤◌, ◌<◌, ◌^◌, ◌≡◌, sym, subst, some_inj, ap, ◌∙◌, Bool, true, Option, some, List, [],
  ◌∷◌, map, length, ltb, if◌then◌else◌, arith,
}
use tx2_link.Common.Maps.{HashOrder, string_key, nat_key}
use tx2_link.Error.{Result, ok, err}
use tx2_link.Float.{FloatOps}
use tx2_link.Protocol.{EntityId, ComponentId, SerializedComponent, SerializedEntity, Message}
use tx2_link.Serialization.{WorldSnapshot}
use tx2_link.RateLimit.Window.{
  Instant, MessageRecord, RateLimiter, RateLimitConfig, burst_window, check_and_record,
}
use tx2_link.RateLimit.Window as Window
use tx2_link.RateLimit.Window.Weigh.{weigh, one}
use tx2_link.RateLimit.Window.Tracks.{
  Tracks, between, messages-between-le, burst-between-le, new-Tracks,
}
use tx2_link.RateLimit.Window.Bounds.{IsConfig, IsRun, noted, check-Tracks}
use tx2_link.Compression.Json.{SerdeJson}
use tx2_link.Transport.{Transport}
use tx2_link.Sync.{SyncConfig, SyncManager, new}
use tx2_link.Sync.Send.{Clocks, estimated_size, send}
use tx2_link.Sync.Logged.{MessageLog}
use tx2_link.Sync.Metered.{IsMetered, unasked, held_back, let_through, send-IsMetered}

-- The checks that the sends can make of the limiter.
abbrev pub checks_of : List (Clocks × WorldSnapshot) → List (Instant × ℕ)
checks_of turns = map (λ a. (a.0.at_limiter, estimated_size)) turns

abbrev pub stamp : Clocks → MessageRecord
stamp now = record { timestamp = now.at_limiter; size = estimated_size }

-- A message was posted if the transport's log has grown.
abbrev pub posted_since : ℕ → ℕ → Clocks → List MessageRecord → List MessageRecord
posted_since before after now posted = if ltb before after then stamp now ∷ posted else posted

module _ {T : Type 0} ⦃transport : Transport T⦄ (sent : T → List Message) (floats : FloatOps)
    (json : SerdeJson) (order : HashOrder ComponentId SerializedComponent)
    (entities : HashOrder EntityId SerializedEntity) where
  -- A manager sends at each turn; the times at which its transport's log has grown, newest first.
  unfoldable pub posted_in :
      List (Clocks × WorldSnapshot) → SyncManager T → ℕ → List MessageRecord → List MessageRecord
  unfolding send
  posted_in [] m counter posted = posted
  posted_in ((now, s) ∷ turns) m counter posted =
      let (r, m', counter') = send floats json order entities now s m counter in
      posted_in turns m' counter'
        (posted_since (length (sent m.transport)) (length (sent m'.transport)) now posted)

-- The limiter's own log, and what was posted: no more than that.
record IsWithin (c : RateLimitConfig) (before : Instant) (o : Option RateLimiter)
    (posted : List MessageRecord) : Type 0 where
  limiter : RateLimiter
  here : o ≡ some limiter
  last : Instant
  not_later : last ≤ before
  accepted : List MessageRecord
  tracks : Tracks c last limiter accepted
  fewer : (p : MessageRecord → Bool) → weigh one p posted ≤ weigh one p accepted

weigh-noted :
    (p : MessageRecord → Bool) (now : Instant) (size : ℕ) (v : Result (Unit {0}))
    (log : List MessageRecord)
    → weigh one p log ≤ weigh one p (noted now size v log)
unfolding weigh
weigh-noted p now size (ok u) log = omega arith
weigh-noted p now size (err e) log = omega arith

weigh-posted_since :
    (p : MessageRecord → Bool) (before after : ℕ) (now : Clocks) (posted log : List MessageRecord)
    → weigh one p posted ≤ weigh one p log
    → weigh one p (posted_since before after now posted) ≤ weigh one p (stamp now ∷ log)
unfolding weigh
weigh-posted_since p before after now posted log h = ground (arith, h)

posted_since-same :
    (before after : ℕ) (now : Clocks) (posted : List MessageRecord)
    → after ≡ before
    → posted_since before after now posted ≡ posted
posted_since-same before after now posted e = ground (arith, e)

module _ {T : Type 0} (sent : T → List Message) (c : RateLimitConfig) (u : IsConfig c)
    (fits : estimated_size + c.max_bytes_per_second < 2 ^ 64) where
  -- The limiter and its log after a check.
  asked-Tracks :
      (before : Instant) (now : Clocks) (o : Option RateLimiter) (posted : List MessageRecord)
      (l : RateLimiter)
      → before ≤ now.at_limiter
      → (w : IsWithin c before o posted) → o ≡ some l
      → Tracks c now.at_limiter (check_and_record now.at_limiter estimated_size l).1 (
          noted now.at_limiter estimated_size
            (check_and_record now.at_limiter estimated_size l).0
            w.accepted)
  asked-Tracks before now o posted l later w here =
      let same : w.limiter ≡ l = some_inj.0 (sym w.here ∙ here) in
      check-Tracks c u w.last now.at_limiter estimated_size l w.accepted
        (omega (arith, later, w.not_later)) fits
        (subst (λ x. Tracks c w.last x w.accepted) same w.tracks)

  IsMetered-IsWithin :
      (before : Instant) (now : Clocks) (o o' : Option RateLimiter) (t t' : T)
      (posted : List MessageRecord)
      → before ≤ now.at_limiter
      → IsWithin c before o posted
      → IsMetered sent now o t o' t'
      → IsWithin c now.at_limiter o' (posted_since (length (sent t)) (length (sent t')) now posted)
  IsMetered-IsWithin before now o o' t t' posted later w (unasked e q) =
      rw (posted_since-same (length (sent t)) (length (sent t')) now posted (ap length q)) (record {
        limiter = w.limiter;
        here = e ∙ w.here;
        last = w.last;
        not_later = omega (arith, later, w.not_later);
        accepted = w.accepted;
        tracks = w.tracks;
        fewer = w.fewer;
      })
  IsMetered-IsWithin before now o o' t t' posted later w (held_back l here e q) =
      let verdict = (check_and_record now.at_limiter estimated_size l).0 in
      rw (posted_since-same (length (sent t)) (length (sent t')) now posted (ap length q)) (record {
        limiter = (check_and_record now.at_limiter estimated_size l).1;
        here = e;
        last = now.at_limiter;
        not_later = omega arith;
        accepted = noted now.at_limiter estimated_size verdict w.accepted;
        tracks = asked-Tracks before now o posted l later w here;
        fewer = λ p.
            omega
              (arith, w.fewer p, weigh-noted p now.at_limiter estimated_size verdict w.accepted);
      })
  IsMetered-IsWithin before now o o' t t' posted later w (let_through l message here e v q) =
      record {
        limiter = (check_and_record now.at_limiter estimated_size l).1;
        here = e;
        last = now.at_limiter;
        not_later = omega arith;
        accepted = stamp now ∷ w.accepted;
        tracks =
            subst
              (λ z.
                Tracks c now.at_limiter (check_and_record now.at_limiter estimated_size l).1
                  (noted now.at_limiter estimated_size z w.accepted))
              v (asked-Tracks before now o posted l later w here);
        fewer = λ p.
            weigh-posted_since p (length (sent t)) (length (sent t')) now posted w.accepted
              (w.fewer p);
      }

module _ {T : Type 0} ⦃transport : Transport T⦄ (log : MessageLog T) (floats : FloatOps)
    (json : SerdeJson) (order : HashOrder ComponentId SerializedComponent)
    (entities : HashOrder EntityId SerializedEntity) where
  posted_in-IsWithin :
      (c : RateLimitConfig) (u : IsConfig c) (turns : List (Clocks × WorldSnapshot))
      (before : Instant) (m : SyncManager T) (counter : ℕ) (posted : List MessageRecord)
      → IsRun c before (checks_of turns)
      → IsWithin c before m.rate_limiter posted
      → (end : Instant) × (o : Option RateLimiter) × IsWithin c end o
          (posted_in log.sent floats json order entities turns m counter posted)
  unfolding posted_in
  posted_in-IsWithin c u [] before m counter posted h w = (before, m.rate_limiter, w)
  posted_in-IsWithin c u ((now, s) ∷ turns) before m counter posted (later, fits, h) w =
      let (r, m', counter') = send floats json order entities now s m counter in
      posted_in-IsWithin c u turns now.at_limiter m' counter' _ h (
        IsMetered-IsWithin log.sent c u fits before now m.rate_limiter m'.rate_limiter m.transport
          m'.transport posted later w
          (send-IsMetered log now w.limiter floats json order entities s m counter w.here))

  -- A new manager with rate limiting on sends snapshots at any turns, in whatever mode, over a
  -- transport that keeps a log; some of the sends may fail. Of the turns at which its log has grown,
  -- no span of the window's length has more than the message limit, and no span of 100 ms more than
  -- the burst size. The window is 100 ms at least, the clock does not go back, and the size that is
  -- taken of each message does not wrap with the byte limit.
  pub sends_within_limits :
      (t : T) (config : SyncConfig) (turns : List (Clocks × WorldSnapshot)) (counter : ℕ)
      (start at : Instant)
      → config.enable_rate_limiting ≡ true
      → IsConfig config.rate_limit_config
      → IsRun config.rate_limit_config start (checks_of turns)
      → (let posted =
            posted_in log.sent floats json order entities turns (new t config) counter [] in
          let limits = config.rate_limit_config in
          (weigh one (between at limits.window_duration) posted ≤ limits.max_messages_per_second)
          × (weigh one (between at burst_window) posted ≤ limits.burst_size))
  unfolding new
  sends_within_limits t config turns counter start at on u h =
      let limits = config.rate_limit_config in
      let at_start : IsWithin limits start (new t config).rate_limiter [] = record {
        limiter = Window.new limits;
        here = ground (arith, on);
        last = start;
        not_later = omega arith;
        accepted = [];
        tracks = new-Tracks limits start;
        fewer = λ p. omega arith;
      } in
      let (end, o, w) =
        posted_in-IsWithin limits u turns start (new t config) counter [] h at_start in
      (
        omega (
          arith,
          w.fewer (between at limits.window_duration),
          messages-between-le limits at w.accepted w.tracks.limited,
        ),
        omega (
          arith,
          w.fewer (between at burst_window),
          burst-between-le limits at w.accepted w.tracks.limited,
        ),
      )
