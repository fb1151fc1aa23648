-- ===== src/Sync/Dialogue.antt =====
-- A peer asks for a snapshot, and the manager answers, over memory transports.
use tx2_link.Common.{ℕ, ◌≡◌, refl, sym, subst, ap, ◌∙◌, true, Option, some, [], ◌∷◌, ◌++◌, arith}
use tx2_link.Error.{Result, ok, err}
use tx2_link.Float.{FloatOps}
use tx2_link.Protocol.{Message}
use tx2_link.Protocol.Messages as Messages
use tx2_link.Serialization.{
  Bytes, BinaryFormat, Formats, WorldSnapshot, TakesBack, serialize_message, deserialize_message,
}
use tx2_link.Serialization.Stream.{decoded}
use tx2_link.Transport.Memory.{MemoryTransport, pushed, connect_to, memory_transport}
use tx2_link.Transport.Memory as Memory
use tx2_link.Transport.Memory.Log.{send_open}
use tx2_link.Sync.{SyncManager}
use tx2_link.Sync.Send.{
  Clocks, count_sync, limit, transmit, after_limit, post, transmit_made, request_snapshot,
  send_snapshot,
}
use tx2_link.Sync.Receive.{SyncEvent, handle, process_message, after_receive, receive}
use tx2_link.Sync.Logged.{limit_keeps}
use tx2_link.Sync.Memory.{receive_open}

-- `connect_to` on the transports of two managers.
abbrev connect :
    SyncManager MemoryTransport
    → SyncManager MemoryTransport
    → SyncManager MemoryTransport × SyncManager MemoryTransport
connect a b =
    let (t, u) = connect_to a.transport b.transport in
    (record a { transport = t }, record b { transport = u })

-- A manager in any state, over a new transport.
abbrev over_new : BinaryFormat → SyncManager MemoryTransport → SyncManager MemoryTransport
over_new format m = record m { transport = Memory.new format }

module _ (f : Formats Message) where
  -- A success of `send`, with what was pushed.
  record IsPushed (message : Message) (t t' : MemoryTransport) : Type 0 where
    bytes : Bytes
    encodes : serialize_message f t.serializer message ≡ ok bytes
    pushes : t' ≡ record t { send_buffer = t.send_buffer ++ bytes ∷ [] }

  pushed-IsPushed :
      (message : Message) (t : MemoryTransport) (r : Result Bytes)
      → serialize_message f t.serializer message ≡ r
      → (pushed f r t).0 ≡ ok tt
      → IsPushed message t (pushed f r t).1
  unfolding pushed
  pushed-IsPushed message t (ok bs) e h = record { bytes = bs; encodes = e; pushes = refl }
  pushed-IsPushed message t (err x) e h = absurd (ground arith)

  send-IsPushed :
      (message : Message) (t : MemoryTransport)
      → t.connected ≡ true
      → (Memory.send f message t).0 ≡ ok tt
      → IsPushed message t (Memory.send f message t).1
  send-IsPushed message t on h =
      let e = send_open f message t on in
      subst (λ p. IsPushed message t p.1) (sym e)
        (pushed-IsPushed message t (serialize_message f t.serializer message) refl
          (ap (λ p. p.0) (sym e) ∙ h))

  after_limit-IsPushed :
      (now : Clocks) (message : Message) (r : Result (Unit {0})) (m : SyncManager MemoryTransport)
      → m.transport.connected ≡ true
      → (after_limit ⦃transport = memory_transport f⦄ now message r m).0 ≡ ok tt
      → IsPushed message m.transport
          (after_limit ⦃transport = memory_transport f⦄ now message r m).1.transport
  unfolding after_limit transmit
  after_limit-IsPushed now message (err x) m on h = absurd (ground arith)
  after_limit-IsPushed now message (ok u) m on h =
      counted (Memory.send f message m.transport) h (send-IsPushed message m.transport on)
    where
      counted :
          (p : Result (Unit {0}) × MemoryTransport)
          → p.0 ≡ ok tt
          → (p.0 ≡ ok tt → IsPushed message m.transport p.1)
          → IsPushed message m.transport
              (count_sync ⦃transport = memory_transport f⦄ now.at_sync p.0
                (record m { transport = p.1 })).transport
      counted (ok v, t) k i = i k
      counted (err x, t) k i = absurd (ground arith)

  post-IsPushed :
      (now : Clocks) (message : Message) (m : SyncManager MemoryTransport)
      → m.transport.connected ≡ true
      → (post ⦃transport = memory_transport f⦄ now message m).0 ≡ ok tt
      → IsPushed message m.transport
          (post ⦃transport = memory_transport f⦄ now message m).1.transport
  unfolding post
  post-IsPushed now message m on h =
      let (l, e) = limit_keeps ⦃transport = memory_transport f⦄ now.at_limiter m in
      let r = (limit ⦃transport = memory_transport f⦄ now.at_limiter m).0 in
      rw e (after_limit-IsPushed now message r (record m { rate_limiter = l }) on (rw e at h))

  pub record Dialogue : Type 0 where
    pub asked : Result (Unit {0})
    pub request : Result (Option SyncEvent)
    pub answered : Result (Unit {0})
    pub answer : Result (Option SyncEvent)

  module _ (floats : FloatOps) (now : Clocks) (s : WorldSnapshot) (millis counter : ℕ) where
    -- `b` asks, `a` receives the request and sends a snapshot, and `b` receives that; the transports
    -- are connected after each message that is sent.
    unfoldable pub dialogue : SyncManager MemoryTransport → SyncManager MemoryTransport → Dialogue
    unfolding request_snapshot receive send_snapshot
    dialogue a b =
        let (asked, b1, n1) = request_snapshot ⦃transport = memory_transport f⦄ millis b counter in
        let (a1, b2) = connect a b1 in
        let (request, a2, n2) = receive ⦃transport = memory_transport f⦄ floats now.millis a1 n1 in
        let (answered, a3, n3) = send_snapshot ⦃transport = memory_transport f⦄ now s a2 n2 in
        let (a4, b3) = connect a3 b2 in
        let (answer, b4, n4) = receive ⦃transport = memory_transport f⦄ floats millis b3 n3 in
        record { asked = asked; request = request; answered = answered; answer = answer }

    -- A manager with one encoded message to receive.
    abbrev receives_one :
        BinaryFormat → Bytes → SyncManager MemoryTransport → SyncManager MemoryTransport
    receives_one format bs m = record m {
      transport = record (Memory.new format) { receive_buffer = bs ∷ [] };
    }

    receive_one :
        (m : SyncManager MemoryTransport) (format : BinaryFormat) (message : Message) (bs : Bytes)
        (clock n : ℕ)
        → deserialize_message f (record { format = format }) bs ≡ ok message
        → receive ⦃transport = memory_transport f⦄ floats clock (receives_one format bs m) n
          ≡ after_receive ⦃transport = memory_transport f⦄ floats clock
              (ok (some message))
              (over_new format m)
              n
    receive_one m format message bs clock n e =
        receive_open f floats clock bs [] (receives_one format bs m) n (refl, refl)
        ∙ ap
            (λ r.
              after_receive ⦃transport = memory_transport f⦄ floats clock (decoded r)
                (over_new format m) n)
            e

    -- The request of `b`, and what `a` sends in answer.
    abbrev pub question : SyncManager MemoryTransport → Message
    question b = (Messages.request_snapshot b.schema_version millis counter).0

    abbrev pub reply : SyncManager MemoryTransport → SyncManager MemoryTransport → Message
    reply a b =
        (Messages.snapshot s.entities s.timestamp a.schema_version now.millis
          (Messages.request_snapshot b.schema_version millis counter).1).0

    -- Between two managers over new memory transports of one format, in whatever state they are
    -- otherwise, where the request could be sent, and so could the answer, and the format takes back
    -- these two messages: the one that is asked gets the request for a snapshot, and the other gets
    -- exactly the entities and the time of the snapshot that is sent in answer, as version 1.0.0.
    pub dialogue_answers :
        (format : BinaryFormat) (a b : SyncManager MemoryTransport)
        → TakesBack f (record { format = format }) (question b)
        → TakesBack f (record { format = format }) (reply a b)
        → (dialogue (over_new format a) (over_new format b)).asked ≡ ok tt
        → (dialogue (over_new format a) (over_new format b)).answered ≡ ok tt
        → ((dialogue (over_new format a) (over_new format b)).request
            ≡ ok (some SyncEvent.snapshot_requested))
          × ((dialogue (over_new format a) (over_new format b)).answer
              ≡ ok (some (SyncEvent.snapshot (record s { version = "1.0.0" }))))
    unfolding dialogue request_snapshot transmit_made transmit connect_to after_receive
        process_message handle send_snapshot Messages.request_snapshot Messages.snapshot
        Messages.new
    dialogue_answers format a b back_question back_reply asked answered =
        let t = Memory.new format in
        let number =
          (Messages.snapshot s.entities s.timestamp a.schema_version now.millis
            (Messages.request_snapshot b.schema_version millis counter).1).1 in
        let q = send-IsPushed (question b) t refl asked in
        let request =
          receive_one a format (question b) q.bytes now.millis
            (Messages.request_snapshot b.schema_version millis counter).1
            (back_question q.bytes q.encodes) in
        let p =
          post-IsPushed now (reply a b) (over_new format a) refl
            (rw (q.pushes, request) at answered) in
        let answer =
          receive_one b format (reply a b) p.bytes millis number (back_reply p.bytes p.encodes) in
        rw (q.pushes, request, p.pushes, answer) (refl, refl)
