-- ===== src/Transport/WebSocket/Delivery.antt =====
-- What one websocket transport sends, the other receives, with control messages in between.
use tx2_link.Common.{
  ◌≡◌, refl, ap, ◌∙◌, inr, Option, none, some, List, [], ◌∷◌, ◌++◌, map, append_assoc, append-nil,
  length, All,
}
use tx2_link.Error.{Result, ok, err}
use tx2_link.Protocol.{Message}
use tx2_link.Serialization.{Bytes, BinaryFormat, Formats, deserialize_message}
use tx2_link.Transport.{send_all, receive_times}
use tx2_link.Serialization.Stream.{decoded}
use tx2_link.Transport.Memory.Log.{decode_all, add_decoded}
use tx2_link.Transport.Memory.Delivery.{Carries}
use tx2_link.Transport.WebSocket.{
  WsMessage, Socket, WebSocketTransport, new, send_encoded, send, on_next, receive,
  websocket_transport,
}

-- A socket whose sender takes all messages, and whose receiver gives those that have arrived in
-- order.
pub record IsQueue {S : Type 0} (socket : Socket S) : Type 0 where
  pub outbox : S → List Bytes
  pub inbox : S → List WsMessage
  pub send-outbox :
      (bs : Bytes) (s : S)
      → (s' : S) × (socket.send bs s ≡ (inr tt, s')) × (outbox s' ≡ outbox s ++ bs ∷ [])
  pub next-inbox :
      (w : WsMessage) (ws : List WsMessage) (s : S)
      → inbox s ≡ w ∷ ws
      → (s' : S) × (socket.next s ≡ (some (inr w), s')) × (inbox s' ≡ ws)

abbrev pub IsBetween : WsMessage → Type 0
IsBetween (WsMessage.binary bs) = ⊥
IsBetween WsMessage.close_message = ⊥
IsBetween w = Unit {0}

-- Binary messages in order, with messages that are neither binary nor a close in between.
pub data IsMixed : List Bytes → List WsMessage → Type 0 where
  done : IsMixed [] []
  one :
      {bs : Bytes} {bss : List Bytes} {ws : List WsMessage}
      → IsMixed bss ws
      → IsMixed (bs ∷ bss) (WsMessage.binary bs ∷ ws)
  between :
      {w : WsMessage} {bss : List Bytes} {ws : List WsMessage}
      → IsBetween w
      → IsMixed bss ws
      → IsMixed bss (w ∷ ws)

-- The messages among what `receive` has returned.
abbrev pub taken : List (Result (Option Message)) → List Message
taken [] = []
taken (ok (some m) ∷ rs) = m ∷ taken rs
taken (ok none ∷ rs) = taken rs
taken (err e ∷ rs) = taken rs

module _ {S : Type 0} (socket : Socket S) (queue : IsQueue socket) (f : Formats Message)
    (format : BinaryFormat) where
  encoded : (ms : List Message) → All (Carries f format) ms → List Bytes
  encoded [] h = []
  encoded (m ∷ ms) h = h.0.0 ∷ encoded ms h.1

  send_all-outbox :
      (ms : List Message) (h : All (Carries f format) ms) (s : S)
      → (s' : S) × (send_all (websocket_transport socket f) ms (new format s)
          ≡ (map (λ m. ok tt) ms, new format s'))
        × (queue.outbox s' ≡ queue.outbox s ++ encoded ms h)
  unfolding send_all send send_encoded encoded
  send_all-outbox [] h s = (s, refl, rw append-nil refl)
  send_all-outbox (m ∷ ms) h s =
      let (s', e, q) = queue.send-outbox h.0.0 s in
      let (s'', e', q') = send_all-outbox ms h.1 s' in
      (
        s'',
        rw (h.0.1, e, e') refl,
        q'
            ∙ ap (λ l. l ++ encoded ms h.1) q
            ∙ append_assoc (queue.outbox s) (h.0.0 ∷ []) (encoded ms h.1),
      )

  decode_all-encoded :
      (ms : List Message) (h : All (Carries f format) ms)
      → decode_all f (record { format = format }) (encoded ms h) ≡ ms
  unfolding decode_all encoded
  decode_all-encoded [] h = refl
  decode_all-encoded (m ∷ ms) h = rw (h.0.2, decode_all-encoded ms h.1) refl

  taken-decoded :
      (r : Result Message) (rs : List (Result (Option Message)))
      → taken (decoded r ∷ rs) ≡ add_decoded f r (taken rs)
  taken-decoded (ok m) rs = refl
  taken-decoded (err e) rs = refl

  -- One step of receiving, and what comes after it.
  receive_next :
      (w : WsMessage) (ws : List WsMessage) (s : S)
      → queue.inbox s ≡ w ∷ ws
      → (s' : S) × (receive socket f (new format s)
          ≡ on_next socket f (some (inr w)) s' (new format s))
        × (queue.inbox s' ≡ ws)
  unfolding receive
  receive_next w ws s e = let (s', n, q) = queue.next-inbox w ws s e in (s', rw n refl, q)

  on_next-between :
      (w : WsMessage) (s : S) (t : WebSocketTransport S)
      → IsBetween w
      → on_next socket f (some (inr w)) s t ≡ (ok none, record t { stream = some s })
  unfolding on_next
  on_next-between (WsMessage.text x) s t b = refl
  on_next-between (WsMessage.ping x) s t b = refl
  on_next-between (WsMessage.pong x) s t b = refl
  on_next-between WsMessage.frame s t b = refl
  on_next-between (WsMessage.binary x) s t b = absurd b
  on_next-between WsMessage.close_message s t b = absurd b

  receive_times-IsMixed :
      (bss : List Bytes) (ws : List WsMessage) (s : S)
      → IsMixed bss ws
      → queue.inbox s ≡ ws
      → taken (receive_times (websocket_transport socket f) (length ws) (new format s)).0
        ≡ decode_all f (record { format = format }) bss
  unfolding receive_times on_next decode_all
  receive_times-IsMixed _ _ s done e = refl
  receive_times-IsMixed _ _ s (one {bs} {bss} {ws} x) e =
      let (s', n, q) = receive_next (WsMessage.binary bs) ws s e in
      rw n (
        taken-decoded (deserialize_message f (record { format = format }) bs)
          (receive_times (websocket_transport socket f) (length ws) (new format s')).0
        ∙ ap (add_decoded f (deserialize_message f (record { format = format }) bs))
            (receive_times-IsMixed bss ws s' x q))
  receive_times-IsMixed _ _ s (between {w} {bss} {ws} b x) e =
      let (s', n, q) = receive_next w ws s e in
      rw (n, on_next-between w s' (new format s) b) (receive_times-IsMixed bss ws s' x q)

  -- What the socket of a transport has taken.
  abbrev pub outbox_of : WebSocketTransport S → List Bytes
  outbox_of t = elim t.stream [ none ↦ [] | some s ↦ queue.outbox s ]

  -- Messages that the format carries, sent over a socket that takes them and has taken none before;
  -- the other socket gives these binary messages in order, with any other messages but a close in
  -- between. The peer that receives as often as there is something gets exactly those messages, in
  -- order.
  pub websocket_delivers :
      (ms : List Message) (s other : S) (ws : List WsMessage)
      → All (Carries f format) ms
      → queue.outbox s ≡ []
      → IsMixed (outbox_of (send_all (websocket_transport socket f) ms (new format s)).1) ws
      → queue.inbox other ≡ ws
      → ((send_all (websocket_transport socket f) ms (new format s)).0 ≡ map (λ m. ok tt) ms)
        × (taken (receive_times (websocket_transport socket f) (length ws) (new format other)).0
            ≡ ms)
  websocket_delivers ms s other ws h e x i =
      let (s', sent, q) = send_all-outbox ms h s in
      let in_order : outbox_of (send_all (websocket_transport socket f) ms (new format s)).1
          ≡ encoded ms h =
        ap (λ r. outbox_of r.1) sent ∙ q ∙ ap (λ l. l ++ encoded ms h) e in
      (
        ap (λ r. r.0) sent,
        receive_times-IsMixed _ ws other x i
            ∙ ap (decode_all f (record { format = format })) in_order
            ∙ decode_all-encoded ms h,
      )
