-- ===== src/Transport/WebSocket/Closed.antt =====
-- The two states of a websocket transport: it has its stream, or has lost it for good.
use tx2_link.Common.{
  true, false, String, ◌⊎◌, inl, inr, ◌↔◌, ◌≡◌, refl, ap, ◌∙◌, Option, none, some, Option-cases,
  arith,
}
use tx2_link.Error.{connection_closed, Result, ok, err}
use tx2_link.Protocol.{Message}
use tx2_link.Serialization.{Bytes, Formats, serialize_message}
use tx2_link.Transport.WebSocket.{
  WsMessage, Socket, WebSocketTransport, send_encoded, send, on_next, receive, close, is_connected,
}

-- The end of the stream, or a close message.
abbrev pub IsOver : Option (String ⊎ WsMessage) → Type 0
IsOver none = Unit {0}
IsOver (some (inr WsMessage.close_message)) = Unit {0}
IsOver _ = ⊥

stays : (true ≡ false) ↔ ⊥
stays = (λ h. absurd (ground (arith, h)), λ o. absurd o)

module _ {S : Type 0} (socket : Socket S) (f : Formats Message) where
  -- What a caller can make of a transport.
  pub data IsLater (t : WebSocketTransport S) : WebSocketTransport S → Type 0 where
    now : IsLater t t
    after_send :
        {t' : WebSocketTransport S}
        → (m : Message) → IsLater t t'
        → IsLater t (send socket f m t').1
    after_receive : {t' : WebSocketTransport S} → IsLater t t' → IsLater t (receive socket f t').1
    after_close : {t' : WebSocketTransport S} → IsLater t t' → IsLater t (close socket f t').1

  stream_gone : (t : WebSocketTransport S) → is_connected socket f t ≡ false → t.stream ≡ none
  unfolding is_connected
  stream_gone t h = elim (Option-cases t.stream) [
    | inl gone ↦ gone
    | inr (s, here) ↦ absurd (ground (arith, here, h))
  ]

  -- The operations on a transport without its stream.
  send_gone :
      (m : Message) (t : WebSocketTransport S)
      → t.stream ≡ none
      → send socket f m t ≡ (err connection_closed, t)
  unfolding send
  send_gone m t e = ground (arith, e)

  receive_gone :
      (t : WebSocketTransport S) → t.stream ≡ none → receive socket f t ≡ (err connection_closed, t)
  unfolding receive
  receive_gone t e = ground (arith, e)

  close_gone : (t : WebSocketTransport S) → t.stream ≡ none → close socket f t ≡ (ok tt, t)
  unfolding close
  close_gone t e = ground (arith, e)

  IsLater-gone : (t t' : WebSocketTransport S) → IsLater t t' → t.stream ≡ none → t' ≡ t
  IsLater-gone t _ now e = refl
  IsLater-gone t _ (after_send {t'} m x) e =
      let q = IsLater-gone t t' x e in ap (λ r. r.1) (send_gone m t' (ap (λ u. u.stream) q ∙ e)) ∙ q
  IsLater-gone t _ (after_receive {t'} x) e =
      let q = IsLater-gone t t' x e in
      ap (λ r. r.1) (receive_gone t' (ap (λ u. u.stream) q ∙ e)) ∙ q
  IsLater-gone t _ (after_close {t'} x) e =
      let q = IsLater-gone t t' x e in ap (λ r. r.1) (close_gone t' (ap (λ u. u.stream) q ∙ e)) ∙ q

  -- A transport that is not connected stays as it is, whatever operations follow: each send and each
  -- receive fails with `ConnectionClosed`, and closing it again is a success.
  pub closed_for_good :
      (t t' : WebSocketTransport S) (m : Message)
      → is_connected socket f t ≡ false
      → IsLater t t'
      → (t' ≡ t)
        × (send socket f m t' ≡ (err connection_closed, t))
        × (receive socket f t' ≡ (err connection_closed, t))
        × (close socket f t' ≡ (ok tt, t))
  closed_for_good t t' m h x =
      let gone = stream_gone t h in
      let q = IsLater-gone t t' x gone in
      (
        q,
        ap (send socket f m) q ∙ send_gone m t gone,
        ap (receive socket f) q ∙ receive_gone t gone,
        ap (close socket f) q ∙ close_gone t gone,
      )

  on_next-IsOver :
      (next : Option (String ⊎ WsMessage)) (s : S) (t : WebSocketTransport S)
      → (is_connected socket f (on_next socket f next s t).1 ≡ false) ↔ IsOver next
  unfolding on_next is_connected
  on_next-IsOver none s t = (λ h. tt, λ o. refl)
  on_next-IsOver (some (inl e)) s t = stays
  on_next-IsOver (some (inr (WsMessage.text x))) s t = stays
  on_next-IsOver (some (inr (WsMessage.binary bs))) s t = stays
  on_next-IsOver (some (inr (WsMessage.ping bs))) s t = stays
  on_next-IsOver (some (inr (WsMessage.pong bs))) s t = stays
  on_next-IsOver (some (inr WsMessage.close_message)) s t = (λ h. tt, λ o. refl)
  on_next-IsOver (some (inr WsMessage.frame)) s t = stays

  send_encoded-open :
      (r : Result Bytes) (s : S) (t : WebSocketTransport S)
      → t.stream ≡ some s
      → is_connected socket f (send_encoded socket f r s t).1 ≡ true
  unfolding send_encoded is_connected
  send_encoded-open (ok bs) s t e = refl
  send_encoded-open (err x) s t e = ground (arith, e)

  -- A transport that has its stream loses it by `close`, whether or not closing succeeds, and by a
  -- `receive` exactly if that finds the end of the stream or a close message; no error of the socket
  -- takes it away, and no `send` does.
  pub loses_stream_iff :
      (t : WebSocketTransport S) (s : S) (m : Message)
      → t.stream ≡ some s
      → (is_connected socket f (send socket f m t).1 ≡ true)
        × ((is_connected socket f (receive socket f t).1 ≡ false) ↔ IsOver (socket.next s).0)
        × (is_connected socket f (close socket f t).1 ≡ false)
  unfolding send receive close is_connected
  loses_stream_iff t s m e = (
    rw (send, e) (send_encoded-open (serialize_message f t.serializer m) s t e),
    rw (receive, e) (on_next-IsOver (socket.next s).0 (socket.next s).1 t),
    rw (close, e) refl,
  )
