-- ===== src/Transport/WebSocket/Examples.antt =====
-- The theorems on the websocket transport at concrete inputs.
use tx2_link.Common.{
  ◌≡◌, ◌↔◌, refl, ap, true, false, String, ◌⊎◌, inr, Option, none, some, List, [], ◌∷◌, ◌++◌,
}
use tx2_link.Error.{ok, err, connection_closed}
use tx2_link.Protocol.{Message}
use tx2_link.Serialization.{Bytes, BinaryFormat, serialize_message, deserialize_message}
use tx2_link.Transport.{send_all, receive_times}
use tx2_link.Transport.WebSocket.{
  WsMessage, Socket, WebSocketTransport, new, send, receive, close, is_connected,
  websocket_transport,
}
use tx2_link.Transport.WebSocket.Closed.{
  IsOver, now, after_send, after_close, closed_for_good, loses_stream_iff,
}
use tx2_link.Transport.WebSocket.Delivery.{IsQueue, IsMixed, taken, websocket_delivers}
use tx2_link.Samples.{ping_at, ping_formats}

-- Two queues.
record Pipe : Type 0 where
  outgoing : List Bytes
  incoming : List WsMessage

abbrev pipe_next : List WsMessage → Pipe → Option (String ⊎ WsMessage) × Pipe
pipe_next [] s = (none, s)
pipe_next (w ∷ ws) s = (some (inr w), record s { incoming = ws })

abbrev pipe : Socket Pipe
pipe = record {
  send = λ bs s. (inr tt, record s { outgoing = s.outgoing ++ bs ∷ [] });
  next = λ s. pipe_next s.incoming s;
  close = λ s. (inr tt, s);
}

abbrev pipe-IsQueue : IsQueue pipe
pipe-IsQueue = record {
  outbox = λ s. s.outgoing;
  inbox = λ s. s.incoming;
  send-outbox = λ bs s. (record s { outgoing = s.outgoing ++ bs ∷ [] }, refl, refl);
  next-inbox = λ w ws s e. (record s { incoming = ws }, ap (λ l. pipe_next l s) e, refl);
}

abbrev empty : Pipe
empty = record { outgoing = []; incoming = [] }

abbrev two_pings : List Message
two_pings = ping_at 1 ∷ ping_at 200 ∷ []

abbrev arrived : List WsMessage
arrived =
    WsMessage.ping []
    ∷ WsMessage.binary (1 ∷ 7 ∷ [])
    ∷ WsMessage.text "hello"
    ∷ WsMessage.binary (200 ∷ 7 ∷ [])
    ∷ []

websocket_delivers_example :
    ((send_all (websocket_transport pipe ping_formats) two_pings (new BinaryFormat.json empty)).0
      ≡ ok tt ∷ ok tt ∷ [])
    × (taken
          (receive_times
            (websocket_transport pipe ping_formats)
            4
            (new BinaryFormat.json (record empty { incoming = arrived }))).0
        ≡ two_pings)
unfolding serialize_message deserialize_message send_all send
websocket_delivers_example =
    websocket_delivers pipe pipe-IsQueue ping_formats BinaryFormat.json two_pings empty
      (record empty { incoming = arrived }) arrived
      ((1 ∷ 7 ∷ [], refl, refl), ((200 ∷ 7 ∷ [], refl, refl), tt)) refl
      (IsMixed.between tt (IsMixed.one (IsMixed.between tt (IsMixed.one IsMixed.done)))) refl

-- After a close message has been received.
abbrev ended : WebSocketTransport Pipe
ended =
    (receive pipe ping_formats
      (new BinaryFormat.json (record empty { incoming = WsMessage.close_message ∷ [] }))).1

closed_for_good_example :
    (let later = (send pipe ping_formats (ping_at 2) (close pipe ping_formats ended).1).1 in
      (later ≡ ended)
      × (send pipe ping_formats (ping_at 1) later ≡ (err connection_closed, ended))
      × (receive pipe ping_formats later ≡ (err connection_closed, ended))
      × (close pipe ping_formats later ≡ (ok tt, ended)))
unfolding receive is_connected
closed_for_good_example =
    closed_for_good pipe ping_formats ended _ (ping_at 1) refl
      (after_send (ping_at 2) (after_close now))

loses_stream_iff_example :
    (let t = new BinaryFormat.json (record empty { incoming = arrived }) in
      (is_connected pipe ping_formats (send pipe ping_formats (ping_at 1) t).1 ≡ true)
      × ((is_connected pipe ping_formats (receive pipe ping_formats t).1 ≡ false)
          ↔ IsOver (pipe.next (record empty { incoming = arrived })).0)
      × (is_connected pipe ping_formats (close pipe ping_formats t).1 ≡ false))
loses_stream_iff_example =
    loses_stream_iff pipe ping_formats (new BinaryFormat.json (record empty { incoming = arrived }))
      (record empty { incoming = arrived }) (ping_at 1) refl
