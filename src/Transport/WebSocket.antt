-- ===== src/Transport/WebSocket.antt =====
-- `WebSocketTransport`, and with it the asynchronous trait. The stream of tokio-tungstenite is a
-- parameter. Each call is awaited to its end before the next, so that a method is a function of the
-- transport's state, as it is in `Transport`.
pub mod Closed
pub mod Delivery
mod Examples
use tx2_link.Common.{Bool, true, false, String, ◌⊎◌, inl, inr, Option, none, some}
use tx2_link.Error.{LinkError, connection_closed, Result, ok, err}
use tx2_link.Protocol.{Message}
use tx2_link.Serialization.{
  Bytes, BinaryFormat, BinarySerializer, Formats, try_with, serialize_message, deserialize_message,
}
use tx2_link.Serialization.Stream.{decoded}
use tx2_link.Transport.{Transport}

-- `AsyncTransport`
abbrev pub AsyncTransport : Type 0 → Type 0
AsyncTransport T = Transport T

-- `tungstenite::Message`; the frame of a close message is not looked at.
pub data WsMessage : Type 0 where
  text : String → WsMessage
  binary ping pong : Bytes → WsMessage
  close_message frame : WsMessage

-- `WebSocketStream<TcpStream>`: an error is the text that `to_string` gives of it. `send` sends a
-- binary message, and `next` gives nothing at the end of the stream.
pub record Socket (S : Type 0) : Type 0 where
  pub send : Bytes → S → (String ⊎ Unit {0}) × S
  pub next : S → Option (String ⊎ WsMessage) × S
  pub close : S → (String ⊎ Unit {0}) × S

pub record WebSocketTransport (S : Type 0) : Type 0 where
  pub serializer : BinarySerializer
  pub stream : Option S

-- `map_err(|e| LinkError::Transport(e.to_string()))?` and `Ok(())`
abbrev pub sent_or : String ⊎ Unit {0} → Result (Unit {0})
sent_or r = try_with LinkError.transport r

module _ {S : Type 0} where
  abbrev pub new : BinaryFormat → S → WebSocketTransport S
  new format stream = record { serializer = record { format = format }; stream = some stream }

  module _ (socket : Socket S) (f : Formats Message) where
    -- What is done with the encoding of a message.
    unfoldable pub send_encoded :
        Result Bytes → S → WebSocketTransport S → Result (Unit {0}) × WebSocketTransport S
    send_encoded (err e) s t = (err e, t)
    send_encoded (ok bs) s t =
        let (r, s') = socket.send bs s in (sent_or r, record t { stream = some s' })

    unfoldable pub send : Message → WebSocketTransport S → Result (Unit {0}) × WebSocketTransport S
    unfolding serialize_message send_encoded
    send message t = elim t.stream [
      | none ↦ (err connection_closed, t)
      | some s ↦ send_encoded (serialize_message f t.serializer message) s t
    ]

    -- The `match` on what `next` gives, with the state that it leaves.
    unfoldable pub on_next :
        Option (String ⊎ WsMessage)
        → S
        → WebSocketTransport S
        → Result (Option Message) × WebSocketTransport S
    unfolding deserialize_message
    on_next (some (inr (WsMessage.binary bs))) s t =
        (decoded (deserialize_message f t.serializer bs), record t { stream = some s })
    on_next (some (inr WsMessage.close_message)) s t =
        (err connection_closed, record t { stream = none })
    on_next (some (inr w)) s t = (ok none, record t { stream = some s })
    on_next (some (inl e)) s t = (err (LinkError.transport e), record t { stream = some s })
    on_next none s t = (err connection_closed, record t { stream = none })

    unfoldable pub receive : WebSocketTransport S → Result (Option Message) × WebSocketTransport S
    unfolding on_next
    receive t = elim t.stream [
      | none ↦ (err connection_closed, t)
      | some s ↦ let (next, s') = socket.next s in on_next next s' t
    ]

    -- The stream is dropped, also if closing it fails.
    unfoldable pub close : WebSocketTransport S → Result (Unit {0}) × WebSocketTransport S
    close t = elim t.stream [
      | none ↦ (ok tt, t)
      | some s ↦ (sent_or (socket.close s).0, record t { stream = none })
    ]

    unfoldable pub is_connected : WebSocketTransport S → Bool
    is_connected t = elim t.stream [ none ↦ false | some s ↦ true ]

    abbrev pub websocket_transport : AsyncTransport (WebSocketTransport S)
    websocket_transport = record {
      send = send;
      receive = receive;
      close = close;
      is_connected = is_connected;
    }
