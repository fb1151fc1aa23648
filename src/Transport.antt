-- ===== src/Transport.antt =====
-- transport.rs: the trait that the sync manager sends and receives through. A method returns its
-- result and the new state of the transport.
pub mod Recording
pub mod Memory
pub mod Stdio
pub mod WebSocket
mod Examples
use tx2_link.Common.{ℕ, zero, suc, Bool, String, Option, List, [], ◌∷◌}
use tx2_link.Error.{Result}
use tx2_link.Protocol.{Message}

pub record Transport (T : Type 0) : Type 0 where
  pub send : Message → T → Result (Unit {0}) × T
  pub receive : T → Result (Option Message) × T
  pub close : T → Result (Unit {0}) × T
  pub is_connected : T → Bool

pub data TransportError : Type 0 where
  not_connected send_failed receive_failed close_failed : TransportError

abbrev pub error_text : TransportError → String
error_text TransportError.not_connected = "Not connected"
error_text TransportError.send_failed = "Send failed"
error_text TransportError.receive_failed = "Receive failed"
error_text TransportError.close_failed = "Close failed"

-- A caller that sends message after message, and one that receives a number of times.
module _ {T : Type 0} (transport : Transport T) where
  unfoldable pub send_all : List Message → T → List (Result (Unit {0})) × T
  send_all [] t = ([], t)
  send_all (m ∷ ms) t =
      let (r, t') = transport.send m t in let (rs, after) = send_all ms t' in (r ∷ rs, after)

  unfoldable pub receive_times : ℕ → T → List (Result (Option Message)) × T
  receive_times zero t = ([], t)
  receive_times (suc n) t =
      let (r, t') = transport.receive t in let (rs, after) = receive_times n t' in (r ∷ rs, after)
