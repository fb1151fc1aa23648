-- ===== src/Transport/Examples.antt =====
-- Tests of the transports, after those of transport.rs, and their theorems at concrete inputs.
use tx2_link.Common.{◌≡◌, refl, arith, List, [], ◌∷◌, some}
use tx2_link.Error.{ok, err, connection_closed}
use tx2_link.Protocol.{Message}
use tx2_link.Samples.{ping_at, ping_formats}
use tx2_link.Serialization.{BinaryFormat, serialize_message, deserialize_message}
use tx2_link.Transport.{send_all, receive_times}
use tx2_link.Transport.Memory.{new, close, send}
use tx2_link.Transport.Stdio as Stdio
use tx2_link.Transport.Stdio.{stdio_transport}
use tx2_link.Transport.Stdio.RoundTrip.{streams, stdio_delivers}

abbrev two_pings : List Message
two_pings = ping_at 1 ∷ ping_at 200 ∷ []

closed_sends_nothing :
    (send ping_formats (ping_at 1) (close ping_formats (new BinaryFormat.json)).1).0
    ≡ err connection_closed
unfolding send close
closed_sends_nothing = refl

stdio_delivers_example :
    receive_times (stdio_transport ping_formats) 2 (
      Stdio.new BinaryFormat.bincode,
      streams ping_formats BinaryFormat.bincode
          (send_all (stdio_transport ping_formats) two_pings (
            Stdio.new BinaryFormat.bincode,
            streams ping_formats BinaryFormat.bincode [] [],
          )).1.1.stdout
          [],
    )
    ≡ (
      ok (some (ping_at 1)) ∷ ok (some (ping_at 200)) ∷ [],
      (Stdio.new BinaryFormat.bincode, streams ping_formats BinaryFormat.bincode [] []),
    )
unfolding serialize_message deserialize_message
stdio_delivers_example =
    stdio_delivers ping_formats BinaryFormat.bincode two_pings
      ((1 ∷ 7 ∷ [], refl, omega arith, refl), ((200 ∷ 7 ∷ [], refl, omega arith, refl), tt))
