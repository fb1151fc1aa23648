-- ===== src/Protocol/Examples.antt =====
-- The identifiers of messages at concrete inputs.
use tx2_link.Common.{ℕ, List, ◌+◌, ◌/◌, ◌%◌, ◌^◌, ◌≡◌, refl, [], ◌∷◌, arith, IsU32, IsU64}
use tx2_link.Protocol.{MessageType}
use tx2_link.Protocol.Messages.{message_id, new_header}
use tx2_link.Protocol.Ids.{new_header-IsTyped, make_headers, AreApart, new_headers-distinct}
use tx2_link.Protocol.Race.{Process, idle, has, run, Looks, calls_race}

message_id_runs : message_id 1 0x10_0002 ≡ 0x10_0002
unfolding message_id
message_id_runs = refl

new_header-IsTyped_example :
    (let (header, counter') = new_header MessageType.ping 3 1_700_000_000_000 41 in
      IsU64 header.timestamp
      × IsU64 header.id
      × IsU64 header.sequence
      × IsU32 header.schema_version
      × (header.id / 2 ^ 20 ≡ 1_700_000_000_000 % 2 ^ 44)
      × (header.id % 2 ^ 20 ≡ header.sequence % 2 ^ 20)
      × (header.sequence ≡ (41 + 1) % 2 ^ 64)
      × (counter' ≡ header.sequence))
new_header-IsTyped_example =
    new_header-IsTyped MessageType.ping 3 1_700_000_000_000 41 (omega arith)

-- The clock goes back by a second.
abbrev calls : List (MessageType × ℕ × ℕ)
calls =
    (MessageType.ping, 3, 1_700_000_000_000)
    ∷ (MessageType.pong, 3, 1_699_999_999_000)
    ∷ (MessageType.ping, 3, 1_700_000_000_000)
    ∷ []

new_headers-distinct_example : AreApart (make_headers calls 41)
new_headers-distinct_example = new_headers-distinct calls 41 (omega arith) (omega arith)

-- No thread has made a message yet.
abbrev at_start : Process
at_start = record { counter = 0; thread = λ i. idle }

calls_race_example :
    (let (h, counter) = new_header MessageType.ping 3 1_700_000_000_000 0 in
      let (h', counter') = new_header MessageType.pong 3 1_700_000_000_000 counter in
      Looks 0 1
        (run (0 ∷ 0 ∷ 0 ∷ 1 ∷ 1 ∷ 1 ∷ []) at_start)
        (has h.sequence)
        (has h'.sequence)
        counter'
      × Looks 0 1
          (run (0 ∷ 1 ∷ 0 ∷ 1 ∷ 0 ∷ 1 ∷ []) at_start)
          (has h.sequence)
          (has h.sequence)
          counter
      × (message_id h'.timestamp h.sequence ≡ h.id))
calls_race_example =
    calls_race 0 1 (λ p. absurd (omega (arith, p))) at_start tt tt MessageType.ping MessageType.pong
      3 3 1_700_000_000_000
