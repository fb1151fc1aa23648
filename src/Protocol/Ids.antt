-- ===== src/Protocol/Ids.antt =====
-- What the identifiers of messages say: the clock above, the number of the message below.
use tx2_link.Common.{
  List, [], ◌∷◌, length, All, ◌≤◌, ℕ, ◌+◌, ◌*◌, ◌/◌, ◌%◌, ◌^◌, ◌<◌, ◌≡◌, ◌≢◌, refl, sym, subst,
  arith, add64, IsU32, IsU64,
}
use tx2_link.Common.Bits.{bit_and-mask, bit_or-join}
use tx2_link.Protocol.{MessageType, MessageHeader}
use tx2_link.Protocol.Messages.{message_id, new_header}

-- The bits of the two fields, as arithmetic.
message_id-sum :
    (timestamp sequence : ℕ)
    → message_id timestamp sequence ≡ timestamp % 2 ^ 44 * 2 ^ 20 + sequence % 2 ^ 20
unfolding message_id
message_id-sum timestamp sequence =
    let shifted : timestamp * 2 ^ 20 % 2 ^ 64 ≡ timestamp % 2 ^ 44 * 2 ^ 20 = omega arith in
    rw (bit_and-mask 20 sequence, shifted)
      (bit_or-join 20 (timestamp % 2 ^ 44) (sequence % 2 ^ 20) (omega arith))

-- A header's numbers fit the types of their fields, and its identifier is the time in milliseconds
-- (its low 44 bits) over the low 20 bits of the message's number; the number is one more than the
-- counter, on 64 bits, and the counter is left at it. The version that is passed in fits a u32.
pub new_header-IsTyped :
    (msg_type : MessageType) (version millis counter : ℕ)
    → IsU32 version
    → (let (header, counter') = new_header msg_type version millis counter in
        IsU64 header.timestamp
        × IsU64 header.id
        × IsU64 header.sequence
        × IsU32 header.schema_version
        × (header.id / 2 ^ 20 ≡ millis % 2 ^ 44)
        × (header.id % 2 ^ 20 ≡ header.sequence % 2 ^ 20)
        × (header.sequence ≡ (counter + 1) % 2 ^ 64)
        × (counter' ≡ header.sequence))
unfolding new_header
new_header-IsTyped msg_type version millis counter v =
    let sum = message_id-sum (millis % 2 ^ 64) (add64 counter 1) in
    (
      omega arith,
      omega (arith, sum),
      omega arith,
      v,
      omega (arith, sum),
      omega (arith, sum),
      refl,
      refl,
    )

header_apart :
    (k k' : MessageType) (v v' millis millis' counter counter' : ℕ)
    → counter < counter'
    → counter' < counter + 2 ^ 20
    → counter' + 1 < 2 ^ 64
    → (new_header k v millis counter).0.id ≢ (new_header k' v' millis' counter').0.id
unfolding new_header
header_apart k k' v v' millis millis' counter counter' a b c same = omega (
  arith,
  message_id-sum (millis % 2 ^ 64) (add64 counter 1),
  message_id-sum (millis' % 2 ^ 64) (add64 counter' 1),
  same,
)

-- Calls of `MessageHeader::new`, each of which begins after the one before has ended.
unfoldable pub make_headers : List (MessageType × ℕ × ℕ) → ℕ → List MessageHeader
unfolding new_header
make_headers [] counter = []
make_headers ((msg_type, version, millis) ∷ calls) counter =
    let (header, counter') = new_header msg_type version millis counter in
    header ∷ make_headers calls counter'

-- No two of them have the same identifier.
abbrev pub AreApart : List MessageHeader → Type 0
AreApart [] = Unit
AreApart (h ∷ hs) = All (λ h'. h.id ≢ h'.id) hs × AreApart hs

next_counter :
    (k : MessageType) (v millis counter : ℕ)
    → counter + 1 < 2 ^ 64
    → (new_header k v millis counter).1 ≡ counter + 1
unfolding new_header
next_counter k v millis counter h = omega arith

later_apart :
    (k : MessageType) (v millis counter : ℕ) (calls : List (MessageType × ℕ × ℕ)) (counter' : ℕ)
    → counter < counter'
    → counter' + length calls ≤ counter + 2 ^ 20
    → counter' + length calls < 2 ^ 64
    → All (λ h. (new_header k v millis counter).0.id ≢ h.id) (make_headers calls counter')
unfolding make_headers
later_apart k v millis counter [] counter' a b c = tt
later_apart k v millis counter ((k', v', millis') ∷ calls) counter' a b c = (
  header_apart k k' v v' millis millis' counter counter' a (omega arith) (omega arith),
  rw (next_counter k' v' millis' counter' (omega arith)) (
      later_apart k v millis counter calls (counter' + 1) (omega arith) (omega arith)
        (omega arith)),
)

-- At most 2 ^ 20 messages are made in a process, one call after the other, so that no two calls
-- overlap: no two of them have the same identifier, whatever the clock says at each, and even if it
-- goes back. The counter does not come to 2 ^ 64.
pub new_headers-distinct :
    (calls : List (MessageType × ℕ × ℕ)) (counter : ℕ)
    → length calls ≤ 2 ^ 20
    → counter + length calls < 2 ^ 64
    → AreApart (make_headers calls counter)
unfolding make_headers
new_headers-distinct [] counter a c = tt
new_headers-distinct ((k, v, millis) ∷ calls) counter a c =
    let next = sym (next_counter k v millis counter (omega arith)) in
    (
      subst (λ n. All (λ h. (new_header k v millis counter).0.id ≢ h.id) (make_headers calls n))
          next
          (later_apart k v millis counter calls (counter + 1) (omega arith) (omega arith)
            (omega arith)),
      subst (λ n. AreApart (make_headers calls n)) next
          (new_headers-distinct calls (counter + 1) (omega arith) (omega arith)),
    )
