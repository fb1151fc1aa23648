-- ===== src/Serialization/Stream/Frames.antt =====
-- What a reader takes from its buffer: `next_frame` says it of the bytes alone.
use tx2_link.Common.{
  ℕ, zero, suc, ◌+◌, ◌≤◌, ◌≡◌, refl, Option, none, some, [], ◌∷◌, ◌++◌, arith, ltb, if◌then◌else◌,
  length, length-append, take, take-append, drop, drop-append, IsU32,
}
use tx2_link.Error.{Result, ok}
use tx2_link.Protocol.{Message}
use tx2_link.Serialization.{Bytes, Formats, deserialize_message}
use tx2_link.Serialization.Stream.{
  to_le_bytes, from_le_bytes, frame, StreamingDeserializer, decoded, try_read_message,
}

-- The first frame's content and the bytes behind it, if the frame is there in full.
unfoldable pub next_frame : Bytes → Option (Bytes × Bytes)
next_frame b =
    if ltb (length b) 4
    then none
    else if ltb (length b) (4 + from_le_bytes b)
    then none
    else some (take (from_le_bytes b) (drop 4 b), drop (from_le_bytes b) (drop 4 b))

abbrev pub reading :
    Formats Message
    → StreamingDeserializer
    → Option (Bytes × Bytes)
    → Result (Option Message) × StreamingDeserializer
reading f d none = (ok none, d)
reading f d (some (bs, rest)) =
    (decoded (deserialize_message f (record { format = d.format }) bs), record d { buffer = rest })

pub try_read_message-next_frame :
    (f : Formats Message) (d : StreamingDeserializer)
    → try_read_message f d ≡ reading f d (next_frame d.buffer)
unfolding try_read_message next_frame
try_read_message-next_frame f d = ground arith

pub from_le_bytes-to_le_bytes :
    (n : ℕ) (rest : Bytes) → IsU32 n → from_le_bytes (to_le_bytes n ++ rest) ≡ n
unfolding to_le_bytes from_le_bytes
from_le_bytes-to_le_bytes n rest h = omega arith

pub from_le_bytes-frame :
    (bs rest : Bytes) → IsU32 (length bs) → from_le_bytes (frame bs ++ rest) ≡ length bs
unfolding frame to_le_bytes from_le_bytes
from_le_bytes-frame bs rest h = omega arith

pub length-frame : (bs : Bytes) → length (frame bs) ≡ 4 + length bs
unfolding frame to_le_bytes
length-frame bs = omega arith

pub drop-frame : (bs rest : Bytes) → drop 4 (frame bs ++ rest) ≡ bs ++ rest
unfolding frame to_le_bytes
drop-frame bs rest = refl

-- A whole frame is taken, and what follows it stays.
pub next_frame-frame :
    (bs rest : Bytes) → IsU32 (length bs) → next_frame (frame bs ++ rest) ≡ some (bs, rest)
unfolding next_frame
next_frame-frame bs rest h =
    rw (from_le_bytes-frame bs rest h, drop-frame bs rest, take-append, drop-append)
      (ground (arith, length-append (frame bs) rest, length-frame bs))

take-append_within : (n : ℕ) (b c : Bytes) → n ≤ length b → take n (b ++ c) ≡ take n b
take-append_within zero b c h = refl
take-append_within (suc n) [] c h = absurd (omega arith)
take-append_within (suc n) (x ∷ b) c h = rw (take-append_within n b c (omega arith))

drop-append_within : (n : ℕ) (b c : Bytes) → n ≤ length b → drop n (b ++ c) ≡ drop n b ++ c
drop-append_within zero b c h = refl
drop-append_within (suc n) [] c h = absurd (omega arith)
drop-append_within (suc n) (x ∷ b) c h = drop-append_within n b c (omega arith)

length-drop : (n : ℕ) (b : Bytes) → n ≤ length b → n + length (drop n b) ≡ length b
length-drop zero b h = omega arith
length-drop (suc n) [] h = absurd (omega arith)
length-drop (suc n) (x ∷ b) h = omega (arith, length-drop n b (omega arith))

from_le_bytes-append : (b c : Bytes) → 4 ≤ length b → from_le_bytes (b ++ c) ≡ from_le_bytes b
unfolding from_le_bytes
from_le_bytes-append (b0 ∷ b1 ∷ b2 ∷ b3 ∷ b) c h = refl
from_le_bytes-append _ c h = absurd (omega arith)

-- More input behind a whole frame changes nothing in it.
pub next_frame-append :
    (b c x r : Bytes) → next_frame b ≡ some (x, r) → next_frame (b ++ c) ≡ some (x, r ++ c)
unfolding next_frame
next_frame-append b c x r h = ground (
  arith,
  length-append b c,
  from_le_bytes-append b c,
  drop-append_within 4 b c,
  length-drop 4 b,
  take-append_within (from_le_bytes b) (drop 4 b) c,
  drop-append_within (from_le_bytes b) (drop 4 b) c,
)

pub next_frame_shrinks : (b x r : Bytes) → next_frame b ≡ some (x, r) → length r + 4 ≤ length b
unfolding next_frame
next_frame_shrinks b x r h =
    ground (arith, length-drop 4 b, length-drop (from_le_bytes b) (drop 4 b))
