-- ===== src/Serialization/Stream/Ends.antt =====
-- The loop around `try_read_message` ends, whatever is in the buffer.
use tx2_link.Common.{ℕ, suc, ◌+◌, ◌*◌, ◌≤◌, ◌≡◌, refl, ap, none, List, [], ◌∷◌, map, length, arith}
use tx2_link.Error.{ok}
use tx2_link.Protocol.{Message}
use tx2_link.Serialization.{Bytes, Formats}
use tx2_link.Serialization.Stream.{StreamingDeserializer, try_read_message}
use tx2_link.Serialization.Stream.Frames.{try_read_message-next_frame, next_frame_shrinks}
use tx2_link.Serialization.Stream.Drain.{
  drain_fuel, drain, Splits, done, more, splits, Splits-rest, decode, drain_fuel-Splits,
  drain-Splits,
}

Splits-length :
    {b r : Bytes} {xs : List Bytes} → Splits b xs r → length xs * 4 + length r ≤ length b
Splits-length (done e) = omega arith
Splits-length (more {b} {x} {r} e s) = omega (arith, next_frame_shrinks b x r e, Splits-length s)

length-map {ℓ} : {A B : Type ℓ} (g : A → B) (l : List A) → length (map g l) ≡ length l
length-map g [] = refl
length-map g (a ∷ l) = ap suc (length-map g l)

-- A receiver that calls `try_read_message` until it says `Ok(None)` comes to an end, also where
-- messages do not decode: any number of rounds from the buffer's length on gives the same result,
-- after which a further call says `Ok(None)` and changes nothing; and it has taken at most one
-- message for each four bytes.
pub drain_ends :
    (f : Formats Message) (fuel : ℕ) (d : StreamingDeserializer)
    → length d.buffer ≤ fuel
    → (let (ms, d') = drain f d in
        (drain_fuel f fuel d ≡ (ms, d'))
        × (try_read_message f d' ≡ (ok none, d'))
        × (length ms * 4 + length d'.buffer ≤ length d.buffer))
drain_ends f fuel d h =
    let (xs, r, s) = splits d.buffer in
    let whole = drain-Splits f d.format s in
    rw whole (
      drain_fuel-Splits f d.format fuel s h,
      rw (try_read_message-next_frame f (record { format = d.format; buffer = r }), Splits-rest s)
          refl,
      omega (arith, Splits-length s, length-map (decode f d.format) xs),
    )
