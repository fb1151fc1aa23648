-- ===== src/Serialization/Stream/Drain.antt =====
-- A reader that is fed in pieces. A receiver calls `try_read_message` until it says `Ok(None)`:
-- `drain` is that loop, with what each call returned.
use tx2_link.Common.{
  ℕ, zero, suc, ◌≤◌, ◌≡◌, refl, sym, Option, none, some, List, [], ◌∷◌, ◌++◌, map, append_assoc,
  append-nil, inl, inr, arith, length, Option-cases,
}
use tx2_link.Error.{Result, ok, err}
use tx2_link.Protocol.{Message}
use tx2_link.Serialization.{Bytes, Formats, BinaryFormat, deserialize_message}
use tx2_link.Serialization.Stream.{StreamingDeserializer, decoded, feed, try_read_message}
use mathlib.Core.List.{flatten, map-append}
use tx2_link.Serialization.Stream.Frames.{
  next_frame, try_read_message-next_frame, next_frame-append, next_frame_shrinks,
}

-- The loop's body: stop at `Ok(None)`, else note what was returned and go on.
unfoldable pub go_on :
    Result (Option Message) × StreamingDeserializer
    → (StreamingDeserializer → List (Result Message) × StreamingDeserializer)
    → List (Result Message) × StreamingDeserializer
go_on (ok none, d) k = ([], d)
go_on (ok (some m), d) k = let (ms, d') = k d in (ok m ∷ ms, d')
go_on (err e, d) k = let (ms, d') = k d in (err e ∷ ms, d')

go_on-decoded :
    (r : Result Message) (d : StreamingDeserializer)
    (k : StreamingDeserializer → List (Result Message) × StreamingDeserializer)
    → go_on (decoded r, d) k ≡ (r ∷ (k d).0, (k d).1)
unfolding go_on
go_on-decoded (ok m) d k = refl
go_on-decoded (err e) d k = refl

module _ (f : Formats Message) where
  -- What the calls returned, up to the first that returned `Ok(None)`, and the reader then. Each
  -- other call consumes four bytes at least, so as many calls as there are bytes are enough.
  unfoldable pub drain_fuel :
      ℕ → StreamingDeserializer → List (Result Message) × StreamingDeserializer
  drain_fuel zero d = ([], d)
  drain_fuel (suc fuel) d = go_on (try_read_message f d) (drain_fuel fuel)

  unfoldable pub drain : StreamingDeserializer → List (Result Message) × StreamingDeserializer
  unfolding drain_fuel
  drain d = drain_fuel (length d.buffer) d

  -- Fed piece by piece and drained after each piece.
  unfoldable pub feed_all :
      List Bytes → StreamingDeserializer → List (Result Message) × StreamingDeserializer
  unfolding feed drain
  feed_all [] d = ([], d)
  feed_all (piece ∷ pieces) d =
      let (ms, d') = drain (feed piece d) in
      let (more, d'') = feed_all pieces d' in (ms ++ more, d'')

-- `Splits b xs r`: the bytes `b` are the frames with the contents `xs`, and `r`, which holds no
-- whole frame.
pub data Splits : Bytes → List Bytes → Bytes → Type 0 where
  done : {b : Bytes} → next_frame b ≡ none → Splits b [] b
  more :
      {b x r r' : Bytes} {xs : List Bytes}
      → next_frame b ≡ some (x, r)
      → Splits r xs r'
      → Splits b (x ∷ xs) r'

Splits-fuel : (n : ℕ) (b : Bytes) → length b ≤ n → (xs : List Bytes) × (r : Bytes) × Splits b xs r
Splits-fuel zero b h = elim (Option-cases (next_frame b)) [
  | inl e ↦ ([], b, done e)
  | inr ((x, r), e) ↦ absurd (omega (arith, next_frame_shrinks b x r e))
]
Splits-fuel (suc n) b h = elim (Option-cases (next_frame b)) [
  | inl e ↦ ([], b, done e)
  | inr ((x, r), e) ↦
      let (xs, r', s) = Splits-fuel n r (omega (arith, next_frame_shrinks b x r e)) in
      (x ∷ xs, r', more e s)
]

-- Every buffer splits.
pub splits : (b : Bytes) → (xs : List Bytes) × (r : Bytes) × Splits b xs r
splits b = Splits-fuel (length b) b (omega arith)

pub Splits-append :
    (c : Bytes) {b r r' : Bytes} {xs ys : List Bytes}
    → Splits b xs r
    → Splits (r ++ c) ys r'
    → Splits (b ++ c) (xs ++ ys) r'
Splits-append c (done e) t = t
Splits-append c (more {b} {x} {r} e s) t = more (next_frame-append b c x r e) (Splits-append c s t)

pub Splits-rest : {b r : Bytes} {xs : List Bytes} → Splits b xs r → next_frame r ≡ none
Splits-rest (done e) = e
Splits-rest (more e s) = Splits-rest s

module _ (f : Formats Message) (format : BinaryFormat) where
  abbrev pub reader : Bytes → StreamingDeserializer
  reader b = record { format = format; buffer = b }

  abbrev pub decode : Bytes → Result Message
  decode = deserialize_message f (record { format = format })

  pub drain_fuel-Splits :
      (n : ℕ) {b r : Bytes} {xs : List Bytes}
      → Splits b xs r
      → length b ≤ n
      → drain_fuel f n (reader b) ≡ (map decode xs, reader r)
  unfolding drain_fuel go_on
  drain_fuel-Splits zero (done e) h = refl
  drain_fuel-Splits zero (more {b} {x} {r} e s) h =
      absurd (omega (arith, next_frame_shrinks b x r e))
  drain_fuel-Splits (suc n) (done {b} e) h = rw (try_read_message-next_frame f (reader b), e, go_on)
  drain_fuel-Splits (suc n) (more {b} {x} {r} e s) h = rw (
    try_read_message-next_frame f (reader b),
    e,
    go_on-decoded (decode x) (reader r),
    drain_fuel-Splits n s (omega (arith, next_frame_shrinks b x r e)),
  )

  pub drain-Splits :
      {b r : Bytes} {xs : List Bytes}
      → Splits b xs r
      → drain f (reader b) ≡ (map decode xs, reader r)
  unfolding drain
  drain-Splits {b} s = drain_fuel-Splits (length b) s (omega arith)

  pub feed_all-drain :
      (pieces : List Bytes) (b : Bytes)
      → next_frame b ≡ none
      → feed_all f pieces (reader b) ≡ drain f (reader (b ++ flatten pieces))
  unfolding feed_all feed flatten
  feed_all-drain [] b h = rw append-nil (sym (drain-Splits (done h)))
  feed_all-drain (p ∷ ps) b h =
      let (ys, r, s) = splits (b ++ p) in
      let (zs, r', t) = splits (r ++ flatten ps) in
      rw (
        drain-Splits s,
        feed_all-drain ps r (Splits-rest s),
        drain-Splits t,
        ← append_assoc b p (flatten ps),
        drain-Splits (Splits-append (flatten ps) s t),
        map-append,
      )
