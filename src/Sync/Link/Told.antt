-- ===== src/Sync/Link/Told.antt =====
-- The base of the sender's compressor is the snapshot of the last delta that succeeded.
use tx2_link.Common.{◌≡◌, refl, ap, ◌∙◌, Option, none, inl, inr}
use tx2_link.Common.Maps.{string_key, nat_key}
use tx2_link.Float.{FloatOps}
use tx2_link.Serialization.{WorldSnapshot}
use tx2_link.Compression.Json.{SerdeJson}
use tx2_link.Compression.Field.{FieldCompressor}
use tx2_link.Transport.{Transport}
use tx2_link.Sync.{SyncManager}
use tx2_link.Sync.Logged.{MessageLog}
use tx2_link.Sync.Said.{send_delta-IsSaid}
use tx2_link.Sync.Remarks.{
  SaysNothing, request_snapshot-SaysNothing, send_ack-SaysNothing, ping-SaysNothing,
  refused-SaysNothing, receive-SaysNothing, send_snapshot-IsSaid,
}
use tx2_link.Sync.Link.{
  Link, Step, sends_delta, is_refused, repeats, asks, acknowledges, pings, receives, hears, acts,
  Reach, here, next, told, last_told,
}

module _ {T P : Type 0} ⦃transport : Transport T⦄ ⦃line : Transport P⦄ (log : MessageLog T)
    (floats : FloatOps) (json : SerdeJson) (f : FieldCompressor) where
  abbrev pub stored : Link T P → Option WorldSnapshot
  stored l = l.sender.delta_compressor.previous_snapshot

  silence-stored :
      (l : Link T P) (m : SyncManager T)
      → SaysNothing log l.sender m
      → m.delta_compressor.previous_snapshot ≡ stored l
  silence-stored l m said = ap (λ c. c.previous_snapshot) said.compressor

  Step-stored :
      {l m : Link T P} (x : Step log floats json f l m)
      → stored m ≡ told log floats json f x (stored l)
  Step-stored (sends_delta l order entities now s counter h k) =
      ap (λ c. c.previous_snapshot)
        (send_delta-IsSaid log floats json order entities now s l.sender counter k).compressor
  Step-stored (is_refused l order entities now s counter off) =
      silence-stored l _
        (refused-SaysNothing log floats json order entities now s l.sender counter off)
  Step-stored (repeats l now s base counter e same) =
      elim (send_snapshot-IsSaid log now s l.sender counter) [
        | inl said ↦ ap (λ c. c.previous_snapshot) said.compressor
        | inr said ↦ silence-stored l _ said
      ]
  Step-stored (asks l millis counter) =
      silence-stored l _ (request_snapshot-SaysNothing log millis l.sender counter)
  Step-stored (acknowledges l id millis counter) =
      silence-stored l _ (send_ack-SaysNothing log millis l.sender counter id)
  Step-stored (pings l millis counter) =
      silence-stored l _ (ping-SaysNothing log millis l.sender counter)
  Step-stored (receives l millis counter h) =
      silence-stored l _ (receive-SaysNothing log floats millis l.sender counter h)
  Step-stored (hears l millis counter message rest e) = refl
  Step-stored (acts l peer) = refl

  pub Reach-stored :
      {l m : Link T P}
      → stored l ≡ none
      → (r : Reach log floats json f l m) → stored m ≡ last_told log floats json f r
  Reach-stored e here = e
  Reach-stored e (next r x) = Step-stored x ∙ ap (told log floats json f x) (Reach-stored e r)
