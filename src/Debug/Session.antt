-- ===== src/Debug/Session.antt =====
-- What a whole process prints, and what the serializer prints of one message.
use tx2_link.Common.{
  ℕ, ◌+◌, not, Bool, false, ◌||◌, String, ◌↔◌, ◌⊎◌, List, [], ◌∷◌, ◌++◌, length, length-append,
  if◌then◌else◌, ◌≡◌, refl, arith, Bool-cases, inl, inr,
}
use tx2_link.Error.{Result, ok, err}
use tx2_link.Float.{FloatOps}
use tx2_link.Protocol.{Message}
use tx2_link.Serialization.{Bytes, BinarySerializer, Formats, WorldSnapshot}
use tx2_link.Serialization as Wire
use tx2_link.Debug.{
  Modes, Pretty, FloatText, logged, init_debug_mode, line_if, is_debug_enabled, is_trace_enabled,
  log_message, trace_serialization, trace_deserialization,
}
use tx2_link.Debug.Calls.{
  report_serialized, serialize_message_logged, report_deserialized, deserialize_message_logged,
}
use tx2_link.Debug.Quiet.{Call, is_on, print_all, session, print-nil_iff}

append-nil_iff : (xs ys : List String) → ((xs ++ ys) ≡ []) ↔ ((xs ≡ []) × (ys ≡ []))
append-nil_iff [] ys = ground arith
append-nil_iff (x ∷ xs) ys = ground arith

line_if-nil_iff : (b : Bool) (text : String) → (line_if b text ≡ []) ↔ (b ≡ false)
line_if-nil_iff b text = ground arith

is_on-quiet :
    (m : Modes) (call : Call) → m.debug_mode ≡ false → m.trace_mode ≡ false → is_on m call ≡ false
is_on-quiet m (Call.message l x) d t = d
is_on-quiet m (Call.snapshot l x) d t = d
is_on-quiet m (Call.delta l x) d t = d
is_on-quiet m (Call.summary x) d t = t
is_on-quiet m (Call.serialization f s n) d t = t
is_on-quiet m (Call.deserialization f s n) d t = t
is_on-quiet m (Call.compression a b n) d t = t
is_on-quiet m (Call.rate_limit a r l) d t = t
is_on-quiet m (Call.transport_send b s) d t = t
is_on-quiet m (Call.transport_receive b s) d t = t

or_false_iff : (a b : Bool) → ((a || b) ≡ false) ↔ ((a ≡ false) × (b ≡ false))
or_false_iff a b = ground arith

module _ (pretty : Pretty) (floats : FloatOps) (texts : FloatText) where
  print_all-quiet :
      (m : Modes) (calls : List Call)
      → m.debug_mode ≡ false
      → m.trace_mode ≡ false
      → print_all pretty floats texts m calls ≡ []
  unfolding print_all
  print_all-quiet m [] d t = refl
  print_all-quiet m (call ∷ calls) d t = (append-nil_iff _ _).1 (
    (print-nil_iff pretty floats texts m call).1 (is_on-quiet m call d t),
    print_all-quiet m calls d t,
  )

  -- A process that initializes the modes and then makes any calls prints nothing, not even at the
  -- start, if and only if none of the three variables is set.
  pub session-nil_iff :
      (is_ok : String → Bool) (calls : List Call)
      → (session pretty floats texts is_ok calls ≡ []) ↔ (
          (is_ok "TX2_DEBUG" ≡ false)
          × (is_ok "TX2_DEBUG_JSON" ≡ false)
          × (is_ok "TX2_TRACE" ≡ false))
  unfolding session init_debug_mode
  session-nil_iff is_ok calls = (
    λ h.
        let (start, later) = (append-nil_iff _ _).0 h in
        let (debug, trace) = (append-nil_iff _ _).0 start in
        let (a, b) = (or_false_iff _ _).0 ((line_if-nil_iff _ _).0 debug) in
        (a, b, (line_if-nil_iff _ _).0 trace),
    λ (a, b, c).
        let off = (or_false_iff _ _).1 (a, b) in
        (append-nil_iff _ _).1 (
          (append-nil_iff _ _).1 ((line_if-nil_iff _ _).1 off, (line_if-nil_iff _ _).1 c),
          print_all-quiet (init_debug_mode is_ok).0 calls off c,
        ),
  )

-- One text for each mode that is on, after a success.
abbrev pub expected {ℓ} : {A : Type ℓ} → Modes → Result A → ℕ
expected m (ok a) = (if is_debug_enabled m then 1 else 0) + (if is_trace_enabled m then 1 else 0)
expected m (err e) = 0

length-append_eq :
    (xs ys : List String) {a b : ℕ} → length xs ≡ a → length ys ≡ b → length (xs ++ ys) ≡ a + b
length-append_eq xs ys h k = omega (arith, length-append xs ys, h, k)

logged-length :
    (what : String) (around : String → String) (r : String ⊎ String)
    → length (logged what around r) ≡ 1
logged-length what around (inl e) = refl
logged-length what around (inr json) = refl

module _ (pretty : Pretty) (m : Modes) (f : Formats Message) (s : BinarySerializer)
    (micros : ℕ) where
  length-log_message :
      (direction : String) (message : Message)
      → length (if is_debug_enabled m then log_message pretty m direction message else [])
        ≡ (if is_debug_enabled m then 1 else 0)
  unfolding log_message
  length-log_message direction message = elim (Bool-cases m.debug_mode) [
    | inl on ↦ rw (on) (logged-length _ _ (pretty.message message))
    | inr off ↦ rw (off) refl
  ]

  length-trace :
      (text : String)
      → length
          (if is_trace_enabled m then (if not (is_trace_enabled m) then [] else text ∷ []) else [])
        ≡ (if is_trace_enabled m then 1 else 0)
  length-trace text = ground arith

  report_serialized-length :
      (message : Message) (r : Result Bytes)
      → length (report_serialized pretty m f s micros message r) ≡ expected m r
  unfolding report_serialized trace_serialization
  report_serialized-length message (err e) = refl
  report_serialized-length message (ok bytes) =
      length-append_eq _ _ (length-log_message "Serialized" message) (length-trace _)

  report_deserialized-length :
      (data_bytes : Bytes) (r : Result Message)
      → length (report_deserialized pretty m f s micros data_bytes r) ≡ expected m r
  unfolding report_deserialized trace_deserialization
  report_deserialized-length data_bytes (err e) = refl
  report_deserialized-length data_bytes (ok message) =
      length-append_eq _ _ (length-log_message "Deserialized" message) (length-trace _)

  -- Encoding and decoding a message with logging gives what they give without it, in any mode. A
  -- failure prints nothing; a success prints one text for each mode that is on.
  pub messages-report :
      (message : Message) (data_bytes : Bytes)
      → (let (r, lines) = serialize_message_logged pretty m f s micros message in
          let (r', lines') = deserialize_message_logged pretty m f s micros data_bytes in
          (r ≡ Wire.serialize_message f s message)
          × (length lines ≡ expected m r)
          × (r' ≡ Wire.deserialize_message f s data_bytes)
          × (length lines' ≡ expected m r'))
  unfolding serialize_message_logged deserialize_message_logged
  messages-report message data_bytes =
      (refl, report_serialized-length message _, refl, report_deserialized-length data_bytes _)
