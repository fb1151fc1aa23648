-- ===== src/Error.antt =====
-- error.rs: `LinkError` and its `Result`. The errors of the crates serde_json, rmp-serde and
-- bincode and of `std::io`, which four constructors wrap, are texts here.
use tx2_link.Common.{String, Bool, true, false, Option, none, some}

pub data LinkError : Type 0 where
  serialization deserialization transport : String → LinkError
  schema_mismatch : (expected : String) → (actual : String) → LinkError
  schema_not_found rate_limit_exceeded invalid_message : String → LinkError
  io json msg_pack_encode msg_pack_decode bincode : String → LinkError
  connection_closed timeout : LinkError
  unknown : String → LinkError

pub data Result {ℓ} (A : Type ℓ) : Type ℓ where
  ok : A → Result A
  err : LinkError → Result A

-- `?`
infixl 5 ◌>>=◌ ◌>>◌
abbrev pub ◌>>=◌ {ℓ κ} : {A : Type ℓ} {B : Type κ} → Result A → (A → Result B) → Result B
ok a >>= f = f a
err e >>= f = err e

abbrev pub ◌>>◌ {ℓ} : {B : Type ℓ} → Result (Unit {0}) → Result B → Result B
m >> n = m >>= λ _. n

abbrev pub is_ok {ℓ} : {A : Type ℓ} → Result A → Bool
is_ok (ok a) = true
is_ok (err e) = false

-- `ok_or_else`
abbrev pub ok_or {ℓ} : {A : Type ℓ} → Option A → LinkError → Result A
ok_or none e = err e
ok_or (some a) e = ok a
