-- ===== src/Host.antt =====
-- What the program is handed and does not implement: the crates age, ed25519-dalek, sha2, hex, zstd,
-- serde_json and chrono, the clock, and the world that stores and HTTP servers live in. `Bytes` is
-- bytes::Bytes, and `F64` the type f64, which antt lacks.
pub mod Laws
use repossess.Prelude.{ℕ, Text, Bool, Option}
use repossess.Effect.{Result}
use repossess.Data.{LatestPointer, Lock, HealthRecord, StorageState, ChatsIndex}

-- `serde_json::to_vec_pretty` and `from_slice` at one type.
pub record Serde (Bytes A : Type 0) : Type 0 where
  pub to_vec : A → Result Bytes
  pub from_slice : Bytes → Result A

pub record Host : Type 1 where
  pub World : Type 0
  pub Bytes : Type 0
  pub F64 : Type 0
  pub Recipient : Type 0
  pub Identity : Type 0
  pub SigningKey : Type 0
  pub VerifyingKey : Type 0
  -- `Utc::now()`, and the format "%Y-%m-%dT%H-%M-%SZ" of a time.
  pub now : World → ℕ × World
  pub format_ts : ℕ → Text
  -- `chrono::Duration::from_std`, in nanoseconds; it refuses what chrono cannot hold.
  pub duration_from_std : ℕ → Result ℕ
  -- `std::env::var`, `std::env::remove_var` and `std::fs::read_to_string`.
  pub var : World → Text → Option Text
  pub remove_var : Text → World → World
  pub read_to_string : Text → World → Result Text × World
  -- `==` on f64.
  pub f64_eq : F64 → F64 → Bool
  -- `Bytes::len`, `str::as_bytes` and `str::from_utf8`.
  pub len : Bytes → ℕ
  pub utf8 : Text → Bytes
  pub from_utf8 : Bytes → Result Text
  -- sha2, hex, ed25519-dalek and age; encryption draws randomness from the world.
  pub sha256 : Bytes → Bytes
  pub hex_encode : Bytes → Text
  pub hex_decode : Text → Result Bytes
  pub ed_sign : SigningKey → Bytes → Bytes
  pub ed_verify : VerifyingKey → Bytes → Bytes → Bool
  pub age_encrypt : Recipient → Bytes → World → Result Bytes × World
  pub age_decrypt : Identity → Bytes → Result Bytes
  pub age_recipient_of_str : Text → Option Recipient
  pub age_identity_of_str : Text → Option Identity
  pub signing_key_of_bytes : Bytes → SigningKey
  pub verifying_key_of_bytes : Bytes → Option VerifyingKey
  pub zstd_encode : ℕ → Bytes → Result Bytes
  pub zstd_decode : Bytes → Result Bytes
  pub pointer_json : Serde Bytes LatestPointer
  pub lock_json : Serde Bytes Lock
  pub health_json : Serde Bytes HealthRecord
  pub state_json : Serde Bytes (StorageState F64)
  pub index_json : Serde Bytes (ChatsIndex F64)
