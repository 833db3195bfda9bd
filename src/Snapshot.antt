-- ===== src/Snapshot.antt =====
-- src/snapshot.rs: the pointer to the newest snapshot, and the two checks on it.
pub mod Checks
use repossess.Prelude.{ℕ, Text, Option, none, some, codes, ltb, text_eq}
use repossess.Effect.{Result, ok, ensure, digest_mismatch, pointer_rollback}
use repossess.Data.{LatestPointer}
use repossess.Host.{Host}

abbrev pub latest_key : Text
latest_key = codes "latest.json"

abbrev pub lock_key : Text
lock_key = codes "lock.json"

module _ (h : Host) where
  abbrev pub sha256_hex : h.Bytes → Text
  sha256_hex bytes = h.hex_encode (h.sha256 bytes)

  unfoldable pub verify_digest : Text → h.Bytes → Result (Unit {0})
  verify_digest expected_hex actual_bytes =
      let actual = sha256_hex actual_bytes in
      ensure (text_eq actual expected_hex) (digest_mismatch expected_hex actual)

-- A new pointer must be strictly newer than the previous one.
unfoldable pub ensure_monotonic : Option LatestPointer → LatestPointer → Result (Unit {0})
ensure_monotonic none next = ok tt
ensure_monotonic (some p) next =
    ensure (ltb p.created_at next.created_at) (pointer_rollback p.created_at next.created_at)
