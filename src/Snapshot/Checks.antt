-- ===== src/Snapshot/Checks.antt =====
-- What the two checks of src/snapshot.rs accept.
use repossess.Prelude.{◌<◌, Text, some, ◌≡◌, arith, text_eq_refl, eq_of_text_eq}
use repossess.Effect.{ok}
use repossess.Data.{LatestPointer}
use repossess.Host.{Host}
use repossess.Snapshot.{sha256_hex, verify_digest, ensure_monotonic}

module _ (h : Host) where
  pub digest_of_verified :
      (expected : Text) (bytes : h.Bytes)
      → verify_digest h expected bytes ≡ ok tt
      → sha256_hex h bytes ≡ expected
  unfolding verify_digest
  digest_of_verified expected bytes e = ground (arith, eq_of_text_eq (sha256_hex h bytes) expected)

  pub verify_digest_self : (bytes : h.Bytes) → verify_digest h (sha256_hex h bytes) bytes ≡ ok tt
  unfolding verify_digest
  verify_digest_self bytes = ground (arith, text_eq_refl (sha256_hex h bytes))

-- The pointer that `ensure_monotonic` lets follow `p` is strictly newer.
pub newer_of_monotonic :
    (p next : LatestPointer)
    → ensure_monotonic (some p) next ≡ ok tt
    → p.created_at < next.created_at
unfolding ensure_monotonic
newer_of_monotonic p next e = ground arith
