-- ===== src/Crypto.antt =====
-- src/crypto/encrypt.rs, src/crypto/sign.rs and src/archive.rs: thin layers over age,
-- ed25519-dalek, zstd and serde_json.
pub mod RoundTrip
use repossess.Prelude.{Text, ◌==◌, codes, trim, if◌then◌else◌}
use repossess.Effect.{
  M, Result, ok, err, ensure, ok_or, message, in_context, ◌>>=◌, lift, with_context,
}
use repossess.Data.{StorageState}
use repossess.Host.{Host}

module _ (h : Host) where
  unfoldable pub read_recipient : Text → M h.World h.Recipient
  read_recipient path = do
    raw ← with_context (codes "read recipient file") (h.read_to_string path)
    lift (ok_or (h.age_recipient_of_str (trim raw)) (message (codes "invalid age recipient")))

  abbrev signing_key_of_hex : Result h.Bytes → Result h.SigningKey
  signing_key_of_hex (ok bytes) =
      if h.len bytes == 32
      then ok (h.signing_key_of_bytes bytes)
      else err (message (codes "signing key wrong length"))
  signing_key_of_hex (err e) = err e

  unfoldable pub parse_signing_key : Text → Result h.SigningKey
  parse_signing_key raw =
      signing_key_of_hex
        (in_context (codes "signing key must be hex-encoded") (h.hex_decode (trim raw)))

  abbrev verifying_key_of_hex : Result h.Bytes → Result h.VerifyingKey
  verifying_key_of_hex (ok bytes) =
      if h.len bytes == 32
      then ok_or (h.verifying_key_of_bytes bytes) (message (codes "invalid pubkey"))
      else err (message (codes "pubkey wrong length"))
  verifying_key_of_hex (err e) = err e

  unfoldable pub parse_verifying_key : Text → Result h.VerifyingKey
  parse_verifying_key raw =
      verifying_key_of_hex
        (in_context (codes "pubkey must be hex-encoded") (h.hex_decode (trim raw)))

  -- `Signature::from_slice` wants 64 bytes.
  unfoldable pub verify : h.VerifyingKey → h.Bytes → h.Bytes → Result (Unit {0})
  verify pubkey payload sig =
      if h.len sig == 64
      then ensure (h.ed_verify pubkey payload sig) (message (codes "signature verification failed"))
      else err (message (codes "signature wrong length"))

  abbrev compress_json : Result h.Bytes → Result h.Bytes
  compress_json (ok json) = in_context (codes "zstd compress") (h.zstd_encode 3 json)
  compress_json (err e) = err e

  unfoldable pub compress : StorageState h.F64 → Result h.Bytes
  compress state = compress_json (in_context (codes "serialize state") (h.state_json.to_vec state))

  abbrev parse_state : Result h.Bytes → Result (StorageState h.F64)
  parse_state (ok json) = in_context (codes "deserialize state") (h.state_json.from_slice json)
  parse_state (err e) = err e

  unfoldable pub decompress : h.Bytes → Result (StorageState h.F64)
  decompress bytes = parse_state (in_context (codes "zstd decompress") (h.zstd_decode bytes))
