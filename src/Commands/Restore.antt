-- ===== src/Commands/Restore.antt =====
-- `restore` of src/commands/run.rs: fetch the newest snapshot, check its digest and its signature,
-- decrypt and unpack it.
pub mod Integrity
use repossess.Prelude.{Text, codes, trim, ◌++◌}
use repossess.Effect.{M, Result, ok, err, pure, lift, with_context, in_context, ◌>>=◌, ◌>>◌}
use repossess.Data.{LatestPointer, StorageState}
use repossess.Host.{Host}
use repossess.Snapshot.{latest_key, verify_digest}
use repossess.Stores.{SnapshotStore}
use repossess.Crypto.{verify, decompress}

pub record Restored (h : Host) : Type 0 where
  pub pointer : LatestPointer
  pub pointer_etag : Text
  pub state : StorageState h.F64

module _ (h : Host) where
  -- The signature object holds the signature in hex.
  abbrev decode_signature_text : Result Text → Result h.Bytes
  decode_signature_text (ok text) =
      in_context (codes "decode signature hex") (h.hex_decode (trim text))
  decode_signature_text (err e) = err e

  unfoldable pub decode_signature : h.Bytes → Result h.Bytes
  decode_signature sig_bytes =
      decode_signature_text (in_context (codes "signature is not utf-8") (h.from_utf8 sig_bytes))

  unfoldable pub restore : SnapshotStore h → h.Identity → h.VerifyingKey → M h.World (Restored h)
  restore primary identity verify_pubkey = do
    (pointer_bytes, pointer_etag) ← with_context (codes "get latest.json") (primary.get latest_key)
    pointer ←
        lift (in_context (codes "parse latest.json") (h.pointer_json.from_slice pointer_bytes))
    (ciphertext, _) ←
        with_context (codes "get snapshot " ++ pointer.object) (primary.get pointer.object)
    lift (verify_digest h pointer.object_sha256 ciphertext)
    (sig_bytes, _) ←
        with_context (codes "get signature " ++ pointer.signature_object)
          (primary.get pointer.signature_object)
    sig ← lift (decode_signature sig_bytes)
    lift (verify h verify_pubkey ciphertext sig)
    plaintext ← lift (h.age_decrypt identity ciphertext)
    state ← lift (decompress h plaintext)
    pure (record { pointer = pointer; pointer_etag = pointer_etag; state = state })
