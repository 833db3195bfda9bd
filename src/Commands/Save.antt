-- ===== src/Commands/Save.antt =====
-- `save` of src/commands/run.rs: upload a new snapshot and its signature, then move the pointer.

pub mod Published
pub mod Safety
pub mod Success
pub mod Heads
use repossess.Prelude.{ℕ, Text, some, List, ◌++◌, codes}
use repossess.Effect.{M, pure, lift, total, with_context, ◌>>=◌, ◌>>◌}
use repossess.Data.{LatestPointer, StorageState, storage_state_v1}
use repossess.Host.{Host}
use repossess.Snapshot.{latest_key, sha256_hex, ensure_monotonic}
use repossess.Stores.{SnapshotStore, fanout}
use repossess.Crypto.{compress}

-- format!("snapshots/{ts}.zst.age") and format!("snapshots/{ts}.zst.age.sig")
unfoldable pub object_key : Text → Text
object_key ts = codes "snapshots/" ++ (ts ++ codes ".zst.age")

unfoldable pub sig_key : Text → Text
sig_key ts = codes "snapshots/" ++ (ts ++ codes ".zst.age.sig")

module _ (h : Host) where
  -- The pointer to the snapshot `ciphertext`, made at the time `now`.
  abbrev pub new_pointer : ℕ → h.Bytes → LatestPointer
  new_pointer now ciphertext =
      let ts = h.format_ts now in
      record {
        version = ts;
        object = object_key ts;
        object_sha256 = sha256_hex h ciphertext;
        signature_object = sig_key ts;
        created_at = now;
        format = storage_state_v1;
      }

  -- Bytes::from(hex::encode(&sig))
  abbrev pub sig_payload : h.Bytes → h.Bytes
  sig_payload sig = h.utf8 (h.hex_encode sig)

  module _ (primary : SnapshotStore h) (mirrors : List (SnapshotStore h)) where
    -- The three calls of `fanout` at the end.
    unfoldable pub mirror_snapshot : Text → h.Bytes → h.Bytes → h.Bytes → h.World → h.World
    mirror_snapshot ts ciphertext payload pointer_bytes w =
        fanout h mirrors latest_key pointer_bytes
          (fanout h mirrors (sig_key ts) payload (fanout h mirrors (object_key ts) ciphertext w))

    -- From the reading of the clock on.
    unfoldable pub save_at : h.SigningKey → LatestPointer → Text → h.Bytes → ℕ → M h.World Text
    save_at signing_key prev_pointer prev_etag ciphertext now = do
      let ts = h.format_ts now
      let payload = sig_payload (h.ed_sign signing_key ciphertext)
      let pointer = new_pointer now ciphertext
      lift (ensure_monotonic (some prev_pointer) pointer)
      primary.put (object_key ts) ciphertext
      primary.put (sig_key ts) payload
      pointer_bytes ← lift (h.pointer_json.to_vec pointer)
      with_context (codes "CAS update of latest.json (someone else wrote concurrently?)")
          (primary.put_if_unmodified latest_key pointer_bytes (some prev_etag))
      total (λ w. (tt, mirror_snapshot ts ciphertext payload pointer_bytes w))
      pure ts

    unfoldable pub save :
        h.Recipient → h.SigningKey → StorageState h.F64 → LatestPointer → Text → M h.World Text
    save recipient signing_key new_state prev_pointer prev_etag = do
      plaintext ← lift (compress h new_state)
      ciphertext ← h.age_encrypt recipient plaintext
      now ← total h.now
      save_at signing_key prev_pointer prev_etag ciphertext now
