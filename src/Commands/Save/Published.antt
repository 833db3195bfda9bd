-- ===== src/Commands/Save/Published.antt =====
-- A snapshot whose three objects are stored can be restored.
use repossess.Prelude.{ℕ, List, ◌∙◌, Text, ◌≡◌, false, some, refl, text_eq, text_eq-append}
use repossess.Effect.{ok}
use repossess.Data.{StorageState}
use repossess.Host.{Host}
use repossess.Host.Laws.{IsCodec, Decrypts, Verifies}
use repossess.Snapshot.{latest_key}
use repossess.Snapshot.Checks.{verify_digest_self}
use repossess.Stores.{SnapshotStore}
use repossess.Stores.Contract.{View, AreApart, view-fanout}
use repossess.Crypto.{compress}
use repossess.Crypto.RoundTrip.{decompress-compress, verify-sign}
use repossess.Commands.Restore.{decode_signature}
use repossess.Commands.Restore.Integrity.{IsRestorable}
use repossess.Commands.Save.{object_key, sig_key, new_pointer, sig_payload, mirror_snapshot}

-- The three keys of a save never coincide.
pub object-ne-latest : (ts : Text) → text_eq (object_key ts) latest_key ≡ false
unfolding object_key text_eq
object-ne-latest ts = refl

pub sig-ne-latest : (ts : Text) → text_eq (sig_key ts) latest_key ≡ false
unfolding sig_key text_eq
sig-ne-latest ts = refl

pub latest-ne-object : (ts : Text) → text_eq latest_key (object_key ts) ≡ false
unfolding object_key text_eq
latest-ne-object ts = refl

pub latest-ne-sig : (ts : Text) → text_eq latest_key (sig_key ts) ≡ false
unfolding sig_key text_eq
latest-ne-sig ts = refl

pub sig-ne-object : (ts : Text) → text_eq (sig_key ts) (object_key ts) ≡ false
unfolding object_key sig_key
sig-ne-object ts = rw text_eq-append (rw text_eq-append (unfold text_eq in refl))

module _ (h : Host) (view : View h) (k : h.SigningKey) where
  -- The objects of one save, stored.
  pub record IsStored (now : ℕ) (c pb : h.Bytes) (w : h.World) : Type 0 where
    pub latest_etag : Text
    pub object_etag : Text
    pub sig_etag : Text
    pub latest_at : view w latest_key ≡ some (record { body = pb; etag = latest_etag })
    pub object_at :
        view w (object_key (h.format_ts now)) ≡ some (record { body = c; etag = object_etag })
    pub sig_at :
        view w (sig_key (h.format_ts now))
        ≡ some (record { body = sig_payload h (h.ed_sign k c); etag = sig_etag })

module _ (h : Host) (recipient : h.Recipient) where
  -- How a save makes its ciphertext and the text of its pointer.
  pub record IsMade (state : StorageState h.F64) (now : ℕ) (c pb : h.Bytes) : Type 0 where
    pub plaintext : h.Bytes
    pub drawn : h.World
    pub packed : compress h state ≡ ok plaintext
    pub encrypted : (h.age_encrypt recipient plaintext drawn).0 ≡ ok c
    pub written : h.pointer_json.to_vec (new_pointer h now c) ≡ ok pb

module _ (h : Host) (view : View h) (i : h.Identity) (v : h.VerifyingKey) (recipient : h.Recipient)
    (k : h.SigningKey) (codec : IsCodec h) (keys : Decrypts h i recipient)
    (fit : Verifies h v k) where
  decode_signature-sig_payload : (sig : h.Bytes) → decode_signature h (sig_payload h sig) ≡ ok sig
  unfolding decode_signature
  decode_signature-sig_payload sig =
      rw (codec.utf8 (h.hex_encode sig)) (rw (codec.hex_trim sig) (rw (codec.hex sig)))

  module _ (state : StorageState h.F64) (now : ℕ) (c pb : h.Bytes) (w : h.World) where
    pub IsStored-IsRestorable :
        IsMade h recipient state now c pb → IsStored h view k now c pb w → IsRestorable h view i v w
    IsStored-IsRestorable made at = record {
      latest = record { body = pb; etag = at.latest_etag };
      pointer = new_pointer h now c;
      snapshot = record { body = c; etag = at.object_etag };
      signature = record { body = sig_payload h (h.ed_sign k c); etag = at.sig_etag };
      sig = h.ed_sign k c;
      plaintext = made.plaintext;
      state = state;
      latest_at = at.latest_at;
      pointer_parses = codec.pointer _ pb made.written;
      snapshot_at = at.object_at;
      digest = verify_digest_self h c;
      signature_at = at.sig_at;
      sig_decodes = decode_signature-sig_payload (h.ed_sign k c);
      signed = verify-sign h v k fit c;
      decrypts = keys.decrypts made.plaintext c made.drawn made.encrypted;
      unpacks = decompress-compress h codec state made.plaintext made.packed;
    }

    -- That snapshot is the new one.
    pub restorable_parts :
        (made : IsMade h recipient state now c pb) (at : IsStored h view k now c pb w)
        → ((IsStored-IsRestorable made at).state ≡ state)
          × ((IsStored-IsRestorable made at).pointer ≡ new_pointer h now c)
    unfolding IsStored-IsRestorable
    restorable_parts made at = (refl, refl)

-- Copying the objects to the mirrors leaves them stored.
module _ (h : Host) (view : View h) (k : h.SigningKey) (s : SnapshotStore h)
    (mirrors : List (SnapshotStore h)) (apart : AreApart h view mirrors) where
  pub IsStored-mirror :
      (now : ℕ) (c pb : h.Bytes) (u : h.World)
      → IsStored h view k now c pb u
      → IsStored h view k now c pb
          (mirror_snapshot h s mirrors (h.format_ts now) c (sig_payload h (h.ed_sign k c)) pb u)
  unfolding mirror_snapshot
  IsStored-mirror now c pb u at = record {
    latest_etag = at.latest_etag;
    object_etag = at.object_etag;
    sig_etag = at.sig_etag;
    latest_at = same latest_key ∙ at.latest_at;
    object_at = same _ ∙ at.object_at;
    sig_at = same _ ∙ at.sig_at;
  }
    where
      same :
          (j : Text)
          → view
              (mirror_snapshot h s mirrors (h.format_ts now) c (sig_payload h (h.ed_sign k c)) pb u)
              j
            ≡ view u j
      same j =
          view-fanout h view mirrors latest_key j pb _ apart
          ∙ view-fanout h view mirrors _ j _ _ apart
          ∙ view-fanout h view mirrors _ j c u apart
