-- ===== src/Commands/Verify.antt =====
-- src/commands/verify.rs: the checks of a restore, and nothing else. What it prints is returned.
use repossess.Prelude.{ℕ, Text, codes, ◌++◌, length, ◌≡◌, refl}
use repossess.Effect.{M, ok_or, message, with_context, in_context, lift, pure, ◌>>=◌, ◌>>◌}
use repossess.Effect.Rules.{mapped, mapped_bind}
use repossess.Config.{Config, primary}
use repossess.Host.{Host}
use repossess.Snapshot.{latest_key, verify_digest}
use repossess.Stores.{SnapshotStore}
use repossess.Stores.Build.{Backends, build_store}
use repossess.Secrets.{take_from_env, parse_identity}
use repossess.Crypto.{verify, decompress, parse_verifying_key}
use repossess.Commands.Restore.{Restored, restore, decode_signature}

-- "OK version=… cookies=… created_at=…"
pub record Line : Type 0 where
  pub version : Text
  pub cookies : ℕ
  pub created_at : ℕ

module _ (h : Host) where
  unfoldable pub check : SnapshotStore h → h.Identity → h.VerifyingKey → M h.World Line
  check primary identity verify_pubkey = do
    (pointer_bytes, _) ← with_context (codes "get latest.json") (primary.get latest_key)
    pointer ←
        lift (in_context (codes "parse latest.json") (h.pointer_json.from_slice pointer_bytes))
    (ciphertext, _) ←
        with_context (codes "get snapshot " ++ pointer.object) (primary.get pointer.object)
    lift (verify_digest h pointer.object_sha256 ciphertext)
    (sig_bytes, _) ←
        with_context (codes "get signature " ++ pointer.signature_object)
          (primary.get pointer.signature_object)
    sig ← lift (decode_signature h sig_bytes)
    lift (verify h verify_pubkey ciphertext sig)
    plaintext ← lift (h.age_decrypt identity ciphertext)
    state ← lift (decompress h plaintext)
    pure (record {
      version = pointer.version;
      cookies = length state.cookies;
      created_at = pointer.created_at;
    })

  unfoldable pub run : Backends h → Config → M h.World Line
  run backends cfg = do
    identity_raw ← take_from_env h (codes "REPOSSESS_AGE_IDENTITY")
    identity ← lift (parse_identity h identity_raw)
    verify_pubkey_hex ←
        with_context (codes "read verify pubkey " ++ cfg.crypto.verify_pubkey_file)
          (h.read_to_string cfg.crypto.verify_pubkey_file)
    verify_pubkey ← lift (parse_verifying_key h verify_pubkey_hex)
    primary_cfg ← lift (ok_or (primary cfg) (message (codes "index out of bounds")))
    store ← build_store h backends primary_cfg
    check store identity verify_pubkey

  -- The line about what `restore` returns.
  abbrev pub line_of : Restored h → Line
  line_of r = record {
    version = r.pointer.version;
    cookies = length r.state.cookies;
    created_at = r.pointer.created_at;
  }

  -- `verify` passes on a store exactly when `restore` would return, with the same errors, the same
  -- reads, and the line about what `restore` would return.
  pub check-restore :
      (s : SnapshotStore h) (i : h.Identity) (v : h.VerifyingKey) (w : h.World)
      → check s i v w ≡ mapped line_of (restore h s i v w)
  unfolding check restore
  check-restore s i v w = step _ _ _ w λ p w1. step _ _ _ w1 λ pointer w2. step _ _ _ w2 λ c w3.
      step _ _ _ w3 λ _ w4. step _ _ _ w4 λ s w5.
        step _ _ _ w5
          λ sig w6. step _ _ _ w6 λ _ w7. step _ _ _ w7 λ d w8. step _ _ _ w8 λ state w9. refl
    where
      step :
          {A : Type 0} (m : M h.World A) (f : A → M h.World (Restored h)) (g : A → M h.World Line)
          (u : h.World)
          → ((a : A) (u' : h.World) → g a u' ≡ mapped line_of (f a u'))
          → (m >>= g) u ≡ mapped line_of ((m >>= f) u)
      step = mapped_bind line_of
