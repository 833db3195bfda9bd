-- ===== src/Commands/Save/Success.antt =====
-- A save that reports success has replaced exactly the pointer that it was given, by a newer one to
-- a snapshot that unpacks to the state that was saved.
use repossess.Prelude.{ℕ, ◌<◌, Text, ◌≡◌, some, List, ◌∙◌, sym, ap, subst}
use repossess.Effect.{ok, Result, err, Report}
use repossess.Effect.Rules.{bind_rule, ok_of_context, ok_injective}
use repossess.Data.{LatestPointer, StorageState}
use repossess.Host.{Host}
use repossess.Host.Laws.{IsCodec, Decrypts, Verifies}
use repossess.Snapshot.{latest_key}
use repossess.Snapshot.Checks.{newer_of_monotonic}
use repossess.Stores.{SnapshotStore}
use repossess.Stores.Contract.{View, IsLawful, AreApart, IsUndisturbed, etag_of}
use repossess.Crypto.{compress}
use repossess.Commands.Restore.Integrity.{IsRestorable}
use repossess.Commands.Save.{object_key, sig_key, new_pointer, sig_payload, save_at, save}
use repossess.Commands.Save.Published.{
  object-ne-latest, sig-ne-latest, sig-ne-object, latest-ne-object, latest-ne-sig, IsMade,
  IsStored-IsRestorable, IsStored-mirror, restorable_parts,
}

module _ (h : Host) (view : View h) (i : h.Identity) (v : h.VerifyingKey) (recipient : h.Recipient)
    (k : h.SigningKey) (codec : IsCodec h) (keys : Decrypts h i recipient) (fit : Verifies h v k)
    (s : SnapshotStore h) (law : IsLawful h view s) (mirrors : List (SnapshotStore h))
    (apart : AreApart h view mirrors) (still : IsUndisturbed h view) where
  -- The snapshot of `state` is the one that `w'` restores to, under the version that was returned.
  -- The pointer that it replaced in `w` had the etag `etag` and is older.
  abbrev pub Saved : StorageState h.F64 → LatestPointer → Text → h.World → Text → h.World → Type 0
  Saved state prev etag w version w' =
      (R : IsRestorable h view i v w') × (R.state ≡ state)
      × (R.pointer.version ≡ version)
      × (prev.created_at < R.pointer.created_at)
      × (etag_of (view w latest_key) ≡ some etag)

  module _ (state : StorageState h.F64) (prev : LatestPointer) (etag : Text) (w : h.World)
      (version : Text) where
    P : Result Text → h.World → Type 0
    P r w' = r ≡ ok version → Saved state prev etag w version w'

    failed : (e : Report) (w' : h.World) → P (err e) w'
    unfolding P
    failed e w' bad = cc

    arrived :
        (x : Text) (w' : h.World) → (x ≡ version → Saved state prev etag w version w') → P (ok x) w'
    unfolding P
    arrived x w' f e = f (ok_injective e)

    save_at-Saved :
        (c : h.Bytes) (now : ℕ) (u : h.World) (plaintext : h.Bytes) (drawn : h.World)
        → compress h state ≡ ok plaintext
        → (h.age_encrypt recipient plaintext drawn).0 ≡ ok c
        → view u latest_key ≡ view w latest_key
        → P (save_at h s mirrors k prev etag c now u).0 (save_at h s mirrors k prev etag c now u).1
    unfolding save_at
    save_at-Saved c now u plaintext drawn packed encrypted same =
        bind_rule P _ _ u (λ e _. failed e _)
          λ _ newer.
            bind_rule P _ _ u (λ e _. failed e _)
              λ r1 put1.
                bind_rule P _ _ _ (λ e _. failed e _)
                  λ r2 put2.
                    bind_rule P _ _ u2 (λ e _. failed e _)
                      λ pb written.
                        bind_rule P _ _ u2 (λ e _. failed e _)
                          λ r3 cas.
                            let done =
                              law.cas_ok latest_key pb (some etag) u2 r3 (ok_of_context _ _ cas) in
                            let stored =
                              IsStored-mirror h view k s mirrors apart now c pb _ (record {
                                latest_etag = r3.etag;
                                object_etag = r1.etag;
                                sig_etag = r2.etag;
                                latest_at = done.1;
                                object_at =
                                    law.cas_other _ _ pb _ u2 (latest-ne-object _)
                                    ∙ law.put_other _ _ payload u1 (sig-ne-object _)
                                    ∙ law.put_ok _ c u r1 put1;
                                sig_at =
                                    law.cas_other _ _ pb _ u2 (latest-ne-sig _)
                                    ∙ law.put_ok _ payload u1 r2 put2;
                              }) in
                            let made : IsMade h recipient state now c pb = record {
                              plaintext = plaintext;
                              drawn = drawn;
                              packed = packed;
                              encrypted = encrypted;
                              written = written;
                            } in
                            let parts =
                              restorable_parts h view i v recipient k codec keys fit state now c pb
                                _ made stored in
                            bind_rule P _ _ _ (λ e _. failed e _)
                              λ _ _. arrived _ _ λ e. (
                                IsStored-IsRestorable h view i v recipient k codec keys fit state
                                    now c pb _ made stored,
                                parts.0,
                                ap (λ (p : LatestPointer). p.version) parts.1 ∙ e,
                                subst (λ (p : LatestPointer). prev.created_at < p.created_at)
                                    (sym parts.1)
                                    (newer_of_monotonic prev (new_pointer h now c) newer),
                                ap etag_of (sym (unmoved u2 at_u2)) ∙ done.0,
                              )
      where
        payload : h.Bytes
        payload = sig_payload h (h.ed_sign k c)

        u1 : h.World
        u1 = (s.put (object_key (h.format_ts now)) c u).1

        u2 : h.World
        u2 = (s.put (sig_key (h.format_ts now)) payload u1).1

        at_u2 : view u2 latest_key ≡ view u latest_key
        at_u2 =
            law.put_other _ _ payload u1 (sig-ne-latest _)
            ∙ law.put_other _ _ c u (object-ne-latest _)

        unmoved :
            (x : h.World)
            → view x latest_key ≡ view u latest_key
            → view x latest_key ≡ view w latest_key
        unmoved x e = e ∙ same

  -- If a save returns a version, the store then restores to the saved state under that version; the
  -- pointer that it replaced had exactly the etag that the save was given, and is strictly older.
  pub save-Saved :
      (state : StorageState h.F64) (prev : LatestPointer) (etag : Text) (w : h.World)
      (version : Text)
      → (save h s mirrors recipient k state prev etag w).0 ≡ ok version
      → Saved state prev etag w version (save h s mirrors recipient k state prev etag w).1
  unfolding save P
  save-Saved state prev etag w version =
      bind_rule Q _ _ w (λ e _. bad e _)
        λ plaintext packed.
          bind_rule Q _ _ w (λ e _. bad e _)
            λ c encrypted.
              bind_rule Q _ _ _ (λ e _. bad e _)
                λ now _.
                  save_at-Saved state prev etag w version c now _ plaintext w packed encrypted (
                    still.now_view latest_key _
                    ∙ still.encrypt_view recipient plaintext latest_key w)
    where
      Q : Result Text → h.World → Type 0
      Q = P state prev etag w version

      bad : (e : Report) (w' : h.World) → Q (err e) w'
      bad = failed state prev etag w version
