-- ===== src/Commands/Save/Safety.antt =====
-- A save that fails at any point leaves a snapshot that can be restored.
use repossess.Prelude.{
  ℕ, Text, ◌≡◌, false, some, Option, List, ◌∙◌, inl, inr, text_eq, eq_of_text_eq, Bool-cases, subst,
}
use repossess.Effect.{ok, Result, err, Report}
use repossess.Effect.Rules.{bind_rule, ok_of_context, err_of_context, ok_injective}
use repossess.Data.{LatestPointer, StorageState}
use repossess.Host.{Host}
use repossess.Host.Laws.{IsCodec, Decrypts, Verifies}
use repossess.Snapshot.{latest_key}
use repossess.Stores.{SnapshotStore}
use repossess.Stores.Contract.{View, IsLawful, AreApart, IsUndisturbed}
use repossess.Crypto.{compress}
use repossess.Commands.Restore.Integrity.{IsRestorable}
use repossess.Commands.Save.{object_key, sig_key, sig_payload, save_at, save}
use repossess.Commands.Save.Published.{
  object-ne-latest, sig-ne-latest, sig-ne-object, latest-ne-object, latest-ne-sig, IsStored, IsMade,
  IsStored-IsRestorable, IsStored-mirror,
}

module _ (h : Host) (view : View h) (i : h.Identity) (v : h.VerifyingKey) where
  -- What `R` rests on is the same in `w'`.
  pub record IsKept {w : h.World} (R : IsRestorable h view i v w) (w' : h.World) : Type 0 where
    pub latest : view w' latest_key ≡ view w latest_key
    pub object : view w' R.pointer.object ≡ view w R.pointer.object
    pub signature : view w' R.pointer.signature_object ≡ view w R.pointer.signature_object

  -- The keys of a save at `now` are not those of the snapshot that `R` describes.
  pub record IsFresh {w : h.World} (R : IsRestorable h view i v w) (now : ℕ) : Type 0 where
    pub object_object : text_eq (object_key (h.format_ts now)) R.pointer.object ≡ false
    pub object_sig : text_eq (object_key (h.format_ts now)) R.pointer.signature_object ≡ false
    pub sig_object : text_eq (sig_key (h.format_ts now)) R.pointer.object ≡ false
    pub sig_sig : text_eq (sig_key (h.format_ts now)) R.pointer.signature_object ≡ false

  pub IsKept-IsRestorable :
      {w : h.World} (R : IsRestorable h view i v w) (w' : h.World)
      → IsKept R w'
      → IsRestorable h view i v w'
  IsKept-IsRestorable R w' same = record {
    latest = R.latest;
    pointer = R.pointer;
    snapshot = R.snapshot;
    signature = R.signature;
    sig = R.sig;
    plaintext = R.plaintext;
    state = R.state;
    latest_at = same.latest ∙ R.latest_at;
    pointer_parses = R.pointer_parses;
    snapshot_at = same.object ∙ R.snapshot_at;
    digest = R.digest;
    signature_at = same.signature ∙ R.signature_at;
    sig_decodes = R.sig_decodes;
    signed = R.signed;
    decrypts = R.decrypts;
    unpacks = R.unpacks;
  }

module _ (h : Host) (view : View h) (s : SnapshotStore h) (law : IsLawful h view s) (i : h.Identity)
    (v : h.VerifyingKey) {w : h.World} (R : IsRestorable h view i v w) (now : ℕ)
    (fresh : IsFresh h view i v R now) (u : h.World) (same : IsKept h view i v R u) where
  IsKept-put_object :
      (c : h.Bytes) → IsKept h view i v R (s.put (object_key (h.format_ts now)) c u).1
  IsKept-put_object c = record {
    latest = law.put_other _ _ c u (object-ne-latest _) ∙ same.latest;
    object = law.put_other _ _ c u fresh.object_object ∙ same.object;
    signature = law.put_other _ _ c u fresh.object_sig ∙ same.signature;
  }

  IsKept-put_sig : (b : h.Bytes) → IsKept h view i v R (s.put (sig_key (h.format_ts now)) b u).1
  IsKept-put_sig b = record {
    latest = law.put_other _ _ b u (sig-ne-latest _) ∙ same.latest;
    object = law.put_other _ _ b u fresh.sig_object ∙ same.object;
    signature = law.put_other _ _ b u fresh.sig_sig ∙ same.signature;
  }

-- A conditional write that kept its own object kept all.
cas_kept :
    (h : Host) (view : View h) (s : SnapshotStore h) (law : IsLawful h view s) (k j : Text)
    (b : h.Bytes) (x : Option Text) (u : h.World)
    → view (s.put_if_unmodified k b x u).1 k ≡ view u k
    → view (s.put_if_unmodified k b x u).1 j ≡ view u j
cas_kept h view s law k j b x u same = elim (Bool-cases (text_eq k j)) [
  | inl e ↦
      subst (λ t. view (s.put_if_unmodified k b x u).1 t ≡ view u t) (eq_of_text_eq k j e) same
  | inr e ↦ law.cas_other k j b x u e
]

module _ (h : Host) (view : View h) (i : h.Identity) (v : h.VerifyingKey) (recipient : h.Recipient)
    (k : h.SigningKey) (codec : IsCodec h) (keys : Decrypts h i recipient) (fit : Verifies h v k)
    (s : SnapshotStore h) (law : IsLawful h view s) (mirrors : List (SnapshotStore h))
    (apart : AreApart h view mirrors) {w : h.World} (R : IsRestorable h view i v w)
    (state : StorageState h.F64) (now : ℕ) (fresh : IsFresh h view i v R now) (c : h.Bytes) where
  -- The snapshot and its signature are up, the pointer has not moved.
  record IsUploaded (u : h.World) : Type 0 where
    kept : IsKept h view i v R u
    object_etag : Text
    sig_etag : Text
    object_at :
        view u (object_key (h.format_ts now)) ≡ some (record { body = c; etag = object_etag })
    sig_at :
        view u (sig_key (h.format_ts now))
        ≡ some (record { body = sig_payload h (h.ed_sign k c); etag = sig_etag })

  moved :
      (pb : h.Bytes) (x : Option Text) (u : h.World) (e : Text)
      → IsUploaded u
      → view (s.put_if_unmodified latest_key pb x u).1 latest_key
        ≡ some (record { body = pb; etag = e })
      → IsStored h view k now c pb (s.put_if_unmodified latest_key pb x u).1
  moved pb x u e up at = record {
    latest_etag = e;
    object_etag = up.object_etag;
    sig_etag = up.sig_etag;
    latest_at = at;
    object_at = law.cas_other _ _ pb x u (latest-ne-object _) ∙ up.object_at;
    sig_at = law.cas_other _ _ pb x u (latest-ne-sig _) ∙ up.sig_at;
  }

  IsUploaded-IsKept :
      (u u' : h.World) → ((j : Text) → view u' j ≡ view u j) → IsUploaded u → IsKept h view i v R u'
  IsUploaded-IsKept u u' same up = record {
    latest = same latest_key ∙ up.kept.latest;
    object = same R.pointer.object ∙ up.kept.object;
    signature = same R.pointer.signature_object ∙ up.kept.signature;
  }

  after_cas :
      (pb : h.Bytes) (x : Option Text) (u : h.World) (r : Report)
      → IsMade h recipient state now c pb
      → IsUploaded u
      → (s.put_if_unmodified latest_key pb x u).0 ≡ err r
      → IsRestorable h view i v (s.put_if_unmodified latest_key pb x u).1
  after_cas pb x u r made up failed = elim (law.cas_err latest_key pb x u r failed) [
    | inl same ↦
        IsKept-IsRestorable h view i v R _
          (IsUploaded-IsKept u _ (λ j. cas_kept h view s law latest_key j pb x u same) up)
    | inr (e, _, at) ↦
        IsStored-IsRestorable h view i v recipient k codec keys fit state now c pb _ made
          (moved pb x u e up at)
  ]

  -- The stages of a save: what the world is after each call that may fail.
  save_at-IsRestorable :
      (prev : LatestPointer) (etag : Text) (u : h.World)
      → (plaintext : h.Bytes) (drawn : h.World) → compress h state ≡ ok plaintext
      → (h.age_encrypt recipient plaintext drawn).0 ≡ ok c
      → IsKept h view i v R u
      → IsRestorable h view i v (save_at h s mirrors k prev etag c now u).1
  unfolding save_at
  save_at-IsRestorable prev etag u plaintext drawn packed encrypted same =
      bind_rule P _ _ u (λ _ _. old u same)
        λ _ _.
          bind_rule P _ _ u (λ _ _. old _ kept1)
            λ r1 put1.
              bind_rule P _ _ _ (λ _ _. old _ kept2)
                λ r2 put2.
                  let up : IsUploaded u2 = record {
                    kept = kept2;
                    object_etag = r1.etag;
                    sig_etag = r2.etag;
                    object_at =
                        law.put_other _ _ payload u1 (sig-ne-object _) ∙ law.put_ok _ c u r1 put1;
                    sig_at = law.put_ok _ payload u1 r2 put2;
                  } in
                  bind_rule P _ _ u2 (λ _ _. old _ kept2)
                    λ pb written.
                      let made : IsMade h recipient state now c pb = record {
                        plaintext = plaintext;
                        drawn = drawn;
                        packed = packed;
                        encrypted = encrypted;
                        written = written;
                      } in
                      bind_rule P _ _ u2
                        (λ e failed.
                          after_cas pb (some etag) u2 _ made up (err_of_context _ _ failed).1)
                        λ r3 cas.
                          let at = IsStored-mirror h view k s mirrors apart now c pb _ (
                            moved pb (some etag) u2 r3.etag up
                              (law.cas_ok latest_key pb (some etag) u2 r3
                                (ok_of_context _ _ cas)).1) in
                          let done = published pb _ made at in
                          bind_rule P _ _ _ (λ _ _. done) (λ _ _. done)
    where
      P : Result Text → h.World → Type 0
      P _ w' = IsRestorable h view i v w'

      payload : h.Bytes
      payload = sig_payload h (h.ed_sign k c)

      old : (w' : h.World) → IsKept h view i v R w' → IsRestorable h view i v w'
      old w' = IsKept-IsRestorable h view i v R w'

      published :
          (pb : h.Bytes) (w' : h.World)
          → IsMade h recipient state now c pb
          → IsStored h view k now c pb w'
          → IsRestorable h view i v w'
      published pb w' =
          IsStored-IsRestorable h view i v recipient k codec keys fit state now c pb w'

      u1 : h.World
      u1 = (s.put (object_key (h.format_ts now)) c u).1

      u2 : h.World
      u2 = (s.put (sig_key (h.format_ts now)) payload u1).1

      kept1 : IsKept h view i v R u1
      kept1 = IsKept-put_object h view s law i v R now fresh u same c

      kept2 : IsKept h view i v R u2
      kept2 = IsKept-put_sig h view s law i v R now fresh u1 kept1 payload

module _ (h : Host) (view : View h) (i : h.Identity) (v : h.VerifyingKey) (recipient : h.Recipient)
    (k : h.SigningKey) (codec : IsCodec h) (keys : Decrypts h i recipient) (fit : Verifies h v k)
    (s : SnapshotStore h) (law : IsLawful h view s) (mirrors : List (SnapshotStore h))
    (apart : AreApart h view mirrors) (still : IsUndisturbed h view) {w : h.World} where
  -- Whatever a save does or fails to do, a store from which a snapshot could be restored is left
  -- with one: the old one, or the new one. The keys of the new snapshot, which are made of the time
  -- that the clock then gives, must not be those of the old one.
  pub save-IsRestorable :
      (R : IsRestorable h view i v w) (state : StorageState h.F64) (prev : LatestPointer)
      (etag : Text)
      → ((plaintext : h.Bytes)
          → IsFresh h view i v R (h.now (h.age_encrypt recipient plaintext w).1).0)
      → IsRestorable h view i v (save h s mirrors recipient k state prev etag w).1
  unfolding save
  save-IsRestorable R state prev etag fresh =
      bind_rule P _ _ w (λ _ _. R)
        λ plaintext packed.
          bind_rule P _ _ w
            (λ _ _. IsKept-IsRestorable h view i v R _ (kept _ (λ j. still.encrypt_view _ _ j w)))
            λ c encrypted.
              bind_rule P _ _ _ (λ _ _. IsKept-IsRestorable h view i v R _ (after_now plaintext))
                λ now e.
                  save_at-IsRestorable h view i v recipient k codec keys fit s law mirrors apart R
                    state now (subst (IsFresh h view i v R) (ok_injective e) (fresh plaintext)) c
                    prev etag _ plaintext w packed encrypted (after_now plaintext)
    where
      P : Result Text → h.World → Type 0
      P _ w' = IsRestorable h view i v w'

      kept : (w' : h.World) → ((j : Text) → view w' j ≡ view w j) → IsKept h view i v R w'
      kept w' same = record {
        latest = same latest_key;
        object = same R.pointer.object;
        signature = same R.pointer.signature_object;
      }

      after_now : (p : h.Bytes) → IsKept h view i v R (h.now (h.age_encrypt recipient p w).1).1
      after_now p = kept _ (λ j. still.now_view j _ ∙ still.encrypt_view recipient p j w)
