-- ===== src/Commands/Seed/Seeded.antt =====
-- A seed that succeeds has published a snapshot that can be restored.
use repossess.Prelude.{
  ℕ, Text, Bool, true, false, ◌≡◌, List, ◌∙◌, refl, ap, is_empty, if◌then◌else◌,
}
use repossess.Effect.{M, ok, Result, err, Report, bail, lift, total, ◌>>=◌}
use repossess.Effect.Rules.{bind_rule, ok_of_context, ok_injective}
use repossess.Data.{LatestPointer, StorageState}
use repossess.Host.{Host}
use repossess.Host.Laws.{IsCodec, Decrypts, Verifies}
use repossess.Snapshot.{latest_key}
use repossess.Stores.{SnapshotStore}
use repossess.Stores.Contract.{View, IsLawful, AreApart}
use repossess.Crypto.{compress}
use repossess.Commands.Restore.Integrity.{IsRestorable}
use repossess.Commands.Save.{object_key, sig_key, sig_payload}
use repossess.Commands.Save.Published.{
  sig-ne-object, latest-ne-object, latest-ne-sig, IsMade, IsStored-IsRestorable, IsStored-mirror,
  restorable_parts,
}
use repossess.Commands.Seed.{none_captured, publish, publish_at}

module _ (h : Host) (view : View h) (i : h.Identity) (v : h.VerifyingKey) (recipient : h.Recipient)
    (k : h.SigningKey) (codec : IsCodec h) (keys : Decrypts h i recipient) (fit : Verifies h v k)
    (s : SnapshotStore h) (law : IsLawful h view s) (mirrors : List (SnapshotStore h))
    (apart : AreApart h view mirrors) where
  -- The store restores to `state`, which has cookies, under the version that was returned.
  abbrev pub Seeded : StorageState h.F64 → Text → h.World → Type 0
  Seeded state version w' =
      (R : IsRestorable h view i v w') × (R.state ≡ state)
      × (R.pointer.version ≡ version)
      × (is_empty state.cookies ≡ false)

  module _ (state : StorageState h.F64) (version : Text)
      (more : is_empty state.cookies ≡ false) where
    P : Result Text → h.World → Type 0
    P r w' = r ≡ ok version → Seeded state version w'

    failed : (e : Report) (w' : h.World) → P (err e) w'
    unfolding P
    failed e w' bad = absurd (cc)

    arrived : (x : Text) (w' : h.World) → (x ≡ version → Seeded state version w') → P (ok x) w'
    unfolding P
    arrived x w' f e = f (ok_injective e)

    publish_at-Seeded :
        (c : h.Bytes) (now : ℕ) (u : h.World) (plaintext : h.Bytes) (drawn : h.World)
        → compress h state ≡ ok plaintext
        → (h.age_encrypt recipient plaintext drawn).0 ≡ ok c
        → P (publish_at h s mirrors k c now u).0 (publish_at h s mirrors k c now u).1
    unfolding publish_at
    publish_at-Seeded c now u plaintext drawn packed encrypted =
        bind_rule P _ _ u (λ e _. failed e _)
          λ r1 put1.
            bind_rule P _ _ _ (λ e _. failed e _)
              λ r2 put2.
                bind_rule P _ _ u2 (λ e _. failed e _)
                  λ pb written.
                    bind_rule P _ _ u2 (λ e _. failed e _)
                      λ existing _.
                        bind_rule P _ _ u3 (λ e _. failed e _)
                          λ r3 cas.
                            let stored =
                              IsStored-mirror h view k s mirrors apart now c pb _ (record {
                                latest_etag = r3.etag;
                                object_etag = r1.etag;
                                sig_etag = r2.etag;
                                latest_at =
                                    (law.cas_ok latest_key pb existing u3 r3
                                      (ok_of_context _ _ cas)).1;
                                object_at =
                                    law.cas_other _ _ pb _ u3 (latest-ne-object _)
                                    ∙ law.head_view latest_key _ u2
                                    ∙ law.put_other _ _ payload u1 (sig-ne-object _)
                                    ∙ law.put_ok _ c u r1 (ok_of_context _ _ put1);
                                sig_at =
                                    law.cas_other _ _ pb _ u3 (latest-ne-sig _)
                                    ∙ law.head_view latest_key _ u2
                                    ∙ law.put_ok _ payload u1 r2 (ok_of_context _ _ put2);
                              }) in
                            let made : IsMade h recipient state now c pb = record {
                              plaintext = plaintext;
                              drawn = drawn;
                              packed = packed;
                              encrypted = encrypted;
                              written = written;
                            } in
                            let parts =
                              restorable_parts h view i v recipient k codec keys fit state now c pb
                                _ made stored in
                            bind_rule P _ _ _ (λ e _. failed e _)
                              λ _ _. arrived _ _ λ e. (
                                IsStored-IsRestorable h view i v recipient k codec keys fit state
                                    now c pb _ made stored,
                                parts.0,
                                ap (λ (p : LatestPointer). p.version) parts.1 ∙ e,
                                more,
                              )
      where
        payload : h.Bytes
        payload = sig_payload h (h.ed_sign k c)

        u1 : h.World
        u1 = (s.put (object_key (h.format_ts now)) c u).1

        u2 : h.World
        u2 = (s.put (sig_key (h.format_ts now)) payload u1).1

        u3 : h.World
        u3 = (s.head latest_key u2).1

  -- If a seed returns a version, the captured state has cookies and the store restores to it under
  -- that version, whatever the store held before.
  pub publish-Seeded :
      (state : StorageState h.F64) (w : h.World) (version : Text)
      → (publish h s mirrors recipient k state w).0 ≡ ok version
      → Seeded state version (publish h s mirrors recipient k state w).1
  unfolding publish P
  publish-Seeded state w version = by_cookies (is_empty state.cookies) refl
    where
      from : M h.World Text
      from = lift (compress h state) >>= λ p.
          h.age_encrypt recipient p >>= λ c. total h.now >>= λ now. publish_at h s mirrors k c now

      by_cookies :
          (b : Bool)
          → is_empty state.cookies ≡ b
          → ((if b then bail none_captured else from) w).0 ≡ ok version
          → Seeded state version ((if b then bail none_captured else from) w).1
      by_cookies true e = λ bad. absurd (cc)
      by_cookies false more =
          bind_rule (P state version more) _ _ w (λ e _. failed state version more e _)
            λ plaintext packed.
              bind_rule (P state version more) _ _ w (λ e _. failed state version more e _)
                λ c encrypted.
                  bind_rule (P state version more) _ _ _ (λ e _. failed state version more e _)
                    λ now _.
                      publish_at-Seeded state version more c now _ plaintext w packed encrypted
