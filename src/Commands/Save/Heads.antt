-- ===== src/Commands/Save/Heads.antt =====
-- A save on a store that, like the git store, has one etag for all keys: the head of its branch.
use repossess.Prelude.{Text, List, some, Option, ◌≡◌, ◌≢◌, refl, sym, ap, subst, ◌∙◌}
use repossess.Effect.{Report, Result, ok, err}
use repossess.Effect.Rules.{ok_of_bind, ok_of_context, ok_injective}
use repossess.Data.{LatestPointer, StorageState}
use repossess.Host.{Host}
use repossess.Crypto.{compress}
use repossess.Snapshot.{latest_key}
use repossess.Stores.{PutResult, SnapshotStore}
use repossess.Commands.Save.{object_key, sig_key, sig_payload, save_at, save}

module _ (h : Host) (s : SnapshotStore h) (k : h.SigningKey) where
  -- The uploads of a snapshot and of its signature, which a save makes in this order.
  abbrev pub upload : h.Bytes → h.World → Result PutResult × h.World
  upload c w =
      let clock = h.now w in
      let ts = h.format_ts clock.0 in
      s.put (sig_key ts) (sig_payload h (h.ed_sign k c)) (s.put (object_key ts) c clock.1).1

module _ (h : Host) (head : h.World → Option Text) where
  -- A write returns the new head, and a conditional write wants the head that it is given.
  pub record IsHeadEtag (s : SnapshotStore h) : Type 0 where
    pub put_ok :
        (k : Text) (b : h.Bytes) (w : h.World) (r : PutResult)
        → (s.put k b w).0 ≡ ok r
        → head (s.put k b w).1 ≡ some r.etag
    pub cas_ok :
        (k : Text) (b : h.Bytes) (expected : Text) (w : h.World) (r : PutResult)
        → (s.put_if_unmodified k b (some expected) w).0 ≡ ok r
        → head w ≡ some expected

  module _ (s : SnapshotStore h) (mirrors : List (SnapshotStore h)) (law : IsHeadEtag s)
      (recipient : h.Recipient) (k : h.SigningKey) (state : StorageState h.F64)
      (prev : LatestPointer) (etag : Text) where
    -- The upload of the signature, of the snapshot `c`, returned the etag of the old pointer.
    abbrev Unmoved : h.Bytes → h.World → Type 0
    Unmoved c w = (r : PutResult) × ((upload h s k c w).0 ≡ ok r) × (r.etag ≡ etag)

    abbrev Encrypted : h.Bytes → h.World → Type 0
    Encrypted plaintext w =
        (c : h.Bytes) × ((h.age_encrypt recipient plaintext w).0 ≡ ok c)
        × Unmoved c (h.age_encrypt recipient plaintext w).1

    unmoved_of_ok :
        (version : Text) (w : h.World)
        → (save h s mirrors recipient k state prev etag w).0 ≡ ok version
        → (plaintext : h.Bytes) × (compress h state ≡ ok plaintext) × Encrypted plaintext w
    unfolding save save_at
    unmoved_of_ok version w e =
        let (plaintext, packed, e1) = ok_of_bind _ _ w e in
        let (c, encrypted, e2) = ok_of_bind _ _ _ e1 in
        let (now, is_now, e3) = ok_of_bind _ _ _ e2 in
        let (_, _, e4) = ok_of_bind _ _ _ e3 in
        let (_, _, e5) = ok_of_bind _ _ _ e4 in
        let (r, put, e6) = ok_of_bind _ _ _ e5 in
        let (pb, _, e7) = ok_of_bind _ _ _ e6 in
        let (_, cas, _) = ok_of_bind _ _ _ e7 in
        let at = (h.age_encrypt recipient plaintext w).1 in
        (
          plaintext,
          packed,
          (
            c,
            encrypted,
            (
              r,
              subst
                  (λ t.
                    (s.put (sig_key (h.format_ts t)) (sig_payload h (h.ed_sign k c))
                      (s.put (object_key (h.format_ts t)) c (h.now at).1).1).0
                    ≡ ok r)
                  (sym (ok_injective is_now)) put,
              some_injective (
                  sym (law.put_ok _ _ _ r put)
                  ∙ law.cas_ok latest_key pb etag _ _ (ok_of_context _ _ cas)),
            ),
          ),
        )
      where
        some_injective : {a b : Text} → some a ≡ some b → a ≡ b
        some_injective q = cc

    -- On a store that has one etag for all keys, the head of its branch, a save fails as soon as its
    -- own uploads move that head: if they return, and the upload of the signature returns another
    -- etag than the one under which the old pointer was read, then the save ends with an error.
    pub save_fails :
        (plaintext c : h.Bytes) (r : PutResult) (w : h.World)
        → compress h state ≡ ok plaintext
        → (h.age_encrypt recipient plaintext w).0 ≡ ok c
        → (upload h s k c (h.age_encrypt recipient plaintext w).1).0 ≡ ok r
        → r.etag ≢ etag
        → (e : Report) × ((save h s mirrors recipient k state prev etag w).0 ≡ err e)
    save_fails plaintext c r w packed encrypted uploaded moved =
        by_result (save h s mirrors recipient k state prev etag w).0 refl
      where
        by_result :
            (x : Result Text)
            → (save h s mirrors recipient k state prev etag w).0 ≡ x
            → (e : Report) × (x ≡ err e)
        by_result (err e) is_err = (e, refl)
        by_result (ok version) is_ok =
            let (p, packed', rest) = unmoved_of_ok version w is_ok in
            let same_plaintext = ok_injective (sym packed' ∙ packed) in
            let (c', encrypted', unmoved) = subst (λ q. Encrypted q w) same_plaintext rest in
            let same_ciphertext = ok_injective (sym encrypted' ∙ encrypted) in
            let (r', uploaded', same) =
              subst (λ q. Unmoved q (h.age_encrypt recipient plaintext w).1) same_ciphertext
                unmoved in
            let same_etag =
              ap (λ (x : PutResult). x.etag) (ok_injective (sym uploaded ∙ uploaded')) in
            absurd (moved (same_etag ∙ same))
