-- ===== src/Commands/Restore/Integrity.antt =====
-- What `restore` returns is what the primary store holds, checked; and it writes nothing.
use repossess.Prelude.{Text, ◌≡◌, Option, some, ◌∙◌, sym, ap}
use repossess.Effect.{ok, with_context}
use repossess.Effect.Rules.{ok_of_bind, ok_of_context, ok_injective}
use repossess.Effect.Keeps.{Keeps, keeps_rules}
use repossess.Data.{LatestPointer, StorageState}
use repossess.Host.{Host}
use repossess.Snapshot.{latest_key, verify_digest}
use repossess.Stores.{SnapshotStore}
use repossess.Stores.Contract.{etag_of, View, Object, IsLawful}
use repossess.Crypto.{verify, decompress}
use repossess.Commands.Restore.{Restored, restore, decode_signature}

module _ (h : Host) (view : View h) (i : h.Identity) (v : h.VerifyingKey) where
  -- A stored snapshot that passes every check and unpacks to a storage state.
  pub record IsRestorable (w : h.World) : Type 0 where
    pub latest : Object h
    pub pointer : LatestPointer
    pub snapshot : Object h
    pub signature : Object h
    pub sig : h.Bytes
    pub plaintext : h.Bytes
    pub state : StorageState h.F64
    pub latest_at : view w latest_key ≡ some latest
    pub pointer_parses : h.pointer_json.from_slice latest.body ≡ ok pointer
    pub snapshot_at : view w pointer.object ≡ some snapshot
    pub digest : verify_digest h pointer.object_sha256 snapshot.body ≡ ok tt
    pub signature_at : view w pointer.signature_object ≡ some signature
    pub sig_decodes : decode_signature h signature.body ≡ ok sig
    pub signed : verify h v snapshot.body sig ≡ ok tt
    pub decrypts : h.age_decrypt i snapshot.body ≡ ok plaintext
    pub unpacks : decompress h plaintext ≡ ok state

  module _ (s : SnapshotStore h) (law : IsLawful h view s) where
    get-Keeps : (j : Text) (o : Option (Object h)) (k : Text) → Keeps (λ w. view w j ≡ o) (s.get k)
    get-Keeps j o k = record { at = λ w e. law.get_view k j w ∙ e }

    pub restore-Keeps :
        (j : Text) (o : Option (Object h)) → Keeps (λ w. view w j ≡ o) (restore h s i v)
    unfolding restore
    restore-Keeps j o = search (keeps_rules, get-Keeps j o) depth 30

    fetched :
        (c k : Text) (w : h.World) (b : h.Bytes) (e : Text)
        → (with_context c (s.get k) w).0 ≡ ok (b, e)
        → view w k ≡ some (record { body = b; etag = e })
    fetched c k w b e g = law.get_ok k w b e (ok_of_context c (s.get k w).0 g)

    -- What `restore` returned is the checked snapshot that the store holds.
    abbrev pub Found : h.World → Restored h → Type 0
    Found w r =
        (R : IsRestorable w) × (R.pointer ≡ r.pointer)
        × (R.state ≡ r.state)
        × (etag_of (view w latest_key) ≡ some r.pointer_etag)

    -- If `restore` returns, the store holds a snapshot that passes every check: its digest is the one
    -- that the stored pointer names, its signature is valid, and it decrypts and unpacks to the state
    -- that is returned, with the pointer and the pointer's etag.
    pub restore-Found : (w : h.World) (r : Restored h) → (restore h s i v w).0 ≡ ok r → Found w r
    unfolding restore
    restore-Found w r e0 =
        let ((pb, pe), g1, e1) = ok_of_bind _ _ w e0 in
        let (p, g2, e2) = ok_of_bind _ _ _ e1 in
        let ((c, ce), g3, e3) = ok_of_bind _ _ _ e2 in
        let (_, g4, e4) = ok_of_bind _ _ _ e3 in
        let ((sb, se), g5, e5) = ok_of_bind _ _ _ e4 in
        let (sig, g6, e6) = ok_of_bind _ _ _ e5 in
        let (_, g7, e7) = ok_of_bind _ _ _ e6 in
        let (pt, g8, e8) = ok_of_bind _ _ _ e7 in
        let (st, g9, e9) = ok_of_bind _ _ _ e8 in
        (
          record {
            latest = record { body = pb; etag = pe };
            pointer = p;
            snapshot = record { body = c; etag = ce };
            signature = record { body = sb; etag = se };
            sig = sig;
            plaintext = pt;
            state = st;
            latest_at = fetched _ latest_key w pb pe g1;
            pointer_parses = ok_of_context _ _ g2;
            snapshot_at = sym (law.get_view latest_key p.object w) ∙ fetched _ p.object _ c ce g3;
            digest = g4;
            signature_at =
                sym (law.get_view latest_key p.signature_object w)
                ∙ sym (law.get_view p.object p.signature_object _)
                ∙ fetched _ p.signature_object _ sb se g5;
            sig_decodes = g6;
            signed = g7;
            decrypts = g8;
            unpacks = g9;
          },
          ap (λ (x : Restored h). x.pointer) (ok_injective e9),
          ap (λ (x : Restored h). x.state) (ok_injective e9),
          ap etag_of (fetched _ latest_key w pb pe g1)
              ∙ ap (λ (x : Restored h). some x.pointer_etag) (ok_injective e9),
        )
