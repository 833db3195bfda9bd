-- ===== src/Main/Keys.antt =====
-- The keys that gen-keys of src/main.rs prints, and the commands that read them.
use repossess.Prelude.{true, ◌≡◌, ap, ◌∙◌, some, ◌==◌, trim}
use repossess.Effect.{ok}
use repossess.Host.{Host}
use repossess.Host.Laws.{IsCodec, Verifies}
use repossess.Crypto.{parse_signing_key, parse_verifying_key}
use repossess.Main.{Keygen, generate_keys}

module _ (h : Host) (codec : IsCodec h) (keygen : Keygen h) where
  -- Keys have 32 bytes, from which they can be made again, and a key verifies what its other half
  -- signs.
  pub record IsKeygen : Type 0 where
    pub len_signing : (k : h.SigningKey) → (h.len (keygen.signing_bytes k) == 32) ≡ true
    pub len_verifying : (v : h.VerifyingKey) → (h.len (keygen.verifying_bytes v) == 32) ≡ true
    pub signing : (k : h.SigningKey) → h.signing_key_of_bytes (keygen.signing_bytes k) ≡ k
    pub verifying :
        (v : h.VerifyingKey) → h.verifying_key_of_bytes (keygen.verifying_bytes v) ≡ some v
    pub fit : (k : h.SigningKey) → Verifies h (keygen.verifying_key k) k

  decoded : (b : h.Bytes) → h.hex_decode (trim (h.hex_encode b)) ≡ ok b
  decoded b = ap h.hex_decode (codec.hex_trim b) ∙ codec.hex b

  module _ (law : IsKeygen) where
    signing_read :
        (k : h.SigningKey) → parse_signing_key h (h.hex_encode (keygen.signing_bytes k)) ≡ ok k
    unfolding parse_signing_key
    signing_read k = simp (decoded (keygen.signing_bytes k), law.len_signing k, law.signing k)

    verifying_read :
        (v : h.VerifyingKey)
        → parse_verifying_key h (h.hex_encode (keygen.verifying_bytes v)) ≡ ok v
    unfolding parse_verifying_key
    verifying_read v =
        simp (decoded (keygen.verifying_bytes v), law.len_verifying v, law.verifying v)

  -- The two texts that gen-keys prints are read back by the commands as a signing key and a
  -- verifying key that fit together.
  pub generate_keys-Verifies :
      (law : IsKeygen) (w : h.World)
      → (k : h.SigningKey) × (v : h.VerifyingKey) × (parse_signing_key h
            (generate_keys h keygen w).0.secret
          ≡ ok k)
        × (parse_verifying_key h (generate_keys h keygen w).0.pubkey ≡ ok v)
        × Verifies h v k
  unfolding generate_keys
  generate_keys-Verifies law w =
      let k = (keygen.generate w).0 in
      (
        k,
        keygen.verifying_key k,
        signing_read law k,
        verifying_read law (keygen.verifying_key k),
        law.fit k,
      )
