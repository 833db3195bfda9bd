-- ===== src/Host/Laws.antt =====
-- What the program relies on from those crates: decoding undoes a successful encoding, and keys fit.
use repossess.Prelude.{ℕ, Text, ◌≡◌, true, trim, ◌==◌}
use repossess.Effect.{ok}
use repossess.Host.{Serde, Host}

abbrev pub IsRoundTrip : {Bytes A : Type 0} → Serde Bytes A → Type 0
IsRoundTrip {Bytes} {A} s = (a : A) (b : Bytes) → s.to_vec a ≡ ok b → s.from_slice b ≡ ok a

-- zstd, JSON, and hex written as UTF-8 text, which has no space around it.
pub record IsCodec (h : Host) : Type 0 where
  pub zstd : (level : ℕ) (d c : h.Bytes) → h.zstd_encode level d ≡ ok c → h.zstd_decode c ≡ ok d
  pub state : IsRoundTrip h.state_json
  pub pointer : IsRoundTrip h.pointer_json
  pub hex : (b : h.Bytes) → h.hex_decode (h.hex_encode b) ≡ ok b
  pub hex_trim : (b : h.Bytes) → trim (h.hex_encode b) ≡ h.hex_encode b
  pub utf8 : (t : Text) → h.from_utf8 (h.utf8 t) ≡ ok t

-- `i` decrypts what is encrypted to `r`.
pub record Decrypts (h : Host) (i : h.Identity) (r : h.Recipient) : Type 0 where
  pub decrypts :
      (d c : h.Bytes) (w : h.World) → (h.age_encrypt r d w).0 ≡ ok c → h.age_decrypt i c ≡ ok d

-- `v` accepts the signatures of `k`, which are 64 bytes long.
pub record Verifies (h : Host) (v : h.VerifyingKey) (k : h.SigningKey) : Type 0 where
  pub verifies : (d : h.Bytes) → h.ed_verify v d (h.ed_sign k d) ≡ true
  pub len_sig : (d : h.Bytes) → (h.len (h.ed_sign k d) == 64) ≡ true
