-- ===== src/Crypto/RoundTrip.antt =====
-- Packing and signing, then checking and unpacking.
use repossess.Prelude.{◌≡◌, refl, arith, codes}
use repossess.Effect.{Result, ok, err, in_context}
use repossess.Effect.Rules.{ok_of_context}
use repossess.Data.{StorageState}
use repossess.Host.{Host}
use repossess.Host.Laws.{IsCodec, Verifies}
use repossess.Crypto.{verify, compress, decompress, compress_json}

module _ (h : Host) where
  unpack :
      (codec : IsCodec h) (state : StorageState h.F64) (r : Result h.Bytes) (p : h.Bytes)
      → h.state_json.to_vec state ≡ r
      → compress_json h (in_context (codes "serialize state") r) ≡ ok p
      → decompress h p ≡ ok state
  unfolding decompress
  unpack codec state (ok json) p made e =
      rw (codec.zstd 3 json p (ok_of_context _ _ e)) (rw (codec.state state json made))
  unpack codec state (err x) p made e = ground arith

  -- `decompress` gives back the storage state that `compress` packed.
  pub decompress-compress :
      (codec : IsCodec h) (state : StorageState h.F64) (p : h.Bytes)
      → compress h state ≡ ok p
      → decompress h p ≡ ok state
  unfolding compress
  decompress-compress codec state p e = unpack codec state (h.state_json.to_vec state) p refl e

  pub verify-sign :
      (v : h.VerifyingKey) (k : h.SigningKey) (fit : Verifies h v k) (d : h.Bytes)
      → verify h v d (h.ed_sign k d) ≡ ok tt
  unfolding verify
  verify-sign v k fit d = rw (fit.len_sig d, fit.verifies d)
