-- ===== src/Tests/Keys.antt =====
-- Concrete keys: a number, stored in front of 31 letters.
use repossess.Prelude.{ℕ, Text, codes, some, [], ◌∷◌, ◌≡◌, refl}
use repossess.Effect.{ok}
use repossess.Host.{Host}
use repossess.Host.Laws.{IsCodec, Verifies}
use repossess.Crypto.{parse_signing_key, parse_verifying_key}
use repossess.Main.{Keygen, generate_keys}
use repossess.Main.Keys.{IsKeygen, generate_keys-Verifies}
use repossess.Tests.Model.{host, empty_memory}
use repossess.Tests.Laws.{host-IsCodec, host-Verifies}

abbrev first : Text → ℕ
first [] = 0
first (c ∷ t) = c

abbrev keyed : Host
keyed = record host { signing_key_of_bytes = first; verifying_key_of_bytes = λ b. some (first b) }

abbrev keygen : Keygen keyed
keygen = record {
  generate = λ w. (w.clock, w);
  verifying_key = λ k. k;
  signing_bytes = λ k. k ∷ codes "0123456789abcdefghijklmnopqrstu";
  verifying_bytes = λ v. v ∷ codes "0123456789abcdefghijklmnopqrstu";
}

keyed-IsCodec : IsCodec keyed
keyed-IsCodec = record {
  zstd = host-IsCodec.zstd;
  state = host-IsCodec.state;
  pointer = host-IsCodec.pointer;
  hex = host-IsCodec.hex;
  hex_trim = host-IsCodec.hex_trim;
  utf8 = host-IsCodec.utf8;
}

keygen-IsKeygen : IsKeygen keyed keyed-IsCodec keygen
keygen-IsKeygen = record {
  len_signing = λ k. refl;
  len_verifying = λ v. refl;
  signing = λ k. refl;
  verifying = λ v. refl;
  fit = λ k. record { verifies = (host-Verifies k).verifies; len_sig = (host-Verifies k).len_sig };
}

generate_keys-Verifies_example :
    (k : ℕ) × (v : ℕ) × (parse_signing_key keyed (generate_keys keyed keygen empty_memory).0.secret
      ≡ ok k)
    × (parse_verifying_key keyed (generate_keys keyed keygen empty_memory).0.pubkey ≡ ok v)
    × Verifies keyed v k
generate_keys-Verifies_example =
    generate_keys-Verifies keyed keyed-IsCodec keygen keygen-IsKeygen empty_memory
