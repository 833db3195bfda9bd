-- ===== src/Secrets.antt =====
-- src/secrets.rs: secrets are taken out of the environment when they are read.
pub mod Taken
use repossess.Prelude.{
  ℕ, Text, Bool, true, false, Option, none, some, List, [], ◌∷◌, ◌++◌, codes, reverse, trim,
  starts_with, if◌then◌else◌, ◌==◌,
}
use repossess.Effect.{M, Result, ok, err, ok_or, message, lift, total, pure, ◌>>=◌, ◌>>◌}
use repossess.Host.{Host}

-- A line's characters, last first, without the carriage return of a "\r\n".
strip_cr : Text → Text
strip_cr [] = []
strip_cr (c ∷ acc) = if c == 13 then acc else c ∷ acc

-- `str::lines`; `acc` is the current line, last character first.
lines_from : Text → Text → List Text
unfolding strip_cr
lines_from [] [] = []
lines_from (c ∷ acc) [] = reverse (c ∷ acc) ∷ []
lines_from [] (c ∷ s) =
    let ended = [] ∷ lines_from [] s in
    let longer = lines_from (c ∷ []) s in if c == 10 then ended else longer
lines_from (d ∷ acc) (c ∷ s) =
    let ended = reverse (strip_cr (d ∷ acc)) ∷ lines_from [] s in
    let longer = lines_from (c ∷ d ∷ acc) s in if c == 10 then ended else longer

-- `lines().find(|l| l.starts_with("AGE-SECRET-KEY-"))`
find_key_line : List Text → Option Text
find_key_line [] = none
find_key_line (l ∷ ls) =
    if starts_with (codes "AGE-SECRET-KEY-") l then some l else find_key_line ls

unfoldable pub key_line : Text → Text
unfolding lines_from find_key_line
key_line raw = elim (find_key_line (lines_from [] raw)) [ some l ↦ l | none ↦ trim raw ]

module _ (h : Host) where
  unfoldable pub read_env : Text → M h.World Text
  read_env var w = (ok_or (h.var w var) (message (codes "env var is not set: " ++ var)), w)

  -- `AgeIdentity::take_from_env` and `MinisignKey::take_from_env`.
  unfoldable pub take_from_env : Text → M h.World Text
  take_from_env var = do raw ← read_env var; total (λ w. (tt, h.remove_var var w)); pure raw

  -- `AgeIdentity::parse`.
  unfoldable pub parse_identity : Text → Result h.Identity
  parse_identity raw =
      ok_or (h.age_identity_of_str (key_line raw)) (message (codes "invalid age identity"))

  -- `StoreCredential::take_from_env`.
  unfoldable pub take_credential : Text → Text → M h.World (Text × Text)
  take_credential access_var secret_var = do
    ak ← read_env access_var
    sk ← read_env secret_var
    total (λ w. (tt, h.remove_var access_var w))
    total (λ w. (tt, h.remove_var secret_var w))
    pure (ak, sk)
