-- ===== src/Secrets/Taken.antt =====
-- A secret that was read can no longer be inherited by a child process.
use repossess.Prelude.{Text, none, some, ◌≡◌, if◌then◌else◌, text_eq, arith}
use repossess.Effect.{ok, err, ◌>>=◌}
use repossess.Host.{Host}
use repossess.Secrets.{read_env, take_credential}

module _ (h : Host) where
  -- `std::env::remove_var` removes one variable.
  pub record RemovesVars : Type 0 where
    pub var_remove :
        (k j : Text) (w : h.World)
        → h.var (h.remove_var k w) j ≡ (if text_eq k j then none else h.var w j)

  -- If a pair of store credentials was read, both variables are gone and every other variable is
  -- as before; if one of them was missing, nothing was removed.
  pub take_credential_lem :
      RemovesVars
      → (a s : Text) (w : h.World)
      → ((ak sk : Text)
          → (take_credential h a s w).0 ≡ ok (ak, sk)
          → (h.var w a ≡ some ak)
            × (h.var w s ≡ some sk)
            × ((j : Text)
                → h.var (take_credential h a s w).1 j
                  ≡ (if text_eq s j then none else if text_eq a j then none else h.var w j)))
        × ((e : _) → (take_credential h a s w).0 ≡ err e → (take_credential h a s w).1 ≡ w)
  unfolding take_credential read_env ◌>>=◌
  take_credential_lem rem a s w = (
    λ ak sk e. (
      ground arith,
      ground arith,
      λ j. ground (arith, rem.var_remove a j w, rem.var_remove s j (h.remove_var a w)),
    ),
    λ e q. ground arith,
  )
