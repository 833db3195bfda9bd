-- ===== src/Effect.antt =====
-- The effects of the async functions: `eyre::Result`, `?` and `.context(…)`, over an unknown world
-- that holds the stores, the clock and every other thing outside the process.
pub mod Rules
pub mod Keeps
use repossess.Prelude.{Text, ℕ, Option, none, some, Bool, true, false}

-- eyre::Report: the messages of `bail!`, `ensure!` and `eyre!` with their values, the errors of
-- libraries, and the layers that `context` adds.
pub data Report : Type 0 where
  message : Text → Report
  context : Text → Report → Report
  lock_held : Text → ℕ → ℕ → Report
  digest_mismatch : Text → Text → Report
  pointer_rollback : ℕ → ℕ → Report
  canary_failed : ℕ → Option Text → Report
  uploads_failed : ℕ → Report

pub data Result {ℓ} (A : Type ℓ) : Type ℓ where
  ok : A → Result A
  err : Report → Result A

-- What was done before an error stays done, so the world comes back beside the error too.
abbrev pub M : Type 0 → Type 0 → Type 0
M W A = W → Result A × W

abbrev pub in_context : {A : Type 0} → Text → Result A → Result A
in_context c (ok a) = ok a
in_context c (err e) = err (context c e)

module _ {W A : Type 0} where
  abbrev pub pure : A → M W A
  pure a w = (ok a, w)

  -- `return Err(e)` and `bail!`.
  abbrev pub bail : Report → M W A
  bail e w = (err e, w)

  -- A computation with no effect, under `?`.
  abbrev pub lift : Result A → M W A
  lift r w = (r, w)

  -- An effect that cannot fail.
  abbrev pub total : (W → A × W) → M W A
  total m w = (ok (m w).0, (m w).1)

  -- `.context(…)` and `.with_context(…)` on an action.
  abbrev pub with_context : Text → M W A → M W A
  with_context c m w = (in_context c (m w).0, (m w).1)

module _ {W A B : Type 0} where
  abbrev pub resume : Result A → (A → M W B) → M W B
  resume (ok a) f w = f a w
  resume (err e) f w = (err e, w)

  infixl 5 ◌>>=◌ ◌>>◌
  unfoldable pub ◌>>=◌ : M W A → (A → M W B) → M W B
  ◌>>=◌ m f w = resume (m w).0 f (m w).1

  abbrev pub ◌>>◌ : M W A → M W B → M W B
  m >> n = m >>= λ _. n

-- `match action.await { Ok(_) => …, Err(_) => … }`, where both go on without a value.
abbrev pub ignore {ℓ} : {W : Type 0} {A : Type ℓ} → (W → A × W) → W → Unit {0} × W
ignore m w = (tt, (m w).1)

-- `ensure!(test, …)`.
abbrev pub ensure : Bool → Report → Result (Unit {0})
ensure true e = ok tt
ensure false e = err e

-- `Option::ok_or_else`.
abbrev pub ok_or : {A : Type 0} → Option A → Report → Result A
ok_or none e = err e
ok_or (some a) e = ok a
