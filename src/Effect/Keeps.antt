-- ===== src/Effect/Keeps.antt =====
-- Properties of the world that an action keeps, whether it returns or fails: a rule for each way to
-- build an action.
use repossess.Prelude.{Text, Bool, true, false, ◌≡◌, refl, if◌then◌else◌}
use repossess.Effect.{Report, Result, ok, err, M, pure, bail, lift, with_context, ◌>>=◌}

pub record Keeps {W A : Type 0} (P : W → Type 0) (m : M W A) : Type 0 where
  pub at : (w : W) → P w → P (m w).1

module _ {W A : Type 0} {P : W → Type 0} where
  pub Keeps-pure : (a : A) → Keeps P (pure a)
  Keeps-pure a = record { at = λ w p. p }

  pub Keeps-bail : (e : Report) → Keeps P (bail {A = A} e)
  Keeps-bail e = record { at = λ w p. p }

  pub Keeps-lift : (r : Result A) → Keeps P (lift r)
  Keeps-lift r = record { at = λ w p. p }

  pub Keeps-context : (c : Text) (m : M W A) → Keeps P m → Keeps P (with_context c m)
  Keeps-context c m k = record { at = k.at }

  pub Keeps-if : (b : Bool) (m n : M W A) → Keeps P m → Keeps P n → Keeps P (if b then m else n)
  Keeps-if true m n km kn = km
  Keeps-if false m n km kn = kn

module _ {W A B : Type 0} {P : W → Type 0} where
  pub Keeps-lift_bind :
      (r : Result A) (f : A → M W B) → ((a : A) → r ≡ ok a → Keeps P (f a)) → Keeps P (lift r >>= f)
  unfolding ◌>>=◌
  Keeps-lift_bind (ok a) f k = k a refl
  Keeps-lift_bind (err e) f k = Keeps-bail e

  pub Keeps-bind :
      (m : M W A) (f : A → M W B) → Keeps P m → ((a : A) → Keeps P (f a)) → Keeps P (m >>= f)
  unfolding ◌>>=◌
  Keeps-bind m f km kf = record {
    at = λ w p. (Keeps-lift_bind (m w).0 f (λ a _. kf a)).at (m w).1 (km.at w p);
  }

pub ruleset keeps_rules = (Keeps-pure, Keeps-bail, Keeps-lift, Keeps-context, Keeps-bind)
