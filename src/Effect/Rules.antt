-- ===== src/Effect/Rules.antt =====
-- How to reason about a chain of `?`: split on the result of its first action.
use repossess.Prelude.{Text, ◌≡◌, refl, sym, ap, subst, arith}
use repossess.Effect.{Report, Result, ok, err, M, pure, resume, total, in_context, ◌>>=◌}

module _ {W A B : Type 0} (P : Result B → W → Type 0) (f : A → M W B) where
  resume_rule :
      (r : Result A) (w : W)
      → ((e : Report) → r ≡ err e → P (err e) w)
      → ((a : A) → r ≡ ok a → P (f a w).0 (f a w).1)
      → P (resume r f w).0 (resume r f w).1
  resume_rule (ok a) w on_err on_ok = on_ok a refl
  resume_rule (err e) w on_err on_ok = on_err e refl

  -- A claim about a result and the world it comes with holds of `m >>= f` if it holds when `m`
  -- fails, and of the rest when `m` returns.
  pub bind_rule :
      (m : M W A) (w : W)
      → ((e : Report) → (m w).0 ≡ err e → P (err e) (m w).1)
      → ((a : A) → (m w).0 ≡ ok a → P (f a (m w).1).0 (f a (m w).1).1)
      → P ((m >>= f) w).0 ((m >>= f) w).1
  unfolding ◌>>=◌
  bind_rule m w on_err on_ok = resume_rule (m w).0 (m w).1 on_err on_ok

  -- An action that cannot fail goes straight on.
  pub total_rule :
      (m : W → A × W) (w : W)
      → P (f (m w).0 (m w).1).0 (f (m w).0 (m w).1).1
      → P ((total m >>= f) w).0 ((total m >>= f) w).1
  unfolding ◌>>=◌
  total_rule m w h = h

module _ {W A B : Type 0} where
  ok_of_resume :
      (r : Result A) (w : W) (f : A → M W B) {b : B}
      → (resume r f w).0 ≡ ok b
      → (a : A) × (r ≡ ok a) × ((f a w).0 ≡ ok b)
  ok_of_resume (ok a) w f e = (a, refl, e)
  ok_of_resume (err x) w f e = ground arith

  -- If a chain returns, its first action returned, and so did the rest from there.
  pub ok_of_bind :
      (m : M W A) (f : A → M W B) (w : W) {b : B}
      → ((m >>= f) w).0 ≡ ok b
      → (a : A) × ((m w).0 ≡ ok a) × ((f a (m w).1).0 ≡ ok b)
  unfolding ◌>>=◌
  ok_of_bind m f w = ok_of_resume (m w).0 (m w).1 f

module _ {W A B : Type 0} where
  resume_ok :
      (r : Result A) (w : W) (f : A → M W B) {a : A} {b : B}
      → r ≡ ok a
      → (f a w).0 ≡ ok b
      → (resume r f w).0 ≡ ok b
  resume_ok (ok x) w f {a} {b} e e' = subst (λ y. (f y w).0 ≡ ok b) (sym (ok_eq e)) e'
    where
      value : Result A → A
      value (ok y) = y
      value (err z) = x

      ok_eq : ok x ≡ ok a → x ≡ a
      ok_eq q = ap value q
  resume_ok (err x) w f e e' = absurd (cc)

  -- A chain returns if its first action does, and the rest from there.
  pub bind_ok :
      (m : M W A) (f : A → M W B) (w : W) {a : A} {b : B}
      → (m w).0 ≡ ok a
      → (f a (m w).1).0 ≡ ok b
      → ((m >>= f) w).0 ≡ ok b
  unfolding ◌>>=◌
  bind_ok m f w = resume_ok (m w).0 (m w).1 f

pub ok_of_context :
    {A : Type 0} (c : Text) (r : Result A) {a : A} → in_context c r ≡ ok a → r ≡ ok a
ok_of_context c (ok b) e = e
ok_of_context c (err x) e = ground arith

pub ok_injective : {A : Type 0} {a b : A} → ok a ≡ ok b → a ≡ b
ok_injective e = cc

pub err_of_context :
    {A : Type 0} (c : Text) (r : Result A) {e : Report}
    → in_context c r ≡ err e
    → (x : Report) × (r ≡ err x)
err_of_context c (ok b) e = ground arith
err_of_context c (err x) e = (x, refl)

-- `Result::map`, of a result and of the world it comes with.
abbrev pub map_result : {A B : Type 0} → (A → B) → Result A → Result B
map_result f (ok a) = ok (f a)
map_result f (err e) = err e

abbrev pub mapped : {W A B : Type 0} → (A → B) → Result A × W → Result B × W
mapped f r = (map_result f r.0, r.1)

module _ {W A B C : Type 0} (k : B → C) where
  mapped-resume :
      (r : Result A) (f : A → M W B) (g : A → M W C) (w : W)
      → ((a : A) (w' : W) → g a w' ≡ mapped k (f a w'))
      → resume r g w ≡ mapped k (resume r f w)
  mapped-resume (ok a) f g w same = same a w
  mapped-resume (err e) f g w same = refl

  -- Two chains with the same first action agree up to `k` if their rests do.
  pub mapped_bind :
      (m : M W A) (f : A → M W B) (g : A → M W C) (w : W)
      → ((a : A) (w' : W) → g a w' ≡ mapped k (f a w'))
      → (m >>= g) w ≡ mapped k ((m >>= f) w)
  unfolding ◌>>=◌
  mapped_bind m f g w same = mapped-resume (m w).0 f g (m w).1 same

pub ok_of_map :
    {A B : Type 0} (f : A → B) (r : Result A) {b : B}
    → map_result f r ≡ ok b
    → (a : A) × (r ≡ ok a) × (f a ≡ b)
ok_of_map f (ok a) e = (a, refl, ok_injective e)
ok_of_map f (err x) e = absurd (cc)

pub err_of_map :
    {A B : Type 0} (f : A → B) (r : Result A) {x : Report} → map_result f r ≡ err x → r ≡ err x
err_of_map f (ok a) e = absurd (cc)
err_of_map f (err x) e = cc

module _ {W A B : Type 0} where
  resume-pure :
      (f : A → B) (r : Result A) (w : W) → resume r (λ a. pure (f a)) w ≡ (map_result f r, w)
  resume-pure f (ok a) w = refl
  resume-pure f (err e) w = refl

  -- A chain that only changes the value it returns.
  pub bind_pure : (f : A → B) (m : M W A) (w : W) → (m >>= λ a. pure (f a)) w ≡ mapped f (m w)
  unfolding ◌>>=◌
  bind_pure f m w = resume-pure f (m w).0 (m w).1
