-- ===== src/Prelude/Endings.antt =====
-- Texts told apart by how they end.
use Prim.Native.Nat.{ℕ}
use mathlib.Core.Path.{◌≡◌, refl, ap}
use mathlib.Core.Logic.{inl, inr}
use mathlib.Core.Bool.{false}
use mathlib.Core.List.{[], ◌∷◌, ◌++◌}
use repossess.Prelude.Tests.{Bool-cases}
use repossess.Prelude.Texts.{Text, text_eq, eq_of_text_eq}

abbrev pub last : Text → ℕ
last [] = 0
last (c ∷ []) = c
last (c ∷ d ∷ s) = last (d ∷ s)

pub last-append : (s : Text) (c : ℕ) (t : Text) → last (s ++ c ∷ t) ≡ last (c ∷ t)
last-append [] c t = refl
last-append (d ∷ []) c t = refl
last-append (d ∷ e ∷ s) c t = last-append (e ∷ s) c t

-- Texts with different last characters are different.
pub differ_at_end : (s t : Text) → ¬ (last s ≡ last t) → text_eq s t ≡ false
differ_at_end s t ne = elim (Bool-cases (text_eq s t)) [
  | inl same ↦ absurd (ne (ap last (eq_of_text_eq s t same)))
  | inr other ↦ other
]
