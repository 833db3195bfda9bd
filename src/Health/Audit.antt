-- ===== src/Health/Audit.antt =====
-- The run id in a health key, and what writing a record touches.
use repossess.Prelude.{
  ℕ, Text, Bool, true, [], ◌∷◌, length, suc, ◌≡◌, refl, arith, ◌&&◌, ◌||◌, ◌==◌, ap,
}
use repossess.Health.{is_ascii_alphanumeric, sanitize_char, sanitize_run_id}

abbrev pub is_safe : ℕ → Bool
is_safe c = is_ascii_alphanumeric c || c == b'-'

abbrev pub all_safe : Text → Bool
all_safe [] = true
all_safe (c ∷ s) = is_safe c && all_safe s

sanitize_char_safe : (c : ℕ) → is_safe (sanitize_char c) ≡ true
unfolding sanitize_char
sanitize_char_safe c = ground arith

sanitize_char_self : (c : ℕ) → is_safe c ≡ true → sanitize_char c ≡ c
unfolding sanitize_char
sanitize_char_self c h = rw h

-- A sanitised run id has only letters, digits and dashes of ASCII, as many as the id has
-- characters; and an id that has only those is not changed.
pub sanitize_run_id_lem :
    (id : Text)
    → (all_safe (sanitize_run_id id) ≡ true)
      × (length (sanitize_run_id id) ≡ length id)
      × (all_safe id ≡ true → sanitize_run_id id ≡ id)
unfolding sanitize_run_id
sanitize_run_id_lem [] = (refl, refl, λ _. refl)
sanitize_run_id_lem (c ∷ s) =
    let (safe, len, same) = sanitize_run_id_lem s in
    (ground (arith, sanitize_char_safe c), ap suc len, λ h. ground (arith, sanitize_char_self c))
