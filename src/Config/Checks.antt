-- ===== src/Config/Checks.antt =====
-- What a configuration that was loaded promises.
use repossess.Prelude.{
  ◌<◌, Text, Bool, true, false, Option, none, some, List, [], ◌∷◌, ◌++◌, ◌≡◌, ◌⊎◌, inl, inr, arith,
  refl, subst, if◌then◌else◌,
}
use repossess.Effect.{Result, ok, err}
use repossess.Effect.Rules.{ok_injective}
use repossess.Config.{
  Config, StoreCfg, validate, primary, mirrors, is_relative, resolve, resolve_paths, load,
}

-- A loaded configuration has a primary store and a list of mirrors, which together are the stores of
-- the file in order, and a lock that does not expire at once.
pub load_complete :
    (base : Text) (bin : Option Text) (cfg cfg' : Config)
    → load base bin cfg ≡ ok cfg'
    → (p : StoreCfg) × (ms : List StoreCfg) × (primary cfg' ≡ some p)
      × (mirrors cfg' ≡ some ms)
      × (cfg.stores ≡ p ∷ ms)
      × (0 < cfg'.lock.ttl_seconds)
unfolding load validate resolve_paths primary mirrors
load_complete base bin cfg cfg' e = go cfg.stores refl
  where
    go :
        (l : List StoreCfg)
        → cfg.stores ≡ l
        → (p : StoreCfg) × (ms : List StoreCfg) × (primary cfg' ≡ some p)
          × (mirrors cfg' ≡ some ms)
          × (cfg.stores ≡ p ∷ ms)
          × (0 < cfg'.lock.ttl_seconds)
    go [] q = absurd (ground arith)
    go (p ∷ ms) q = (p, ms, ground arith, ground arith, q, ground arith)

-- The path `q` is absolute: it is `p`, or `p` under `base` if `p` is relative.
abbrev pub Resolved : (base p q : Text) → Type 0
Resolved base p q =
    (is_relative q ≡ false)
    × (((is_relative p ≡ true) × (q ≡ base ++ (b'/' ∷ p))) ⊎ ((is_relative p ≡ false) × (q ≡ p)))

-- The same, unless the environment names another path.
abbrev pub Overridden : (base : Text) → Option Text → (p q : Text) → Type 0
Overridden base none p q = Resolved base p q
Overridden base (some bin) p q = q ≡ bin

resolve-Resolved : (base p : Text) → is_relative base ≡ false → Resolved base p (resolve base p)
unfolding resolve
resolve-Resolved [] p h = absurd (cc)
resolve-Resolved (c ∷ base) p h = split (is_relative p) refl
  where
    split :
        (b : Bool)
        → is_relative p ≡ b
        → Resolved (c ∷ base) p (if b then c ∷ base ++ (b'/' ∷ p) else p)
    split true e = (h, inl (e, refl))
    split false e = (e, inr (e, refl))

-- What `load` makes of the paths, and that it leaves the rest of the file as it was.
pub record IsLoaded (base : Text) (bin : Option Text) (cfg cfg' : Config) : Type 0 where
  pub chromium_bin : Overridden base bin cfg.browser.chromium_bin cfg'.browser.chromium_bin
  pub user_data_dir : Resolved base cfg.browser.user_data_dir cfg'.browser.user_data_dir
  pub recipient_file : Resolved base cfg.crypto.recipient_file cfg'.crypto.recipient_file
  pub verify_pubkey_file :
      Resolved base cfg.crypto.verify_pubkey_file cfg'.crypto.verify_pubkey_file
  pub rest : cfg ≡ record cfg' {
    browser = record cfg'.browser {
      chromium_bin = cfg.browser.chromium_bin;
      user_data_dir = cfg.browser.user_data_dir;
    };
    crypto = cfg.crypto;
  }

-- Under an absolute base, `load` makes each of the four paths absolute: one that was absolute stays
-- as it was, and a relative one is taken under the base; but if the environment names a Chromium
-- binary, that is taken as it is. Everything else is as in the file.
pub load-IsLoaded :
    (base : Text) (bin : Option Text) (cfg cfg' : Config)
    → is_relative base ≡ false
    → load base bin cfg ≡ ok cfg'
    → IsLoaded base bin cfg cfg'
unfolding load
load-IsLoaded base bin cfg cfg' h e =
    subst (IsLoaded base bin cfg) (after_checks (validate (resolve_paths base bin cfg)) e)
      (resolve_paths-IsLoaded bin)
  where
    after_checks :
        (r : Result (Unit {0}))
        → elim r as (λ _. Result Config) [ ok _ ↦ ok (resolve_paths base bin cfg) | err x ↦ err x ]
          ≡ ok cfg'
        → resolve_paths base bin cfg ≡ cfg'
    after_checks (ok _) q = ok_injective q
    after_checks (err x) q = absurd (cc)

    binary :
        (b : Option Text)
        → Overridden base b cfg.browser.chromium_bin (resolve_paths base b cfg).browser.chromium_bin
    binary none = unfold resolve_paths in (resolve-Resolved base _ h)
    binary (some x) = unfold resolve_paths in refl

    resolve_paths-IsLoaded : (b : Option Text) → IsLoaded base b cfg (resolve_paths base b cfg)
    resolve_paths-IsLoaded b = record {
      chromium_bin = binary b;
      user_data_dir = unfold resolve_paths in (resolve-Resolved base _ h);
      recipient_file = unfold resolve_paths in (resolve-Resolved base _ h);
      verify_pubkey_file = unfold resolve_paths in (resolve-Resolved base _ h);
      rest = unfold resolve_paths in refl;
    }
