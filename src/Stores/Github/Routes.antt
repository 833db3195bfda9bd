-- ===== src/Stores/Github/Routes.antt =====
-- Keys and assets: `route` of src/stores/github_release.rs.
use repossess.Prelude.{
  Text, Bool, true, false, Option, none, some, [], ◌∷◌, ◌++◌, codes, ◌==◌, ◌≡◌, refl, sym, ap, ◌∙◌,
  text_eq, strip_prefix, eq_of_text_eq, if◌then◌else◌, arith,
}
use repossess.Stores.Github.{route, routed, underscored}

-- No underscore in a key.
abbrev pub IsPlain : Text → Type 0
IsPlain [] = Unit
IsPlain (c ∷ s) = ((c == b'_') ≡ false) × IsPlain s

-- Slashes for underscores.
abbrev slashed : Text → Text
slashed [] = []
slashed (c ∷ s) = (if c == b'_' then b'/' else c) ∷ slashed s

-- The key that an asset was stored under, from the release and the name.
abbrev pub key_of : Text × Text → Text
key_of (tag, name) =
    if text_eq tag (codes "repossess-latest")
    then codes "latest.json"
    else if text_eq tag (codes "repossess-snapshots")
    then codes "snapshots/" ++ name
    else if text_eq tag (codes "repossess-health")
    then codes "health/" ++ name
    else slashed name

slashed-underscored : (s : Text) → IsPlain s → slashed (underscored s) ≡ s
unfolding underscored
slashed-underscored [] plain = refl
slashed-underscored (c ∷ s) plain = let rest = slashed-underscored s plain.1 in ground arith

strip_prefix-some : (p s r : Text) → strip_prefix p s ≡ some r → s ≡ p ++ r
unfolding strip_prefix
strip_prefix-some [] s r e = cc
strip_prefix-some (c ∷ p) [] r e = absurd (cc)
strip_prefix-some (c ∷ p) (d ∷ s) r e = ground (arith, strip_prefix-some p s r)

-- The asset of a key tells the key.
key_of-routed :
    (key : Text) (snapshot health : Option Text)
    → strip_prefix (codes "snapshots/") key ≡ snapshot
    → strip_prefix (codes "health/") key ≡ health
    → IsPlain key
    → key_of (routed snapshot health key) ≡ key
unfolding text_eq
key_of-routed key (some rest) health is_snapshot is_health plain =
    sym (strip_prefix-some (codes "snapshots/") key rest is_snapshot)
key_of-routed key none (some rest) is_snapshot is_health plain =
    sym (strip_prefix-some (codes "health/") key rest is_health)
key_of-routed key none none is_snapshot is_health plain = slashed-underscored key plain

key_of-route : (key : Text) → IsPlain key → key_of (route key) ≡ key
unfolding route text_eq
key_of-route key plain = by_test (text_eq key (codes "latest.json")) refl
  where
    by_test :
        (b : Bool)
        → text_eq key (codes "latest.json") ≡ b
        → key_of (
            if b
            then (codes "repossess-latest", codes "latest.json")
            else routed
                (strip_prefix (codes "snapshots/") key)
                (strip_prefix (codes "health/") key)
                key)
          ≡ key
    by_test true latest = sym (eq_of_text_eq key (codes "latest.json") latest)
    by_test false other = key_of-routed key _ _ refl refl plain

-- Two keys without underscores that are stored as the same asset of the same release are the same
-- key.
pub route-injective : (k l : Text) → IsPlain k → IsPlain l → route k ≡ route l → k ≡ l
route-injective k l plain_k plain_l same =
    sym (key_of-route k plain_k) ∙ (ap key_of same ∙ key_of-route l plain_l)
