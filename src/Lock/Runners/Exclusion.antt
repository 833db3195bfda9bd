-- ===== src/Lock/Runners/Exclusion.antt =====
-- At most one runner holds a guard whose lock has not expired.
use repossess.Prelude.{
  ℕ, ◌+◌, ◌≤◌, ◌<◌, Bool, true, false, Option, none, some, ◌≡◌, ◌⊎◌, inl, inr, arith, ◌≢◌, subst,
  sym, refl, ap, ◌∙◌, ℕ_discrete, Bool-cases, if◌then◌else◌,
}
use repossess.Data.{Lock}
use repossess.Lock.{is_held, new_lock}
use repossess.Lock.Runners.{
  Stored, Phase, idle, gave_up, timed, absent, present, expired, holding, System, become, write,
  goes, Step, Reach, start, tick, read_clock, head_none, head_some, get_gone, get_lock, create,
  create_refused, swap, swap_refused, release, release_refused, here, next,
}

-- The stored lock is the one behind the guard `etag`, and it runs until `x`.
abbrev IsCurrent : Option Stored → ℕ → ℕ → Type 0
IsCurrent none etag x = ⊥
IsCurrent (some o) etag x = (o.etag ≡ etag) × (o.lock.expires_at ≡ x)

-- If `etag` is still that of the stored lock, this lock had expired at `now`.
abbrev IsPast : Option Stored → ℕ → ℕ → Type 0
IsPast none etag now = Unit
IsPast (some o) etag now = o.etag ≡ etag → o.lock.expires_at ≤ now

abbrev IsOld : Option Stored → ℕ → Type 0
IsOld none n = Unit
IsOld (some o) n = o.etag < n

become_self : (f : ℕ → Phase) {i j : ℕ} (p : Phase) → i ≡ j → become f i p j ≡ p
become_self f p e = ground arith

become_other : (f : ℕ → Phase) {i j : ℕ} (p : Phase) → i ≢ j → become f i p j ≡ f j
become_other f p ne = ground arith

-- What the phase of one runner says, given the stored lock, the next etag and the clock.
abbrev Fits : Option Stored → ℕ → ℕ → Phase → Type 0
Fits o n t idle = Unit
Fits o n t gave_up = Unit
Fits o n t (timed now) = now ≤ t
Fits o n t (absent now) = now ≤ t
Fits o n t (present now etag) = (now ≤ t) × (etag < n)
Fits o n t (expired now etag) = (now ≤ t) × (etag < n) × IsPast o etag now
Fits o n t (holding etag x) = (etag < n) × (IsCurrent o etag x ⊎ (x ≤ t))

-- No two runners hold a guard with one etag.
abbrev AreOwn : (ℕ → Phase) → Type 0
AreOwn f = (i j e x y : ℕ) → f i ≡ holding e x → f j ≡ holding e y → i ≡ j

record IsSafe (s : System) : Type 0 where
  old : IsOld s.object s.next_etag
  fits : (i : ℕ) → Fits s.object s.next_etag s.clock (s.phase i)
  own : AreOwn s.phase

abbrev NotHolding : Phase → Type 0
NotHolding p = (e x : ℕ) → p ≢ holding e x

Fits-become :
    (o : Option Stored) (n t : ℕ) (f : ℕ → Phase) (i : ℕ) (p : Phase)
    → Fits o n t p
    → ((j : ℕ) → i ≢ j → Fits o n t (f j))
    → (j : ℕ) → Fits o n t (become f i p j)
Fits-become o n t f i p new rest j = elim (ℕ_discrete i j) [
  | yes e ↦ subst (Fits o n t) (sym (become_self f p e)) new
  | no ne ↦ subst (Fits o n t) (sym (become_other f p ne)) (rest j ne)
]

AreOwn-become :
    (f : ℕ → Phase) (i : ℕ) (p : Phase) → NotHolding p → AreOwn f → AreOwn (become f i p)
AreOwn-become f i p not_p own a b e x y ha hb = ground (arith, not_p e x, not_p e y, own a b e x y)

IsSafe-goes :
    (s : System) (i : ℕ) (p : Phase)
    → IsSafe s
    → Fits s.object s.next_etag s.clock p
    → NotHolding p
    → IsSafe (goes s i p)
IsSafe-goes s i p safe new not_p = record {
  old = safe.old;
  fits = Fits-become s.object s.next_etag s.clock s.phase i p new (λ j _. safe.fits j);
  own = AreOwn-become s.phase i p not_p safe.own;
}

Fits-tick : (o : Option Stored) (n t t' : ℕ) → t ≤ t' → (p : Phase) → Fits o n t p → Fits o n t' p
Fits-tick o n t t' le idle f = tt
Fits-tick o n t t' le (holding e x) f = ground arith
Fits-tick o n t t' le _ f = ground arith

-- The stored lock, if any, had expired by the time `t`.
abbrev IsOver : Option Stored → ℕ → Type 0
IsOver none t = Unit
IsOver (some o) t = o.lock.expires_at ≤ t

-- A new lock under a new etag.
Fits-write :
    (o : Option Stored) (n t : ℕ) (l : Lock)
    → IsOver o t
    → (p : Phase) → Fits o n t p
    → Fits (some (record { lock = l; etag = n })) (n + 1) t p
Fits-write o n t l over idle f = tt
Fits-write none n t l over (expired now e) f = (f.0, omega arith, λ q. absurd (omega arith))
Fits-write (some o) n t l over (expired now e) f = (f.0, omega arith, λ q. absurd (omega arith))
Fits-write none n t l over (holding e x) f = ground arith
Fits-write (some o) n t l over (holding e x) f = ground arith
Fits-write o n t l over _ f = ground arith

-- The lock goes, and `p` is not its guard.
Fits-release :
    (o : Stored) (n t : ℕ) (p : Phase)
    → ((x : ℕ) → p ≢ holding o.etag x)
    → Fits (some o) n t p
    → Fits none n t p
Fits-release o n t idle other f = tt
Fits-release o n t (holding e x) other f =
    (f.0, elim f.1 [ inl current ↦ absurd (other x (rw current.0 refl)) | inr past ↦ inr past ])
Fits-release o n t (expired now e) other f = (f.0, f.1, tt)
Fits-release o n t _ other f = f

-- A holder's etag has been used.
etag_of_holding :
    (o : Option Stored) (n t : ℕ) (p : Phase) (e x : ℕ) → Fits o n t p → p ≡ holding e x → e < n
etag_of_holding o n t p e x f q = (subst (Fits o n t) q f).0

IsSafe-write :
    (s : System) (i : ℕ) (run_id : _) (now ttl : ℕ)
    → IsSafe s
    → IsOver s.object s.clock
    → IsSafe (write s i run_id now ttl)
IsSafe-write s i run_id now ttl safe over = record {
  old = omega arith;
  fits =
      Fits-become (write s i run_id now ttl).object (s.next_etag + 1) s.clock s.phase i
        (holding s.next_etag (now + ttl)) (omega arith, inl (refl, refl))
        (λ j _.
          Fits-write s.object s.next_etag s.clock (new_lock run_id now ttl) over (s.phase j)
            (safe.fits j));
  own = λ a b e x y ha hb. ground (
    arith,
    safe.own a b e x y,
    etag_of_holding s.object s.next_etag s.clock (s.phase a) e x (safe.fits a),
    etag_of_holding s.object s.next_etag s.clock (s.phase b) e y (safe.fits b),
  );
}

IsSafe-release :
    (s : System) (i x : ℕ) (o : Stored)
    → IsSafe s
    → s.phase i ≡ holding o.etag x
    → s.object ≡ some o
    → IsSafe (record s { object = none; phase = become s.phase i idle })
IsSafe-release s i x o safe held at = record {
  old = tt;
  fits = Fits-become none s.next_etag s.clock s.phase i idle tt (λ j ne.
      Fits-release o s.next_etag s.clock (s.phase j) (λ y q. ne (safe.own i j o.etag x y held q))
        (subst (λ ob. Fits ob s.next_etag s.clock (s.phase j)) at (safe.fits j)));
  own = AreOwn-become s.phase i idle (λ e y. cc) safe.own;
}

-- What the phase of the runner that moves says.
abbrev At : (s : System) → ℕ → Phase → Type 0
At s i p = Fits s.object s.next_etag s.clock p

fits-At : (s : System) (i : ℕ) (p : Phase) → IsSafe s → s.phase i ≡ p → At s i p
fits-At s i p safe e = subst (Fits s.object s.next_etag s.clock) e (safe.fits i)

-- The test on the fetched lock: it passes only if that lock had expired.
Fits-get :
    (ob : Option Stored) (o : Stored) (n t now etag : ℕ)
    → ob ≡ some o
    → now ≤ t
    → etag < n
    → Fits ob n t (if is_held o.lock now then gave_up else expired now etag)
Fits-get ob o n t now etag at le lt = elim (Bool-cases (is_held o.lock now)) [
  | inl held ↦ rw held tt
  | inr free ↦ rw free (le, lt, subst (λ x. IsPast x etag now) (sym at) (λ _. ground arith))
]

NotHolding-if : (b : Bool) (now etag : ℕ) → NotHolding (if b then gave_up else expired now etag)
NotHolding-if true now etag e x q = cc
NotHolding-if false now etag e x q = cc

IsOver-of_none : (ob : Option Stored) (t : ℕ) → ob ≡ none → IsOver ob t
IsOver-of_none ob t e = subst (λ x. IsOver x t) (sym e) tt

IsOver-of_past :
    (ob : Option Stored) (o : Stored) (t now : ℕ)
    → ob ≡ some o
    → now ≤ t
    → IsPast ob o.etag now
    → IsOver ob t
IsOver-of_past ob o t now e le past =
    subst (λ x. IsOver x t) (sym e)
      (let ended : o.lock.expires_at ≤ now = subst (λ x. IsPast x o.etag now) e past refl in
        omega arith)

Step-IsSafe : {s t : System} → Step s t → IsSafe s → IsSafe t
Step-IsSafe (tick s t le) safe = record {
  old = safe.old;
  fits = λ i. Fits-tick s.object s.next_etag s.clock t le (s.phase i) (safe.fits i);
  own = safe.own;
}
Step-IsSafe (read_clock s i e) safe = IsSafe-goes s i _ safe (omega arith) (λ _ _. cc)
Step-IsSafe (head_none s i now e at) safe =
    IsSafe-goes s i _ safe (fits-At s i (timed now) safe e) (λ _ _. cc)
Step-IsSafe (head_some s i now o e at) safe =
    IsSafe-goes s i _ safe
      (fits-At s i (timed now) safe e, subst (λ x. IsOld x s.next_etag) at safe.old) (λ _ _. cc)
Step-IsSafe (get_gone s i now etag e at) safe = IsSafe-goes s i _ safe tt (λ _ _. cc)
Step-IsSafe (get_lock s i now etag o e at) safe =
    let (le, lt) = fits-At s i (present now etag) safe e in
    IsSafe-goes s i _ safe (Fits-get s.object o s.next_etag s.clock now etag at le lt)
      (NotHolding-if (is_held o.lock now) now etag)
Step-IsSafe (create s i now ttl run_id e at) safe =
    IsSafe-write s i run_id now ttl safe (IsOver-of_none s.object s.clock at)
Step-IsSafe (create_refused s i now o e at) safe = IsSafe-goes s i _ safe tt (λ _ _. cc)
Step-IsSafe (swap s i now ttl run_id o e at) safe =
    let (le, lt, past) = fits-At s i (expired now o.etag) safe e in
    IsSafe-write s i run_id now ttl safe (IsOver-of_past s.object o s.clock now at le past)
Step-IsSafe (swap_refused s i now etag e) safe = IsSafe-goes s i _ safe tt (λ _ _. cc)
Step-IsSafe (release s i x o e at) safe = IsSafe-release s i x o safe e at
Step-IsSafe (release_refused s i etag x e) safe = IsSafe-goes s i _ safe tt (λ _ _. cc)

Reach-IsSafe : {c : ℕ} {s : System} → Reach (start c) s → IsSafe s
Reach-IsSafe here = record { old = tt; fits = λ i. tt; own = λ i j e x y. cc }
Reach-IsSafe (next r st) = Step-IsSafe st (Reach-IsSafe r)

IsCurrent-of_live :
    (o : Option Stored) (n t e x : ℕ) → Fits o n t (holding e x) → t < x → IsCurrent o e x
IsCurrent-of_live o n t e x f live = elim f.1 [
  | inl current ↦ current
  | inr past ↦ absurd (omega arith)
]

same_current : (o : Option Stored) (e e' x x' : ℕ) → IsCurrent o e x → IsCurrent o e' x' → e ≡ e'
same_current none e e' x x' c c' = absurd c
same_current (some o) e e' x x' c c' = omega arith

-- In every state that the runners can reach, two that hold guards whose locks have not expired by
-- the clock are one and the same runner.
pub lock_exclusion :
    {c : ℕ} {s : System} (i j e e' x x' : ℕ)
    → Reach (start c) s
    → s.phase i ≡ holding e x
    → s.phase j ≡ holding e' x'
    → s.clock < x
    → s.clock < x'
    → i ≡ j
lock_exclusion {s} i j e e' x x' r hi hj live live' =
    let safe = Reach-IsSafe r in
    let mine = IsCurrent-of_live s.object _ _ e x (fits-At s i _ safe hi) live in
    let yours = IsCurrent-of_live s.object _ _ e' x' (fits-At s j _ safe hj) live' in
    let same : e ≡ e' = same_current s.object e e' x x' mine yours in
    safe.own i j e x x' hi (hj ∙ ap (λ t. holding t x') (sym same))
