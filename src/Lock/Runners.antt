-- ===== src/Lock/Runners.antt =====
-- Any number of runners that call `acquire` and `release` of src/lock.rs on one store: their calls
-- of the store interleave, and a step relation says what each does next. The runners read one clock,
-- which never goes back; every write of the lock object gets an etag that was never used before.
pub mod Exclusion
use repossess.Prelude.{
  ℕ, ◌+◌, ◌≤◌, ◌==◌, Text, Bool, true, false, Option, none, some, ◌≡◌, if◌then◌else◌,
}
use repossess.Data.{Lock}
use repossess.Lock.{is_held, new_lock}

-- The stored lock with its etag.
pub record Stored : Type 0 where
  pub lock : Lock
  pub etag : ℕ

-- Where a runner is in `acquire`: before it, after `Utc::now()`, after `head` found an etag or
-- found nothing, after the test on the fetched lock passed; then with the guard, or given up.
pub data Phase : Type 0 where
  idle gave_up : Phase
  timed : ℕ → Phase
  absent : ℕ → Phase
  present : ℕ → ℕ → Phase
  expired : ℕ → ℕ → Phase
  holding : (etag expires_at : ℕ) → Phase

pub record System : Type 0 where
  pub object : Option Stored
  pub next_etag : ℕ
  pub clock : ℕ
  pub phase : ℕ → Phase

abbrev pub become : (ℕ → Phase) → ℕ → Phase → ℕ → Phase
become f i p j = if i == j then p else f j

-- The write of a new lock by runner `i`, after which it holds the guard.
abbrev pub write : System → ℕ → Text → ℕ → ℕ → System
write s i run_id now ttl = record s {
  object = some (record { lock = new_lock run_id now ttl; etag = s.next_etag });
  next_etag = s.next_etag + 1;
  phase = become s.phase i (holding s.next_etag (now + ttl));
}

abbrev pub goes : System → ℕ → Phase → System
goes s i p = record s { phase = become s.phase i p }

pub data Step : System → System → Type 0 where
  tick : (s : System) (t : ℕ) → s.clock ≤ t → Step s (record s { clock = t })
  read_clock : (s : System) (i : ℕ) → s.phase i ≡ idle → Step s (goes s i (timed s.clock))
  head_none :
      (s : System) (i now : ℕ)
      → s.phase i ≡ timed now
      → s.object ≡ none
      → Step s (goes s i (absent now))
  head_some :
      (s : System) (i now : ℕ) (o : Stored)
      → s.phase i ≡ timed now
      → s.object ≡ some o
      → Step s (goes s i (present now o.etag))
  get_gone :
      (s : System) (i now etag : ℕ)
      → s.phase i ≡ present now etag
      → s.object ≡ none
      → Step s (goes s i gave_up)
  get_lock :
      (s : System) (i now etag : ℕ) (o : Stored)
      → s.phase i ≡ present now etag
      → s.object ≡ some o
      → Step s (goes s i (if is_held o.lock now then gave_up else expired now etag))
  create :
      (s : System) (i now ttl : ℕ) (run_id : Text)
      → s.phase i ≡ absent now
      → s.object ≡ none
      → Step s (write s i run_id now ttl)
  create_refused :
      (s : System) (i now : ℕ) (o : Stored)
      → s.phase i ≡ absent now
      → s.object ≡ some o
      → Step s (goes s i gave_up)
  swap :
      (s : System) (i now ttl : ℕ) (run_id : Text) (o : Stored)
      → s.phase i ≡ expired now o.etag
      → s.object ≡ some o
      → Step s (write s i run_id now ttl)
  swap_refused :
      (s : System) (i now etag : ℕ) → s.phase i ≡ expired now etag → Step s (goes s i gave_up)
  release :
      (s : System) (i expires_at : ℕ) (o : Stored)
      → s.phase i ≡ holding o.etag expires_at
      → s.object ≡ some o
      → Step s (record s { object = none; phase = become s.phase i idle })
  release_refused :
      (s : System) (i etag expires_at : ℕ)
      → s.phase i ≡ holding etag expires_at
      → Step s (goes s i idle)

pub data Reach (s : System) : System → Type 0 where
  here : Reach s s
  next : {t u : System} → Reach s t → Step t u → Reach s u

-- No lock, and no runner under way.
abbrev pub start : ℕ → System
start clock = record { object = none; next_etag = 0; clock = clock; phase = λ _. idle }
