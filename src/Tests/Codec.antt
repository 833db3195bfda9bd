-- ===== src/Tests/Codec.antt =====
-- Concrete encodings into lists of numbers, to instantiate the parsers and printers of the model.
use repossess.Prelude.{
  ℕ, zero, suc, Text, Bool, true, false, Option, none, some, List, [], ◌∷◌, length, ◌≡◌, refl, ap,
  subst, ◌==◌,
}
use repossess.Effect.{Result, ok, err, message}
use repossess.Effect.Rules.{ok_injective}
use repossess.Data.{
  SnapshotFormat, storage_state_v1, user_data_dir_v1, LatestPointer, Lock, HealthStatus,
  HealthRecord, StoredCookie, Kv, Origin, StorageState, ChatsIndexEntry, ChatsIndex,
}
use repossess.Host.{Serde}
use repossess.Host.Laws.{IsRoundTrip}

pub record Codec (A : Type 0) : Type 0 where
  pub put : A → Text → Text
  pub get : Text → Option (A × Text)
  pub get-put : (a : A) (rest : Text) → get (put a rest) ≡ some (a, rest)

abbrev pub nat : Codec ℕ
nat = record {
  put = λ n rest. n ∷ rest;
  get = λ t. elim t [ [] ↦ none | n ∷ rest ↦ some (n, rest) ];
  get-put = λ n rest. refl;
}

module _ {A B : Type 0} (a : Codec A) (b : Codec B) where
  abbrev get_second : Option (A × Text) → Option ((A × B) × Text)
  get_second none = none
  get_second (some p) = elim (b.get p.1) [ none ↦ none | some q ↦ some ((p.0, q.0), q.1) ]

  abbrev pub pair : Codec (A × B)
  pair = record {
    put = λ p rest. a.put p.0 (b.put p.1 rest);
    get = λ t. get_second (a.get t);
    get-put =
        λ p rest. rw (a.get-put p.0 (b.put p.1 rest)) (rw (b.get-put p.1 rest, get_second) refl);
  }

-- Through a pair of functions.
module _ {A B : Type 0} (a : Codec A) (to : A → B) (from : B → A)
    (same : (y : B) → to (from y) ≡ y) where
  abbrev get_via : Option (A × Text) → Option (B × Text)
  get_via none = none
  get_via (some p) = some (to p.0, p.1)

  abbrev pub via : Codec B
  via = record {
    put = λ y rest. a.put (from y) rest;
    get = λ t. get_via (a.get t);
    get-put = λ y rest. rw (a.get-put (from y) rest) (ap (λ z. some (z, rest)) (same y));
  }

module _ {A : Type 0} (a : Codec A) where
  abbrev put_all : List A → Text → Text
  put_all [] rest = rest
  put_all (x ∷ xs) rest = a.put x (put_all xs rest)

  abbrev get_tail : (Text → Option (List A × Text)) → Option (A × Text) → Option (List A × Text)
  get_tail more none = none
  get_tail more (some p) = elim (more p.1) [ none ↦ none | some q ↦ some (p.0 ∷ q.0, q.1) ]

  abbrev get_all : ℕ → Text → Option (List A × Text)
  get_all zero t = some ([], t)
  get_all (suc n) t = get_tail (get_all n) (a.get t)

  pub get_all-put_all :
      (xs : List A) (rest : Text) → get_all (length xs) (put_all xs rest) ≡ some (xs, rest)
  get_all-put_all [] rest = refl
  get_all-put_all (x ∷ xs) rest = rw (a.get-put x (put_all xs rest)) (rw (get_all-put_all xs rest))

  abbrev pub list : Codec (List A)
  list = record {
    put = λ xs rest. length xs ∷ put_all xs rest;
    get = λ t. elim t [ [] ↦ none | n ∷ rest ↦ get_all n rest ];
    get-put = get_all-put_all;
  }

  abbrev to_option : List A → Option A
  to_option [] = none
  to_option (x ∷ xs) = some x

  abbrev from_option : Option A → List A
  from_option none = []
  from_option (some x) = x ∷ []

  pub to_option-from_option : (o : Option A) → to_option (from_option o) ≡ o
  to_option-from_option none = refl
  to_option-from_option (some x) = refl

  abbrev pub option : Codec (Option A)
  option = via list to_option from_option to_option-from_option

  -- A whole byte string.
  abbrev whole : Option (A × Text) → Result A
  whole none = err (message [])
  whole (some p) = elim p.1 [ [] ↦ ok p.0 | c ∷ rest ↦ err (message []) ]

  abbrev pub serde : Serde Text A
  serde = record { to_vec = λ x. ok (a.put x []); from_slice = λ t. whole (a.get t) }

  pub serde-IsRoundTrip : IsRoundTrip serde
  serde-IsRoundTrip x b e =
      subst (λ t. whole (a.get t) ≡ ok x) (ok_injective e) (rw (a.get-put x []))

abbrev pub text : Codec Text
text = list nat

abbrev bool_of : ℕ → Bool
bool_of n = n == 1

abbrev of_bool : Bool → ℕ
of_bool true = 1
of_bool false = 0

pub bool_of-of_bool : (b : Bool) → bool_of (of_bool b) ≡ b
bool_of-of_bool true = refl
bool_of-of_bool false = refl

abbrev pub bool : Codec Bool
bool = via nat bool_of of_bool bool_of-of_bool

abbrev format_of : Bool → SnapshotFormat
format_of true = storage_state_v1
format_of false = user_data_dir_v1

abbrev of_format : SnapshotFormat → Bool
of_format storage_state_v1 = true
of_format user_data_dir_v1 = false

pub format_of-of_format : (f : SnapshotFormat) → format_of (of_format f) ≡ f
format_of-of_format storage_state_v1 = refl
format_of-of_format user_data_dir_v1 = refl

abbrev pub format : Codec SnapshotFormat
format = via bool format_of of_format format_of-of_format

abbrev pub pointer : Codec LatestPointer
pointer =
    via (pair text (pair text (pair text (pair text (pair nat format)))))
      (λ p. record {
        version = p.0;
        object = p.1.0;
        object_sha256 = p.1.1.0;
        signature_object = p.1.1.1.0;
        created_at = p.1.1.1.1.0;
        format = p.1.1.1.1.1;
      })
      (λ r.
        (r.version, (r.object, (r.object_sha256, (r.signature_object, (r.created_at, r.format))))))
      (λ r. refl)

abbrev pub lock : Codec Lock
lock =
    via (pair text (pair nat nat))
      (λ p. record { run_id = p.0; created_at = p.1.0; expires_at = p.1.1 })
      (λ r. (r.run_id, (r.created_at, r.expires_at))) (λ r. refl)

abbrev cookie : Codec (StoredCookie ℕ)
cookie =
    via
      (pair text (
        pair text
          (pair text (pair text (pair (option nat) (pair bool (pair bool (option text))))))))
      (λ p. record {
        name = p.0;
        value = p.1.0;
        domain = p.1.1.0;
        path = p.1.1.1.0;
        expires = p.1.1.1.1.0;
        http_only = p.1.1.1.1.1.0;
        secure = p.1.1.1.1.1.1.0;
        same_site = p.1.1.1.1.1.1.1;
      })
      (λ r. (
        r.name,
        (r.value, (r.domain, (r.path, (r.expires, (r.http_only, (r.secure, r.same_site)))))),
      ))
      (λ r. refl)

abbrev kv : Codec Kv
kv =
    via (pair text text) (λ p. record { name = p.0; value = p.1 }) (λ r. (r.name, r.value))
      (λ r. refl)

abbrev origin : Codec Origin
origin =
    via (pair text (list kv)) (λ p. record { origin = p.0; local_storage = p.1 })
      (λ r. (r.origin, r.local_storage)) (λ r. refl)

abbrev pub state : Codec (StorageState ℕ)
state =
    via (pair (list cookie) (list origin)) (λ p. record { cookies = p.0; origins = p.1 })
      (λ r. (r.cookies, r.origins)) (λ r. refl)

abbrev entry : Codec (ChatsIndexEntry ℕ)
entry =
    via (pair (option nat) (pair (option text) (pair text (pair text (pair nat nat)))))
      (λ p. record {
        update_time = p.0;
        title = p.1.0;
        object_key = p.1.1.0;
        sha256 = p.1.1.1.0;
        bytes = p.1.1.1.1.0;
        stored_at = p.1.1.1.1.1;
      })
      (λ r. (r.update_time, (r.title, (r.object_key, (r.sha256, (r.bytes, r.stored_at))))))
      (λ r. refl)

abbrev pub index : Codec (ChatsIndex ℕ)
index =
    via (pair nat (pair nat (list (pair text entry))))
      (λ p. record { schema_version = p.0; updated_at = p.1.0; entries = p.1.1 })
      (λ r. (r.schema_version, (r.updated_at, r.entries))) (λ r. refl)

abbrev status_of : ℕ → HealthStatus
status_of zero = HealthStatus.ok
status_of (suc zero) = HealthStatus.canary_failed
status_of (suc (suc n)) = HealthStatus.error

abbrev of_status : HealthStatus → ℕ
of_status HealthStatus.ok = 0
of_status HealthStatus.canary_failed = 1
of_status HealthStatus.error = 2

pub status_of-of_status : (s : HealthStatus) → status_of (of_status s) ≡ s
status_of-of_status HealthStatus.ok = refl
status_of-of_status HealthStatus.canary_failed = refl
status_of-of_status HealthStatus.error = refl

abbrev status : Codec HealthStatus
status = via nat status_of of_status status_of-of_status

abbrev pub health : Codec HealthRecord
health =
    via
      (pair text (
        pair nat (
          pair nat (
            pair status
              (pair (option text) (pair (option nat) (pair (option text) (option text))))))))
      (λ p. record {
        run_id = p.0;
        started_at = p.1.0;
        ended_at = p.1.1.0;
        status = p.1.1.1.0;
        snapshot_version = p.1.1.1.1.0;
        canary_status = p.1.1.1.1.1.0;
        canary_observed = p.1.1.1.1.1.1.0;
        error = p.1.1.1.1.1.1.1;
      })
      (λ r. (
        r.run_id,
        (
          r.started_at,
          (
            r.ended_at,
            (r.status, (r.snapshot_version, (r.canary_status, (r.canary_observed, r.error)))),
          ),
        ),
      ))
      (λ r. refl)
