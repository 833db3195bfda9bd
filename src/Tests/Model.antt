-- ===== src/Tests/Model.antt =====
-- A concrete host, and a store in its memory: bytes are texts, a key is a number, the clock goes on
-- by one whenever it is read, and every write gets a new etag.
use repossess.Prelude.{
  ℕ, zero, suc, ◌+◌, ◌*◌, Text, codes, Bool, true, false, Option, none, some, [], ◌∷◌, ◌++◌, length,
  take, ◌==◌, text_eq, if◌then◌else◌,
}
use repossess.Effect.{M, Result, ok, err, message}
use repossess.Host.{Host}
use repossess.Stores.{PutResult, SnapshotStore}
use repossess.Stores.Contract.{Object, View}
use repossess.Tests.Codec

pub record Memory : Type 0 where
  pub clock : ℕ
  pub env : Text → Option Text
  pub objects : Text → Option (Text × Text)
  pub next_etag : ℕ
  pub requests : ℕ

abbrev pub init : Text → Text
init [] = []
init (c ∷ []) = []
init (c ∷ d ∷ t) = c ∷ init (d ∷ t)

-- A byte string between two letters.
abbrev pub quote : Text → Text
quote b = b'x' ∷ (b ++ b'x' ∷ [])

abbrev pub unquote : Text → Result Text
unquote [] = err (message [])
unquote (c ∷ t) = ok (init t)

abbrev total_of : Text → ℕ
total_of [] = 0
total_of (c ∷ t) = c + total_of t

abbrev zeros : ℕ → Text
zeros zero = []
zeros (suc n) = 0 ∷ zeros n

abbrev pub sign : ℕ → Text → Text
sign k d = k ∷ total_of d ∷ zeros 62

abbrev pub unseal : ℕ → Text → Result Text
unseal i [] = err (message (codes "no matching keys"))
unseal i (c ∷ d) = if c == i then ok d else err (message (codes "no matching keys"))

abbrev pub unzip : Text → Result Text
unzip [] = err (message (codes "unknown frame"))
unzip (c ∷ d) = ok d

abbrev head_of : Text → Option ℕ
head_of [] = none
head_of (c ∷ t) = some c

abbrev pub host : Host
host = record {
  World = Memory;
  Bytes = Text;
  F64 = ℕ;
  Recipient = ℕ;
  Identity = ℕ;
  SigningKey = ℕ;
  VerifyingKey = ℕ;
  now = λ w. (w.clock, record w { clock = w.clock + 1 });
  format_ts = λ n. n ∷ [];
  duration_from_std = λ s. ok (s * 1000000000);
  var = λ w k. w.env k;
  remove_var = λ k w. record w { env = λ j. if text_eq k j then none else w.env j };
  read_to_string = λ path w. (ok path, w);
  f64_eq = λ a b. a == b;
  len = length;
  utf8 = λ t. t;
  from_utf8 = λ b. ok b;
  sha256 = λ b. take 4 b;
  hex_encode = quote;
  hex_decode = unquote;
  ed_sign = sign;
  ed_verify = λ v d s. text_eq s (sign v d);
  age_encrypt = λ r d w. (ok (r ∷ d), w);
  age_decrypt = unseal;
  age_recipient_of_str = head_of;
  age_identity_of_str = head_of;
  signing_key_of_bytes = λ b. length b;
  verifying_key_of_bytes = head_of;
  zstd_encode = λ level d. ok (level ∷ d);
  zstd_decode = unzip;
  pointer_json = Codec.serde Codec.pointer;
  lock_json = Codec.serde Codec.lock;
  health_json = Codec.serde Codec.health;
  state_json = Codec.serde Codec.state;
  index_json = Codec.serde Codec.index;
}

abbrev pub object_of : Option (Text × Text) → Option (Object host)
object_of none = none
object_of (some p) = some (record { body = p.0; etag = p.1 })

abbrev pub view : View host
view w k = object_of (w.objects k)

-- A write of the object at a key, or its removal.
abbrev pub put_at : Text → Option (Text × Text) → Memory → Memory
put_at k o w = record w {
  objects = λ j. if text_eq k j then o else w.objects j;
  next_etag = w.next_etag + 1;
}

abbrev pub written : Text → Text → M Memory PutResult
written k b w = (ok (record { etag = w.next_etag ∷ [] }), put_at k (some (b, w.next_etag ∷ [])) w)

abbrev pub etag_at : Option (Text × Text) → Option Text
etag_at none = none
etag_at (some p) = some p.1

abbrev pub same_etag : Option Text → Option Text → Bool
same_etag none none = true
same_etag none (some e) = false
same_etag (some d) none = false
same_etag (some d) (some e) = text_eq d e

abbrev pub found : Option (Text × Text) → Result (Text × Text)
found none = err (message (codes "no such key"))
found (some p) = ok p

abbrev pub refused : {A : Type 0} → Result A
refused = err (message (codes "precondition failed"))

abbrev pub memory_store : SnapshotStore host
memory_store = record {
  name = codes "memory";
  put_if_unmodified =
      λ k b e w. if same_etag (etag_at (w.objects k)) e then written k b w else (refused, w);
  put = written;
  get = λ k w. (found (w.objects k), w);
  head = λ k w. (ok (etag_at (w.objects k)), w);
  list = λ prefix w. (ok [], w);
  delete_if_match = λ k e w.
      if same_etag (etag_at (w.objects k)) (some e) then (ok tt, put_at k none w) else (refused, w);
}

abbrev pub empty_memory : Memory
empty_memory = record {
  clock = 7;
  env = λ _. none;
  objects = λ _. none;
  next_etag = 0;
  requests = 0;
}
