-- ===== src/Stores/S3.antt =====
-- src/stores/s3.rs: a store on a bucket, over the operations of the AWS SDK, which are parameters.
pub mod Refines
use repossess.Prelude.{ℕ, zero, Text, Option, none, some, List, [], map, codes, ◌++◌}
use repossess.Effect.{M, Report, Result, ok, err, context, with_context, pure, ◌>>=◌, ◌>>◌}
use repossess.Host.{Host}
use repossess.Stores.{PutResult, ObjectMeta, SnapshotStore}

-- The precondition headers of a PutObject.
pub data Precondition : Type 0 where
  unconditional if_none_match : Precondition
  if_match : (etag : Text) → Precondition

-- A HeadObject: found, with its `e_tag()`; the service error NotFound; or any other error.
pub data HeadOutcome : Type 0 where
  found : (e_tag : Option Text) → HeadOutcome
  not_found : HeadOutcome
  failed : Report → HeadOutcome

-- An entry of a ListObjectsV2.
pub record S3Object : Type 0 where
  pub key : Option Text
  pub e_tag : Option Text
  pub size : Option ℕ

-- `aws_sdk_s3::Client`; a body is streamed by `collect`.
pub record S3Client (h : Host) : Type 1 where
  pub Body : Type 0
  pub put_object : (bucket key : Text) → h.Bytes → Precondition → M h.World (Option Text)
  pub get_object : (bucket key : Text) → M h.World (Option Text × Body)
  pub collect : Body → M h.World h.Bytes
  pub head_object : (bucket key : Text) → h.World → HeadOutcome × h.World
  pub list_objects_v2 : (bucket prefix : Text) → M h.World (List S3Object)
  pub delete_object : (bucket key : Text) → (if_match : Text) → M h.World (Unit {0})

pub record S3Store : Type 0 where
  pub name : Text
  pub endpoint : Text
  pub region : Text
  pub bucket : Text
  pub prefix : Text

-- `.unwrap_or_default()`
abbrev pub or_empty : Option Text → Text
or_empty none = []
or_empty (some t) = t

abbrev pub or_zero : Option ℕ → ℕ
or_zero none = 0
or_zero (some n) = n

module _ (h : Host) (client : S3Client h) (s : S3Store) where
  unfoldable pub full_key : Text → Text
  full_key key = s.prefix ++ key

  abbrev pub precondition_of : Option Text → Precondition
  precondition_of none = if_none_match
  precondition_of (some etag) = if_match etag

  unfoldable pub put_if_unmodified : Text → h.Bytes → Option Text → M h.World PutResult
  put_if_unmodified key body expected_etag = do
    e_tag ←
        with_context (codes "s3 put_if_unmodified failed")
          (client.put_object s.bucket (full_key key) body (precondition_of expected_etag))
    pure (record { etag = or_empty e_tag })

  unfoldable pub put : Text → h.Bytes → M h.World PutResult
  put key body = do
    e_tag ←
        with_context (codes "s3 put failed")
          (client.put_object s.bucket (full_key key) body unconditional)
    pure (record { etag = or_empty e_tag })

  unfoldable pub get : Text → M h.World (h.Bytes × Text)
  get key = do
    (e_tag, stream) ←
        with_context (codes "s3 get failed") (client.get_object s.bucket (full_key key))
    body ← client.collect stream
    pure (body, or_empty e_tag)

  abbrev pub on_head : HeadOutcome → Result (Option Text)
  on_head (found e_tag) = ok (some (or_empty e_tag))
  on_head not_found = ok none
  on_head (failed e) = err (context (codes "s3 head failed") e)

  unfoldable pub head : Text → M h.World (Option Text)
  head key w =
      let answer = client.head_object s.bucket (full_key key) w in (on_head answer.0, answer.1)

  abbrev pub meta_of : S3Object → ObjectMeta
  meta_of o = record { key = or_empty o.key; etag = or_empty o.e_tag; size = or_zero o.size }

  -- Only the first page of a listing is read.
  unfoldable pub list : Text → M h.World (List ObjectMeta)
  list prefix = do
    contents ←
        with_context (codes "s3 list failed") (client.list_objects_v2 s.bucket (s.prefix ++ prefix))
    pure (map meta_of contents)

  unfoldable pub delete_if_match : Text → Text → M h.World (Unit {0})
  delete_if_match key etag =
      with_context (codes "s3 delete failed") (client.delete_object s.bucket (full_key key) etag)

  -- `impl SnapshotStore for S3Store`
  abbrev pub s3_store : SnapshotStore h
  s3_store = record {
    name = s.name;
    put_if_unmodified = put_if_unmodified;
    put = put;
    get = get;
    head = head;
    list = list;
    delete_if_match = delete_if_match;
  }
