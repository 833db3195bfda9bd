-- ===== src/Lock.antt =====
-- src/lock.rs: the single-writer lock, an object that is written by compare-and-swap.
pub mod Holding
pub mod Runners
use repossess.Prelude.{ℕ, ◌+◌, Text, Bool, Option, none, some, ltb, if◌then◌else◌}
use repossess.Effect.{M, pure, bail, lift, total, lock_held, ◌>>=◌, ◌>>◌}
use repossess.Data.{Lock}
use repossess.Host.{Host}
use repossess.Snapshot.{lock_key}
use repossess.Stores.{PutResult, SnapshotStore}

-- prev.expires_at > now
abbrev pub is_held : Lock → ℕ → Bool
is_held prev now = ltb now prev.expires_at

abbrev pub new_lock : Text → ℕ → ℕ → Lock
new_lock run_id now ttl = record { run_id = run_id; created_at = now; expires_at = now + ttl }

module _ (h : Host) (store : SnapshotStore h) where
  -- `match existing_etag { … }`
  unfoldable pub put_lock : ℕ → h.Bytes → Option Text → M h.World PutResult
  put_lock now body none = store.put_if_unmodified lock_key body none
  put_lock now body (some etag) = do
    (existing_body, _) ← store.get lock_key
    prev ← lift (h.lock_json.from_slice existing_body)
    if is_held prev now
        then bail (lock_held prev.run_id prev.expires_at now)
        else store.put_if_unmodified lock_key body (some etag)

  -- The guard is the etag under which the lock was written.
  unfoldable pub acquire : Text → ℕ → M h.World Text
  acquire run_id ttl = do
    now ← total h.now
    lifetime ← lift (h.duration_from_std ttl)
    body ← lift (h.lock_json.to_vec (new_lock run_id now lifetime))
    existing_etag ← store.head lock_key
    written ← put_lock now body existing_etag
    pure written.etag

  abbrev pub release : Text → M h.World (Unit {0})
  release etag = store.delete_if_match lock_key etag
