-- ===== src/Stores/Github/MirrorOnly.antt =====
-- A store of src/stores/github_release.rs in the place of the primary.
use repossess.Prelude.{ℕ, Text, Bool, true, false, Option, none, some, List, ◌≢◌, if◌then◌else◌}
use repossess.Effect.{Report, ok, bail}
use repossess.Effect.Rules.{ok_of_bind, ok_of_context}
use repossess.Data.{LatestPointer, StorageState}
use repossess.Host.{Host}
use repossess.Stores.{PutResult, SnapshotStore}
use repossess.Stores.Github.{Http, GithubReleaseStore, put_if_unmodified, github_store}
use repossess.Lock.{acquire, put_lock, is_held}
use repossess.Commands.Save.{save, save_at}
use repossess.Commands.Seed.{publish_at}

module _ (h : Host) (http : Http h) (s : GithubReleaseStore) (fuel : ℕ) where
  abbrev store : SnapshotStore h
  store = github_store h http s fuel

  refused :
      (key : Text) (b : h.Bytes) (etag : Option Text) (w : h.World) (r : PutResult)
      → (put_if_unmodified h http s fuel key b etag w).0 ≢ ok r
  unfolding put_if_unmodified
  refused key b etag w r e = absurd (cc)

  put_lock_refused :
      (now : ℕ) (b : h.Bytes) (etag : Option Text) (w : h.World) (r : PutResult)
      → (put_lock h store now b etag w).0 ≢ ok r
  unfolding put_lock
  put_lock_refused now b none w r e = refused _ b none w r e
  put_lock_refused now b (some etag) w r e =
      let (_, _, e1) = ok_of_bind _ _ w e in
      let (prev, _, e2) = ok_of_bind _ _ _ e1 in by_test (is_held prev now) _ _ _ e2
    where
      by_test :
          (held : Bool) (x : Report) (key : Text) (u : h.World)
          → ((if held then bail x else put_if_unmodified h http s fuel key b (some etag)) u).0
            ≢ ok r
      by_test true x key u q = absurd (cc)
      by_test false x key u q = refused _ b (some etag) u r q

  -- With a GitHub release store as the primary no lock can be taken and no snapshot can be saved,
  -- by a run or by a seed, whatever GitHub answers.
  pub store_refuses :
      (mirrors : List (SnapshotStore h)) (w : h.World)
      → ((run_id : Text) (ttl : ℕ) (etag : Text) → (acquire h store run_id ttl w).0 ≢ ok etag)
        × ((recipient : h.Recipient) (k : h.SigningKey) (state : StorageState h.F64)
              (prev : LatestPointer) (etag version : Text)
            → (save h store mirrors recipient k state prev etag w).0 ≢ ok version)
        × ((k : h.SigningKey) (ciphertext : h.Bytes) (now : ℕ) (version : Text)
            → (publish_at h store mirrors k ciphertext now w).0 ≢ ok version)
  unfolding acquire save save_at publish_at
  store_refuses mirrors w = (no_lock, no_save, no_seed)
    where
      no_lock : (run_id : Text) (ttl : ℕ) (etag : Text) → (acquire h store run_id ttl w).0 ≢ ok etag
      no_lock run_id ttl etag e =
          let (now, _, e1) = ok_of_bind _ _ w e in
          let (lifetime, _, e2) = ok_of_bind _ _ _ e1 in
          let (body, _, e3) = ok_of_bind _ _ _ e2 in
          let (existing, _, e4) = ok_of_bind _ _ _ e3 in
          let (r, put, _) = ok_of_bind _ _ _ e4 in put_lock_refused now body existing _ r put

      no_save :
          (recipient : h.Recipient) (k : h.SigningKey) (state : StorageState h.F64)
          (prev : LatestPointer) (etag version : Text)
          → (save h store mirrors recipient k state prev etag w).0 ≢ ok version
      no_save recipient k state prev etag version e =
          let (_, _, e1) = ok_of_bind _ _ w e in
          let (_, _, e2) = ok_of_bind _ _ _ e1 in
          let (_, _, e3) = ok_of_bind _ _ _ e2 in
          let (_, _, e4) = ok_of_bind _ _ _ e3 in
          let (_, _, e5) = ok_of_bind _ _ _ e4 in
          let (_, _, e6) = ok_of_bind _ _ _ e5 in
          let (pb, _, e7) = ok_of_bind _ _ _ e6 in
          let (r, cas, _) = ok_of_bind _ _ _ e7 in
          refused _ pb (some etag) _ r (ok_of_context _ _ cas)

      no_seed :
          (k : h.SigningKey) (ciphertext : h.Bytes) (now : ℕ) (version : Text)
          → (publish_at h store mirrors k ciphertext now w).0 ≢ ok version
      no_seed k ciphertext now version e =
          let (_, _, e1) = ok_of_bind _ _ w e in
          let (_, _, e2) = ok_of_bind _ _ _ e1 in
          let (pb, _, e3) = ok_of_bind _ _ _ e2 in
          let (existing, _, e4) = ok_of_bind _ _ _ e3 in
          let (r, cas, _) = ok_of_bind _ _ _ e4 in refused _ pb existing _ r (ok_of_context _ _ cas)
