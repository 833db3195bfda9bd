-- ===== src/Stores/Git.antt =====
-- src/stores/git_branch.rs: a store on a branch of a git repository. The etag of every key is the
-- commit at the head of the branch. The git commands and the files of the clone are parameters.
pub mod Lease
pub mod Head
pub mod Frame
pub mod Shell
use repossess.Prelude.{
  List, ℕ, Text, Bool, true, false, Option, none, some, codes, ◌++◌, is_empty, text_eq, contains,
  starts_with, if◌then◌else◌, not, ◌||◌,
}
use repossess.Effect.{
  M, Report, Result, ok, err, ok_or, ensure, message, pure, bail, lift, total, ◌>>=◌, ◌>>◌,
}
use repossess.Host.{Host}
use repossess.Stores.{PutResult, ObjectMeta, SnapshotStore}

-- What the store runs in its clone; a Boolean result is the success of a command's status.
pub record Git (h : Host) : Type 1 where
  pub Dir : Type 0
  pub workdir : M h.World Dir
  pub fetch : Dir → M h.World Bool
  pub reset_hard : Dir → M h.World (Unit {0})
  pub rev_parse_head : Dir → M h.World (Option Text)
  pub add_all : Dir → M h.World (Unit {0})
  pub status : Dir → M h.World Text
  pub commit : Dir → Text → M h.World (Unit {0})
  pub push : Dir → (force_with_lease : Option Text) → M h.World Bool
  pub rm : Dir → Text → M h.World (Unit {0})
  pub exists : Dir → Text → h.World → Bool × h.World
  pub read : Dir → Text → M h.World h.Bytes
  -- `create_dir_all` of the parent, and `std::fs::write`.
  pub write : Dir → Text → h.Bytes → M h.World (Unit {0})

module _ (h : Host) (git : Git h) where
  unfoldable pub fetch_and_reset : git.Dir → M h.World Bool
  fetch_and_reset dir = do
    fetched ← git.fetch dir
    if not fetched then pure false else (do git.reset_hard dir; pure true)

  unfoldable pub commit_and_push : git.Dir → Text → Option Text → M h.World Text
  commit_and_push dir msg force_with_lease = do
    git.add_all dir
    st ← git.status dir
    if is_empty st
        then (do
          sha ← git.rev_parse_head dir
          lift (ok_or sha (message (codes "no changes and no HEAD"))))
        else (do
          git.commit dir msg
          pushed ← git.push dir force_with_lease
          if not pushed then bail (message (codes "git push failed (CAS or auth)")) else (do
            sha ← git.rev_parse_head dir
            lift (ok_or sha (message (codes "post-push HEAD missing")))))

  -- The path itself is the key, under the directory.
  unfoldable pub safe_path : Text → Result (Unit {0})
  safe_path key =
      if contains (codes "..") key || starts_with (codes "/") key
      then err (message (codes "git_branch: invalid key " ++ key))
      else ok tt

  -- `match (expected_etag, current.as_deref(), target.exists())`
  unfoldable pub precondition : Option Text → Option Text → Bool → Result (Unit {0})
  precondition none current true = err (message (codes "git_branch: create-only on existing key"))
  precondition none current false = ok tt
  precondition (some etag) none exists =
      err (message (codes "git_branch: branch is empty, no etag to match"))
  precondition (some etag) (some cur) exists =
      ensure (text_eq etag cur) (message (codes "git_branch: etag mismatch"))

  abbrev pub verb : Option Text → Text
  verb none = codes "create"
  verb (some e) = codes "update"

  unfoldable pub put_if_unmodified : Text → h.Bytes → Option Text → M h.World PutResult
  put_if_unmodified key body expected_etag = do
    dir ← git.workdir
    fetch_and_reset dir
    current ← git.rev_parse_head dir
    lift (safe_path key)
    present ← total (git.exists dir key)
    lift (precondition expected_etag current present)
    git.write dir key body
    new_sha ←
        commit_and_push dir (codes "repossess: " ++ (verb expected_etag ++ (codes " " ++ key)))
          current
    pure (record { etag = new_sha })

  unfoldable pub put : Text → h.Bytes → M h.World PutResult
  put key body = do
    dir ← git.workdir
    fetch_and_reset dir
    lift (safe_path key)
    git.write dir key body
    prev ← git.rev_parse_head dir
    new_sha ← commit_and_push dir (codes "repossess: put " ++ key) prev
    pure (record { etag = new_sha })

  unfoldable pub get : Text → M h.World (h.Bytes × Text)
  get key = do
    dir ← git.workdir
    fetch_and_reset dir
    lift (safe_path key)
    bytes ← git.read dir key
    sha ← git.rev_parse_head dir
    etag ← lift (ok_or sha (message (codes "git_branch get: no HEAD")))
    pure (bytes, etag)

  unfoldable pub head : Text → M h.World (Option Text)
  head key = do
    dir ← git.workdir
    fetched ← fetch_and_reset dir
    if not fetched then pure none else (do
      lift (safe_path key)
      present ← total (git.exists dir key)
      if not present then pure none else git.rev_parse_head dir)

  unfoldable pub delete_if_match : Text → Text → M h.World (Unit {0})
  delete_if_match key etag = do
    dir ← git.workdir
    fetch_and_reset dir
    sha ← git.rev_parse_head dir
    current ← lift (ok_or sha (message (codes "git_branch delete: no HEAD")))
    if not (text_eq current etag)
        then bail (message (codes "git_branch delete: etag mismatch"))
        else (do
          lift (safe_path key)
          present ← total (git.exists dir key)
          if not present then pure tt else (do
            git.rm dir key
            commit_and_push dir (codes "repossess: delete " ++ key) (some current)
            pure tt))

  -- `impl SnapshotStore for GitBranchStore`, but for `list`, which is a parameter.
  abbrev pub git_store : Text → (Text → M h.World (List ObjectMeta)) → SnapshotStore h
  git_store name list = record {
    name = name;
    put_if_unmodified = put_if_unmodified;
    put = put;
    get = get;
    head = head;
    list = list;
    delete_if_match = delete_if_match;
  }
