-- ===== src/Stores/Build.antt =====
-- `build_store` of src/stores/mod.rs: open a store of the configuration with credentials that are
-- taken out of the environment. The constructors of the three backends are parameters.
use repossess.Prelude.{Text, List, [], ◌∷◌, ◌++◌, codes}
use repossess.Effect.{
  M, Result, ok, err, ok_or, message, with_context, lift, total, pure, ◌>>=◌, ◌>>◌,
}
use repossess.Host.{Host}
use repossess.Config.{StoreCfg, s3, github_release, git_branch}
use repossess.Secrets.{take_credential}
use repossess.Stores.{SnapshotStore}

-- `S3Store::new`, `GithubReleaseStore::new` and `GitBranchStore::new`.
pub record Backends (h : Host) : Type 0 where
  pub s3_store :
      (name endpoint region bucket prefix access_key secret_key : Text)
      → M h.World (SnapshotStore h)
  pub github_release_store : (name repo token : Text) → Result (SnapshotStore h)
  pub git_branch_store : (name repo_url branch token : Text) → Result (SnapshotStore h)

module _ (h : Host) (backends : Backends h) where
  -- The token of the two backends that have only one.
  unfoldable pub take_token : Text → Text → M h.World Text
  take_token name token_env = do
    raw ← λ w. (
      ok_or (h.var w token_env) (
          message (
            codes "store "
            ++ (name ++ (codes ": env var " ++ (token_env ++ codes " is not set"))))),
      w,
    )
    total (λ w. (tt, h.remove_var token_env w))
    pure raw

  unfoldable pub build_store : StoreCfg → M h.World (SnapshotStore h)
  build_store (s3 name endpoint region bucket prefix access_key_env secret_key_env) = do
    creds ←
        with_context (codes "store " ++ (name ++ codes ": read credentials"))
          (take_credential h access_key_env secret_key_env)
    backends.s3_store name endpoint region bucket prefix creds.0 creds.1
  build_store (github_release name repo token_env) = do
    raw ← take_token name token_env
    lift (backends.github_release_store name repo raw)
  build_store (git_branch name repo_url branch token_env) = do
    raw ← take_token name token_env
    lift (backends.git_branch_store name repo_url branch raw)

  add_mirror : Result (SnapshotStore h) → List (SnapshotStore h) → List (SnapshotStore h)
  add_mirror (ok s) mirrors = s ∷ mirrors
  add_mirror (err e) mirrors = mirrors

  -- The loop over the mirrors, the same in every command: one that cannot be opened is skipped.
  unfoldable pub open_mirrors : List StoreCfg → h.World → List (SnapshotStore h) × h.World
  unfolding add_mirror
  open_mirrors [] w = ([], w)
  open_mirrors (cfg ∷ rest) w =
      let opened = build_store cfg w in
      let others = open_mirrors rest opened.1 in (add_mirror opened.0 others.0, others.1)
