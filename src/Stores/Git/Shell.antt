-- ===== src/Stores/Git/Shell.antt =====
-- The git commands behind src/stores/git_branch.rs: the clone, which is made once, the commands that
-- Stores/Git uses, and in Shell/Listing the listing. Running a process and making a directory are parameters.
pub mod Once
pub mod Listing
use repossess.Prelude.{
  ℕ, Text, Bool, true, false, not, ◌&&◌, Option, none, some, List, [], ◌∷◌, ◌++◌, codes, map,
  is_empty, strip_prefix, trim, ◌==◌, is_whitespace, ◌≡◌, refl, sym, ap, ◌∙◌, if◌then◌else◌,
}
use repossess.Effect.{
  M, Report, Result, ok, err, message, ok_or, with_context, lift, pure, bail, total, ◌>>=◌, ◌>>◌,
}
use repossess.Host.{Host}
use repossess.Stores.{ObjectMeta, SnapshotStore}
use repossess.Stores.Git.{Git, fetch_and_reset, git_store}

-- The status of a finished command, what it wrote if it is UTF-8, and its complaints.
pub record Output : Type 0 where
  pub success : Bool
  pub stdout : Result Text
  pub no_output : Bool
  pub stderr : Text

-- A directory is its path.
pub record Shell (h : Host) : Type 0 where
  pub tempdir : M h.World Text
  pub create_dir_all : Text → M h.World (Unit {0})
  pub output : (dir : Option Text) (args : List Text) → M h.World Output
  -- The `OnceCell` of the store.
  pub cell : h.World → Option Text
  pub set_cell : Text → h.World → h.World
  pub exists : (dir key : Text) → h.World → Bool × h.World
  pub read : (dir key : Text) → M h.World h.Bytes
  pub write : (dir key : Text) → h.Bytes → M h.World (Unit {0})
  pub show_args : List Text → Text
  pub parse_u64 : Text → Option ℕ

pub record GitBranchStore : Type 0 where
  pub name : Text
  pub repo_url : Text
  pub branch : Text
  pub token : Text

abbrev pub with_token : GitBranchStore → Option Text → Text
with_token s none = s.repo_url
with_token s (some rest) = codes "https://x-access-token:" ++ (s.token ++ (codes "@" ++ rest))

-- The token is only put into an https URL.
unfoldable pub auth_url : GitBranchStore → Text
auth_url s = with_token s (strip_prefix (codes "https://") s.repo_url)

abbrev pub unsigned : List Text
unsigned = codes "-c" ∷ codes "commit.gpgsign=false" ∷ codes "-c" ∷ codes "tag.gpgsign=false" ∷ []

module _ (h : Host) (sh : Shell h) (s : GitBranchStore) where
  unfoldable pub git_command : Text → List Text → M h.World Output
  git_command dir args = sh.output (some dir) (unsigned ++ args)

  unfoldable pub run_git : Text → List Text → M h.World (Unit {0})
  run_git dir args = do
    out ← with_context (codes "spawn git " ++ sh.show_args args) (git_command dir args)
    if not out.success
        then bail (
            message (codes "git " ++ (sh.show_args args ++ (codes " failed: " ++ trim out.stderr))))
        else pure tt

  unfoldable pub configure_identity : Text → M h.World (Unit {0})
  configure_identity dir = do
    run_git dir (codes "config" ∷ codes "user.email" ∷ codes "repossess@invalid" ∷ [])
    run_git dir (codes "config" ∷ codes "user.name" ∷ codes "repossess" ∷ [])

  unfoldable pub try_clone : Text → M h.World (Unit {0})
  try_clone dir = do
    out ← with_context (codes "spawn git clone") (
        sh.output none (
          unsigned
          ++ (codes "clone"
              ∷ codes "--branch"
              ∷ s.branch
              ∷ codes "--single-branch"
              ∷ codes "--depth"
              ∷ codes "1"
              ∷ auth_url s
              ∷ dir
              ∷ [])))
    if not out.success
        then bail (message (codes "git clone failed: " ++ trim out.stderr))
        else configure_identity dir

  unfoldable pub init_orphan : Text → M h.World (Unit {0})
  init_orphan dir = do
    sh.create_dir_all dir
    run_git dir (codes "init" ∷ codes "--initial-branch" ∷ s.branch ∷ [])
    run_git dir (codes "remote" ∷ codes "add" ∷ codes "origin" ∷ auth_url s ∷ [])
    configure_identity dir

  abbrev pub or_orphan : Text → Result (Unit {0}) → M h.World Text
  or_orphan dir (ok done) = pure dir
  or_orphan dir (err e) = init_orphan dir >> pure dir

  unfoldable pub init_workdir : M h.World Text
  init_workdir = do
    dir ← with_context (codes "create tempdir for git_branch workdir") sh.tempdir
    cloned ← total (try_clone dir)
    or_orphan dir cloned

  -- `get_or_try_init`: a failure leaves the cell empty.
  abbrev pub or_init : Option Text → M h.World Text
  or_init (some dir) = pure dir
  or_init none = do dir ← init_workdir; total (λ w. (tt, sh.set_cell dir w)); pure dir

  unfoldable pub workdir : M h.World Text
  workdir w = or_init (sh.cell w) w

  unfoldable pub fetch : Text → M h.World Bool
  fetch dir = do
    out ←
        with_context (codes "git fetch")
          (git_command dir (codes "fetch" ∷ codes "origin" ∷ s.branch ∷ []))
    pure out.success

  -- No commit yet is no error.
  unfoldable pub current_sha : Text → M h.World (Option Text)
  current_sha dir = do
    out ←
        with_context (codes "git rev-parse HEAD")
          (git_command dir (codes "rev-parse" ∷ codes "HEAD" ∷ []))
    if not out.success then pure none else (do stdout ← lift out.stdout; pure (some (trim stdout)))

  abbrev pub push_args : Option Text → List Text
  push_args (some prev_sha) =
      codes "push"
      ∷ (codes "--force-with-lease=" ++ (s.branch ++ (codes ":" ++ prev_sha)))
      ∷ codes "origin"
      ∷ s.branch
      ∷ []
  push_args none = codes "push" ∷ codes "--set-upstream" ∷ codes "origin" ∷ s.branch ∷ []

  unfoldable pub push : Text → Option Text → M h.World Bool
  push dir lease = do
    out ← with_context (codes "git push") (git_command dir (push_args lease))
    pure out.success

  -- Whether `git status --porcelain` prints anything, as a text that is empty or not.
  unfoldable pub status : Text → M h.World Text
  status dir = do
    out ← git_command dir (codes "status" ∷ codes "--porcelain" ∷ [])
    pure (if out.no_output then [] else codes "changes")

  -- What the operations of the store run in their clone.
  abbrev pub shell_git : Git h
  shell_git = record {
    Dir = Text;
    workdir = workdir;
    fetch = fetch;
    reset_hard =
        λ dir. run_git dir (codes "reset" ∷ codes "--hard" ∷ (codes "origin/" ++ s.branch) ∷ []);
    rev_parse_head = current_sha;
    add_all = λ dir. run_git dir (codes "add" ∷ codes "-A" ∷ []);
    status = status;
    commit = λ dir msg. run_git dir (codes "commit" ∷ codes "-m" ∷ msg ∷ []);
    push = push;
    rm = λ dir key. run_git dir (codes "rm" ∷ key ∷ []);
    exists = sh.exists;
    read = sh.read;
    write = sh.write;
  }
