-- ===== src/Stores/Git/Shell/Once.antt =====
-- How often src/stores/git_branch.rs makes its clone.
use repossess.Prelude.{Text, Option, none, some, List, ◌≡◌, refl, ap, ◌∙◌}
use repossess.Effect.{Result, ok, total}
use repossess.Effect.Rules.{bind_rule, total_rule, ok_injective}
use repossess.Effect.Keeps.{
  Keeps, Keeps-pure, Keeps-bail, Keeps-if, Keeps-lift, Keeps-bind, Keeps-context,
}
use repossess.Host.{Host}
use repossess.Stores.{SnapshotStore}
use repossess.Stores.Git.Frame.{
  CommandsKeep, fetch_and_reset-Keeps, put_if_unmodified-Keeps, put-Keeps, get-Keeps, head-Keeps,
  delete_if_match-Keeps,
}
use repossess.Stores.Git.Shell.{
  Shell, GitBranchStore, workdir, or_init, init_workdir, git_command, run_git, fetch, current_sha,
  push, status, shell_git,
}
use repossess.Stores.Git.Shell.Listing.{list, branch_store}

module _ (h : Host) (sh : Shell h) (s : GitBranchStore) where
  -- What is put into the cell stays there: commands and files have nothing to do with it.
  pub record IsCell : Type 0 where
    pub set_cell : (dir : Text) (w : h.World) → sh.cell (sh.set_cell dir w) ≡ some dir
    pub output :
        (dir : Option Text) (args : List Text) (o : Option Text)
        → Keeps (λ w. sh.cell w ≡ o) (sh.output dir args)
    pub exists :
        (dir key : Text) (o : Option Text) → Keeps (λ w. sh.cell w ≡ o) (total (sh.exists dir key))
    pub read : (dir key : Text) (o : Option Text) → Keeps (λ w. sh.cell w ≡ o) (sh.read dir key)
    pub write :
        (dir key : Text) (b : h.Bytes) (o : Option Text)
        → Keeps (λ w. sh.cell w ≡ o) (sh.write dir key b)

  -- Whatever the store does, its clone is the one in `dir`: with that in the cell it is found there
  -- without a command, and every operation leaves it there.
  pub record StaysAt (dir : Text) (store : SnapshotStore h) : Type 0 where
    pub again : (w : h.World) → sh.cell w ≡ some dir → workdir h sh s w ≡ (ok dir, w)
    pub put_if_unmodified :
        (k : Text) (b : h.Bytes) (e : Option Text)
        → Keeps (λ w. sh.cell w ≡ some dir) (store.put_if_unmodified k b e)
    pub put : (k : Text) (b : h.Bytes) → Keeps (λ w. sh.cell w ≡ some dir) (store.put k b)
    pub get : (k : Text) → Keeps (λ w. sh.cell w ≡ some dir) (store.get k)
    pub head : (k : Text) → Keeps (λ w. sh.cell w ≡ some dir) (store.head k)
    pub list : (prefix : Text) → Keeps (λ w. sh.cell w ≡ some dir) (store.list prefix)
    pub delete_if_match :
        (k e : Text) → Keeps (λ w. sh.cell w ≡ some dir) (store.delete_if_match k e)

  found_again : (dir : Text) (w : h.World) → sh.cell w ≡ some dir → workdir h sh s w ≡ (ok dir, w)
  unfolding workdir
  found_again dir w e = ap (λ c. or_init h sh s c w) e

  module _ (law : IsCell) (dir : Text) where
    Holds : h.World → Type 0
    Holds w = sh.cell w ≡ some dir

    command-Holds : (d : Text) (args : List Text) → Keeps Holds (git_command h sh s d args)
    unfolding git_command Holds
    command-Holds d args = law.output _ _ _

    run_git-Holds : (d : Text) (args : List Text) → Keeps Holds (run_git h sh s d args)
    unfolding run_git
    run_git-Holds d args =
        Keeps-bind _ _ (Keeps-context _ _ (command-Holds d args))
          λ out. Keeps-if _ _ _ (Keeps-bail _) (Keeps-pure _)

    workdir-Holds : Keeps Holds (workdir h sh s)
    unfolding Holds
    workdir-Holds = record { at = λ w e. ap (λ r. sh.cell r.1) (found_again dir w e) ∙ e }

    fetch-Holds : (d : Text) → Keeps Holds (fetch h sh s d)
    unfolding fetch
    fetch-Holds d = Keeps-bind _ _ (Keeps-context _ _ (command-Holds d _)) λ out. Keeps-pure _

    current_sha-Holds : (d : Text) → Keeps Holds (current_sha h sh s d)
    unfolding current_sha
    current_sha-Holds d =
        Keeps-bind _ _ (Keeps-context _ _ (command-Holds d _))
          λ out. Keeps-if _ _ _ (Keeps-pure _) (Keeps-bind _ _ (Keeps-lift _) λ _. Keeps-pure _)

    push-Holds : (d : Text) (lease : Option Text) → Keeps Holds (push h sh s d lease)
    unfolding push
    push-Holds d lease = Keeps-bind _ _ (Keeps-context _ _ (command-Holds d _)) λ out. Keeps-pure _

    status-Holds : (d : Text) → Keeps Holds (status h sh s d)
    unfolding status
    status-Holds d = Keeps-bind _ _ (command-Holds d _) λ out. Keeps-pure _

    shell_git-Holds : CommandsKeep h (shell_git h sh s) Holds
    unfolding Holds
    shell_git-Holds = record {
      workdir = workdir-Holds;
      fetch = fetch-Holds;
      reset_hard = λ d. run_git-Holds d _;
      rev_parse_head = current_sha-Holds;
      add_all = λ d. run_git-Holds d _;
      status = status-Holds;
      commit = λ d m. run_git-Holds d _;
      push = push-Holds;
      rm = λ d k. run_git-Holds d _;
      exists = λ d k. law.exists d k _;
      read = λ d k. law.read d k _;
      write = λ d k b. law.write d k b _;
    }

    list-Holds : (prefix : Text) → Keeps Holds (list h sh s prefix)
    unfolding list
    list-Holds prefix = Keeps-bind _ _ workdir-Holds λ d.
        Keeps-bind _ _ (fetch_and_reset-Keeps h (shell_git h sh s) Holds shell_git-Holds d) λ found.
          Keeps-if _ _ _ (Keeps-pure _) (
            Keeps-bind _ _ (current_sha-Holds d) λ sha. Keeps-bind _ _ (command-Holds d _) λ out.
              Keeps-if _ _ _ (Keeps-pure _) (Keeps-bind _ _ (Keeps-lift _) λ _. Keeps-pure _))

    stays : StaysAt dir (branch_store h sh s)
    unfolding Holds
    stays = record {
      again = found_again dir;
      put_if_unmodified = put_if_unmodified-Keeps h (shell_git h sh s) Holds shell_git-Holds;
      put = put-Keeps h (shell_git h sh s) Holds shell_git-Holds;
      get = get-Keeps h (shell_git h sh s) Holds shell_git-Holds;
      head = head-Keeps h (shell_git h sh s) Holds shell_git-Holds;
      list = list-Holds;
      delete_if_match = delete_if_match-Keeps h (shell_git h sh s) Holds shell_git-Holds;
    }

  -- If the cell is only set by the store itself, then once the clone has been made, or found in the
  -- cell, its directory is in the cell; every operation of the store, failed or not, leaves it
  -- there; and as long as it is there, the store finds it without running a command.
  pub workdir_once :
      (law : IsCell) (w : h.World) (dir : Text)
      → (workdir h sh s w).0 ≡ ok dir
      → (sh.cell (workdir h sh s w).1 ≡ some dir) × StaysAt dir (branch_store h sh s)
  unfolding workdir
  workdir_once law w dir e = (by_cell (sh.cell w) refl e, stays law dir)
    where
      P : Result Text → h.World → Type 0
      P r u = r ≡ ok dir → sh.cell u ≡ some dir

      by_cell :
          (c : Option Text)
          → sh.cell w ≡ c
          → (or_init h sh s c w).0 ≡ ok dir
          → sh.cell (or_init h sh s c w).1 ≡ some dir
      by_cell (some d) found e = found ∙ ap some (ok_injective e)
      by_cell none missing e =
          bind_rule P _ (init_workdir h sh s) w (λ x _ bad. absurd (cc))
            (λ d _. total_rule P _ _ _ λ q. law.set_cell d _ ∙ ap some (ok_injective q)) e
