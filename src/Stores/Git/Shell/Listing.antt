-- ===== src/Stores/Git/Shell/Listing.antt =====
-- `list` of src/stores/git_branch.rs, and the store with all its methods.
use repossess.Prelude.{
  ℕ, Text, not, ◌&&◌, Option, none, some, List, [], ◌∷◌, codes, map, is_empty, ◌==◌, is_whitespace,
  if◌then◌else◌,
}
use repossess.Effect.{M, lift, pure, ◌>>=◌}
use repossess.Host.{Host}
use repossess.Stores.{ObjectMeta, SnapshotStore}
use repossess.Stores.Git.{fetch_and_reset, git_store}
use repossess.Stores.Git.Shell.{Shell, GitBranchStore, workdir, current_sha, git_command, shell_git}

-- `splitn(2, c)`: up to the first c, and the rest.
unfoldable pub break_at : ℕ → Text → Text × Option Text
break_at c [] = ([], none)
break_at c (d ∷ s) =
    let rest = break_at c s in if d == c then ([], some s) else (d ∷ rest.0, rest.1)

-- `split_whitespace`; the word that is being read is in front.
abbrev words_from : Text → List Text
words_from [] = [] ∷ []
words_from (c ∷ s) =
    let rest = words_from s in
    if is_whitespace c
    then [] ∷ rest
    else elim rest [ [] ↦ (c ∷ []) ∷ [] | word ∷ later ↦ (c ∷ word) ∷ later ]

abbrev non_empty : List Text → List Text
non_empty [] = []
non_empty (word ∷ later) = let rest = non_empty later in if is_empty word then rest else word ∷ rest

unfoldable pub split_whitespace : Text → List Text
unfolding is_whitespace
split_whitespace s = non_empty (words_from s)

-- `str::lines`
abbrev split_lines : Text → List Text
split_lines [] = []
split_lines (c ∷ s) =
    let rest = split_lines s in
    if c == b'\n'
    then [] ∷ rest
    else elim rest [ [] ↦ (c ∷ []) ∷ [] | line ∷ later ↦ (c ∷ line) ∷ later ]

abbrev without_return : Text → Text
without_return [] = []
without_return (c ∷ s) =
    let rest = without_return s in if c == 13 && is_empty s then [] else c ∷ rest

unfoldable pub lines : Text → List Text
lines s = map without_return (split_lines s)

abbrev pub fourth : List Text → Option Text
fourth (a ∷ b ∷ c ∷ d ∷ later) = some d
fourth _ = none

module _ (h : Host) (sh : Shell h) (s : GitBranchStore) where
  abbrev pub or_empty : Option Text → Text
  or_empty none = []
  or_empty (some t) = t

  abbrev pub size_of : Option Text → ℕ
  size_of none = 0
  size_of (some t) = elim (sh.parse_u64 t) [ none ↦ 0 | some n ↦ n ]

  -- A line of `git ls-tree`: the columns, and the path after a tab.
  unfoldable pub meta_of : Text → Text → ObjectMeta
  meta_of sha line =
      let parts = break_at b'\t' line in
      record {
        key = or_empty parts.1;
        etag = sha;
        size = size_of (fourth (split_whitespace parts.0));
      }

  unfoldable pub list : Text → M h.World (List ObjectMeta)
  list prefix = do
    dir ← workdir h sh s
    exists ← fetch_and_reset h (shell_git h sh s) dir
    if not exists then pure [] else (do
      sha ← current_sha h sh s dir
      out ←
          git_command h sh s dir
            (codes "ls-tree" ∷ codes "-r" ∷ codes "--long" ∷ codes "HEAD" ∷ prefix ∷ [])
      if not out.success
          then pure []
          else (do stdout ← lift out.stdout; pure (map (meta_of (or_empty sha)) (lines stdout))))

  -- `impl SnapshotStore for GitBranchStore`
  abbrev pub branch_store : SnapshotStore h
  branch_store = git_store h (shell_git h sh s) s.name list
