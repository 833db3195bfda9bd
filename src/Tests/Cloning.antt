-- ===== src/Tests/Cloning.antt =====
-- A concrete shell in which every command succeeds, and the texts of a listing.
use repossess.Prelude.{
  Text, codes, true, false, Option, none, some, [], ◌∷◌, ◌≡◌, refl, text_eq, strip_prefix,
}
use repossess.Effect.{ok, ◌>>=◌}
use repossess.Stores.Git.Shell.{
  Shell, Output, GitBranchStore, workdir, init_workdir, try_clone, configure_identity, run_git,
  git_command, auth_url,
}
use repossess.Stores.Git.Shell.Listing.{lines, split_whitespace, break_at, meta_of, branch_store}
use repossess.Stores.Git.Shell.Once.{IsCell, StaysAt, workdir_once}
use repossess.Tests.Model.{host, put_at, empty_memory}

abbrev done : Output
done = record { success = true; stdout = ok []; no_output = true; stderr = [] }

abbrev body_of : Option (Text × Text) → Option Text
body_of none = none
body_of (some p) = some p.0

abbrev shell : Shell host
shell = record {
  tempdir = λ w. (ok (codes "/tmp/clone"), w);
  create_dir_all = λ dir w. (ok tt, w);
  output = λ dir args w. (ok done, w);
  cell = λ w. body_of (w.objects (codes "CELL"));
  set_cell = λ dir w. put_at (codes "CELL") (some (dir, [])) w;
  exists = λ dir key w. (false, w);
  read = λ dir key w. (ok [], w);
  write = λ dir key b w. (ok tt, w);
  show_args = λ args. [];
  parse_u64 = λ t. some 12;
}

abbrev branch : GitBranchStore
branch = record {
  name = codes "git";
  repo_url = codes "https://example.org/o/r";
  branch = codes "state";
  token = codes "t";
}

shell_cell : IsCell host shell branch
unfolding text_eq
shell_cell = record {
  set_cell = λ dir w. refl;
  output = λ dir args o. record { at = λ w e. e };
  exists = λ dir key o. record { at = λ w e. e };
  read = λ dir key o. record { at = λ w e. e };
  write = λ dir key b o. record { at = λ w e. e };
}

clones : (workdir host shell branch empty_memory).0 ≡ ok (codes "/tmp/clone")
unfolding workdir init_workdir try_clone configure_identity run_git git_command auth_url ◌>>=◌
clones = refl

workdir_once_example :
    (shell.cell (workdir host shell branch empty_memory).1 ≡ some (codes "/tmp/clone"))
    × StaysAt host shell branch (codes "/tmp/clone") (branch_store host shell branch)
workdir_once_example =
    workdir_once host shell branch shell_cell empty_memory (codes "/tmp/clone") clones

token_in_url : auth_url branch ≡ codes "https://x-access-token:t@example.org/o/r"
unfolding auth_url strip_prefix
token_in_url = refl

one_line :
    lines (codes "100644 blob abc 12\tlatest.json\n") ≡ codes "100644 blob abc 12\tlatest.json" ∷ []
unfolding lines
one_line = refl

listed :
    meta_of host shell branch (codes "c0") (codes "100644 blob abc 12\tlatest.json")
    ≡ record { key = codes "latest.json"; etag = codes "c0"; size = 12 }
unfolding meta_of break_at split_whitespace
listed = refl
