-- ===== src/Stores/Opened.antt =====
-- The three backends as `build_store` of src/stores/mod.rs opens them.
use repossess.Prelude.{ℕ, Text}
use repossess.Effect.{Result, ok, err}
use repossess.Host.{Host}
use repossess.Stores.{SnapshotStore}
use repossess.Stores.Build.{Backends}
use repossess.Stores.S3.{S3Client, s3_store}
use repossess.Stores.Github.{Http, GithubReleaseStore, new, github_store}
use repossess.Stores.Git.Shell.{Shell}
use repossess.Stores.Git.Shell.Listing.{branch_store}

module _ (h : Host)
    (client : (endpoint region access_key secret_key : Text) → h.World → S3Client h × h.World)
    (http : Http h) (fuel : ℕ) (sh : Shell h) where
  abbrev pub opened : Result GithubReleaseStore → Result (SnapshotStore h)
  opened (err e) = err e
  opened (ok s) = ok (github_store h http s fuel)

  -- `client` is the AWS SDK: the client of an endpoint, a region and credentials.
  unfoldable pub backends : Backends h
  backends = record {
    s3_store = λ name endpoint region bucket prefix access_key secret_key w.
        let made = client endpoint region access_key secret_key w in
        (
          ok (
              s3_store h made.0 (record {
                name = name;
                endpoint = endpoint;
                region = region;
                bucket = bucket;
                prefix = prefix;
              })),
          made.1,
        );
    github_release_store = λ name repo token. opened (new name repo token);
    git_branch_store = λ name repo_url branch token. ok (
        branch_store h sh
          (record { name = name; repo_url = repo_url; branch = branch; token = token }));
  }
