-- ===== src/Tests/Repository.antt =====
-- A concrete git repository in the memory: the branch of the remote, what the clone tracks and the
-- head of the clone are kept under three keys.
use repossess.Prelude.{
  Text, codes, Bool, true, false, Option, none, some, [], ◌∷◌, ◌≡◌, ◌⊎◌, inl, inr, refl, ◌∙◌,
  if◌then◌else◌, text_eq, contains,
}
use repossess.Effect.{Report, Result, ok, err, ◌>>=◌}
use repossess.Effect.Rules.{ok_injective}
use repossess.Crypto.{compress}
use repossess.Stores.{PutResult, SnapshotStore}
use repossess.Stores.Git.{
  Git, fetch_and_reset, commit_and_push, safe_path, put, put_if_unmodified, git_store,
}
use repossess.Stores.Git.Lease.{IsRemote, put_if_unmodified-IsCas}
use repossess.Stores.Git.Head.{IsGit, IsReachable, git-IsHeadEtag}
use repossess.Commands.Save.Heads.{IsHeadEtag, upload, save_fails}
use repossess.Commands.Save.{save, object_key, sig_key}
use repossess.Tests.Model.{Memory, host, put_at, etag_at, same_etag, empty_memory}
use repossess.Tests.Laws.{eq_of_same_etag}
use repossess.Tests.Codec
use repossess.Tests.Examples.{session, first_pointer}

abbrev remote : Memory → Option Text
remote w = etag_at (w.objects (codes "HEAD"))

abbrev local : Memory → Option Text
local w = etag_at (w.objects (codes "LOCAL"))

abbrev tracking : Memory → Option Text
tracking w = etag_at (w.objects (codes "TRACK"))

abbrev fetched : Option (Text × Text) → Memory → Result Bool × Memory
fetched none w = (ok false, put_at (codes "LOCAL") none w)
fetched (some p) w = (ok true, put_at (codes "TRACK") (some p) w)

abbrev pushed : Option Text → Memory → Result Bool × Memory
pushed lease w =
    if same_etag (remote w) lease
    then (ok true, put_at (codes "HEAD") (w.objects (codes "LOCAL")) w)
    else (ok false, w)

abbrev repository : Git host
repository = record {
  Dir = Unit;
  workdir = λ w. (ok tt, w);
  fetch = λ d w. fetched (w.objects (codes "HEAD")) w;
  reset_hard = λ d w. (ok tt, put_at (codes "LOCAL") (w.objects (codes "TRACK")) w);
  rev_parse_head = λ d w. (ok (local w), w);
  add_all = λ d w. (ok tt, w);
  status = λ d w. (ok (codes "M"), w);
  commit = λ d m w. (ok tt, put_at (codes "LOCAL") (some ([], w.next_etag ∷ [])) w);
  push = λ d lease w. pushed lease w;
  rm = λ d k w. (ok tt, w);
  exists = λ d k w. (false, w);
  read = λ d k w. (ok [], w);
  write = λ d k b w. (ok tt, w);
}

pushed_from :
    (b : Bool) (w u : Memory) (lease : Text)
    → same_etag (remote w) (some lease) ≡ b
    → (remote (if◌then◌else◌ {A = Result Bool × Memory} b (ok true, u) (ok false, w)).1 ≡ remote w)
      ⊎ (remote w ≡ some lease)
pushed_from true w u lease e = inr (eq_of_same_etag _ _ e)
pushed_from false w u lease e = inl refl

after_fetch_remote : (o : Option (Text × Text)) (w : Memory) → remote (fetched o w).1 ≡ remote w
unfolding text_eq
after_fetch_remote none w = refl
after_fetch_remote (some p) w = refl

repository-IsRemote : IsRemote host repository remote
unfolding text_eq
repository-IsRemote = record {
  workdir = λ o. record { at = λ w e. e };
  fetch = λ d o. record { at = λ w e. after_fetch_remote _ w ∙ e };
  reset_hard = λ d o. record { at = λ w e. e };
  rev_parse_head = λ d o. record { at = λ w e. e };
  add_all = λ d o. record { at = λ w e. e };
  status = λ d o. record { at = λ w e. e };
  commit = λ d m o. record { at = λ w e. e };
  rm = λ d k o. record { at = λ w e. e };
  exists = λ d k o. record { at = λ w e. e };
  write = λ d k b o. record { at = λ w e. e };
  push = λ d lease w. pushed_from _ w _ lease refl;
}

pushed_true :
    (b : Bool) (w : Memory)
    → (if◌then◌else◌ {A = Result Bool × Memory} b
        (ok true, put_at (codes "HEAD") (w.objects (codes "LOCAL")) w)
        (ok false, w)).0
      ≡ ok true
    → (remote
          (if◌then◌else◌ {A = Result Bool × Memory} b
            (ok true, put_at (codes "HEAD") (w.objects (codes "LOCAL")) w)
            (ok false, w)).1
        ≡ local w)
      × (local
            (if◌then◌else◌ {A = Result Bool × Memory} b
              (ok true, put_at (codes "HEAD") (w.objects (codes "LOCAL")) w)
              (ok false, w)).1
          ≡ local w)
unfolding text_eq
pushed_true true w e = (refl, refl)
pushed_true false w e = absurd (cc)

-- The same, with a remote that has the branch.
abbrev hosted : Git host
hosted = record repository {
  fetch = λ d w. (ok true, put_at (codes "TRACK") (w.objects (codes "HEAD")) w);
}

hosted-IsGit : IsGit host hosted local remote tracking
unfolding text_eq
hosted-IsGit = record {
  workdir_remote = λ w. refl;
  rev_parse_head = λ d w. (refl, refl);
  add_all = λ d w. (refl, refl);
  status = λ d w. (refl, refl);
  exists = λ d k w. (refl, refl);
  write = λ d k b w. (refl, refl);
  fetch_remote = λ d w. refl;
  fetch_true = λ d w e. refl;
  reset_remote = λ d w. refl;
  reset_ok = λ d w e. refl;
  rev_parse_ok = λ d w sha e. ok_injective e;
  push_true = λ d lease w e. pushed_true _ w e;
}

hosted-IsReachable : IsReachable host hosted local remote tracking
hosted-IsReachable d w e = absurd (cc)

abbrev with_head : Memory
with_head = put_at (codes "HEAD") (some ([], codes "c0")) empty_memory

put_if_unmodified-IsCas_example :
    (remote
        (put_if_unmodified host repository (codes "latest.json") [] (some (codes "c0")) with_head).1
      ≡ remote with_head)
    ⊎ (remote with_head ≡ some (codes "c0"))
put_if_unmodified-IsCas_example =
    put_if_unmodified-IsCas host repository remote repository-IsRemote (codes "latest.json") []
      (codes "c0") with_head

abbrev git_on : SnapshotStore host
git_on = git_store host hosted (codes "git") (λ prefix w. (ok [], w))

git-IsHeadEtag_example : IsHeadEtag host remote git_on
git-IsHeadEtag_example =
    git-IsHeadEtag host hosted local remote tracking hosted-IsGit hosted-IsReachable (codes "git")
      (λ prefix w. (ok [], w))

git_on-IsHeadEtag : IsHeadEtag host remote git_on
git_on-IsHeadEtag =
    git-IsHeadEtag host hosted local remote tracking hosted-IsGit hosted-IsReachable (codes "git")
      (λ prefix w. (ok [], w))

-- The second commit of the uploads.
abbrev second : PutResult
second = record { etag = 7 ∷ [] }

abbrev encrypted : Text
encrypted = 5 ∷ 3 ∷ Codec.state.put session []

packed_ok : compress host session ≡ ok (3 ∷ Codec.state.put session [])
unfolding compress
packed_ok = refl

uploaded_ok : (upload host git_on 3 encrypted with_head).0 ≡ ok second
unfolding put fetch_and_reset commit_and_push safe_path object_key sig_key text_eq contains ◌>>=◌
uploaded_ok = refl

save_fails_example :
    (e : Report) × ((save host git_on [] 5 3 session first_pointer (codes "c0") with_head).0
      ≡ err e)
save_fails_example =
    save_fails host remote git_on [] git_on-IsHeadEtag 5 3 session first_pointer (codes "c0")
      (3 ∷ Codec.state.put session []) encrypted second with_head packed_ok refl uploaded_ok
      (λ e. absurd (cc))
