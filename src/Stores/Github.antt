-- ===== src/Stores/Github.antt =====
-- src/stores/github_release.rs: a mirror whose objects are assets of four GitHub releases. The HTTP
-- client, serde_json at `Release` and `Asset`, and urlencoding are parameters. The pages of
-- `list_assets` are read on fuel, a number of pages.
pub mod Routes
pub mod Pages
pub mod MirrorOnly
use repossess.Prelude.{
  ℕ, zero, suc, ◌+◌, Text, Bool, true, false, not, ◌&&◌, Option, none, some, List, [], ◌∷◌, ◌++◌,
  codes, length, map, ltb, leb, ◌==◌, text_eq, starts_with, strip_prefix, if◌then◌else◌,
}
use repossess.Effect.{
  M, Report, Result, ok, err, message, ok_or, with_context, lift, pure, bail, total, ◌>>=◌, ◌>>◌,
}
use repossess.Host.{Host}
use repossess.Stores.{PutResult, ObjectMeta, SnapshotStore}
use repossess.Chats.Client.{is_success}

-- `Release`, of which only the id is read.
pub record Release : Type 0 where
  pub id : ℕ

pub record Asset : Type 0 where
  pub id : ℕ
  pub name : Text
  pub size : ℕ

-- What a request carries: nothing, the JSON that creates the release of a tag, or bytes.
pub data Payload (Bytes : Type 0) : Type 0 where
  nothing : Payload Bytes
  create : (tag : Text) → Payload Bytes
  octets : Bytes → Payload Bytes

pub record Http (h : Host) : Type 1 where
  pub Response : Type 0
  pub status : Response → ℕ
  pub send :
      (method url : Text) (headers : List (Text × Text)) (payload : Payload h.Bytes)
      → M h.World Response
  pub release_of : Response → M h.World Release
  pub assets_of : Response → M h.World (List Asset)
  pub asset_of : Response → M h.World Asset
  pub bytes_of : Response → M h.World h.Bytes
  -- `text().await.unwrap_or_default()`
  pub text_of : Response → h.World → Text × h.World
  -- `urlencoding::encode`
  pub encode : Text → Text
  pub show : ℕ → Text

pub record GithubReleaseStore : Type 0 where
  pub name : Text
  pub owner : Text
  pub repo : Text
  pub token : Text

-- `split_once('/')`
unfoldable pub split_slash : Text → Option (Text × Text)
split_slash [] = none
split_slash (c ∷ s) =
    let rest = split_slash s in
    if c == b'/' then some ([], s) else elim rest [ none ↦ none | some p ↦ some (c ∷ p.0, p.1) ]

-- The fields of a new store; its client only has a user agent.
unfoldable pub new : (name repo token : Text) → Result GithubReleaseStore
new name repo token = elim (split_slash repo) [
  | none ↦ err (message (codes "expected owner/name, got " ++ repo))
  | some p ↦ ok (record { name = name; owner = p.0; repo = p.1; token = token })
]

-- `replace('/', "_")`
unfoldable pub underscored : Text → Text
underscored [] = []
underscored (c ∷ s) = (if c == b'/' then b'_' else c) ∷ underscored s

abbrev pub routed : Option Text → Option Text → Text → Text × Text
routed (some rest) health key = (codes "repossess-snapshots", rest)
routed none (some rest) key = (codes "repossess-health", rest)
routed none none key = (codes "repossess-misc", underscored key)

-- The tag of the release, and the name of the asset.
unfoldable pub route : Text → Text × Text
route key =
    if text_eq key (codes "latest.json")
    then (codes "repossess-latest", codes "latest.json")
    else routed (strip_prefix (codes "snapshots/") key) (strip_prefix (codes "health/") key) key

-- `find(|a| a.name == asset_name)`
abbrev pub find : List Asset → Text → Option Asset
find [] name = none
find (a ∷ assets) name = if text_eq a.name name then some a else find assets name

module _ (h : Host) (http : Http h) (s : GithubReleaseStore) where
  abbrev pub headers : Text → List (Text × Text)
  headers accept =
      (codes "Accept", accept)
      ∷ (codes "X-GitHub-Api-Version", codes "2022-11-28")
      ∷ (codes "Authorization", codes "Bearer " ++ s.token)
      ∷ []

  abbrev pub json_headers : List (Text × Text)
  json_headers = headers (codes "application/vnd.github+json")

  -- A URL of the repository, on one of the two hosts.
  abbrev pub repo_url : Text → Text → Text
  repo_url base path = base ++ (codes "/repos/" ++ (s.owner ++ (codes "/" ++ (s.repo ++ path))))

  abbrev pub api : Text → Text
  api path = repo_url (codes "https://api.github.com") path

  -- `bail!` with the status and the body.
  refuse : {A : Type 0} → Text → http.Response → M h.World A
  refuse what res = do
    body ← total (http.text_of res)
    bail (
        message (
          what ++ (codes ": status " ++ (http.show (http.status res) ++ (codes " body " ++ body)))))

  unfoldable pub release_by_tag : Text → M h.World (Option Release)
  unfolding refuse
  release_by_tag tag = do
    res ←
        with_context (codes "GET release by tag")
          (http.send (codes "GET") (api (codes "/releases/tags/" ++ tag)) json_headers nothing)
    if http.status res == 200
        then (do release ← http.release_of res; pure (some release))
        else if http.status res == 404
        then pure none
        else refuse (codes "release by tag " ++ tag) res

  unfoldable pub or_created : Text → Option Release → M h.World Release
  unfolding refuse
  or_created tag (some release) = pure release
  or_created tag none = do
    res ←
        with_context (codes "POST create release")
          (http.send (codes "POST") (api (codes "/releases")) json_headers (create tag))
    if not (is_success (http.status res))
        then refuse (codes "create release " ++ tag) res
        else http.release_of res

  unfoldable pub ensure_release : Text → M h.World Release
  ensure_release tag = do found ← release_by_tag tag; or_created tag found

  -- One page of a hundred assets, which are numbered from 1.
  unfoldable pub list_page : ℕ → ℕ → M h.World (List Asset)
  list_page release_id page = do
    res ← with_context (codes "GET assets") (
        http.send (codes "GET")
          (api (
            codes "/releases/"
            ++ (http.show release_id ++ (codes "/assets?per_page=100&page=" ++ http.show page))))
          json_headers nothing)
    if not (is_success (http.status res))
        then bail (message (codes "list assets: status " ++ http.show (http.status res)))
        else http.assets_of res

  unfoldable pub list_from : ℕ → ℕ → ℕ → M h.World (List Asset)
  list_from zero release_id page = bail (message (codes "out of fuel"))
  list_from (suc fuel) release_id page = do
    batch ← list_page release_id page
    if ltb (length batch) 100
        then pure batch
        else (do more ← list_from fuel release_id (page + 1); pure (batch ++ more))

  module _ (fuel : ℕ) where
    unfoldable pub list_assets : ℕ → M h.World (List Asset)
    list_assets release_id = list_from fuel release_id 1

    unfoldable pub delete_asset : ℕ → M h.World (Unit {0})
    delete_asset asset_id = do
      res ← with_context (codes "DELETE asset") (
          http.send (codes "DELETE") (api (codes "/releases/assets/" ++ http.show asset_id))
            json_headers nothing)
      if not (is_success (http.status res))
          then bail (
              message (
                codes "delete asset "
                ++ (http.show asset_id ++ (codes ": status " ++ http.show (http.status res)))))
          else pure tt

    unfoldable pub upload_asset : ℕ → Text → h.Bytes → M h.World Asset
    unfolding refuse
    upload_asset release_id name body = do
      res ← with_context (codes "POST upload asset") (
          http.send (codes "POST")
            (repo_url (codes "https://uploads.github.com") (
              codes "/releases/"
              ++ (http.show release_id ++ (codes "/assets?name=" ++ http.encode name))))
            (json_headers ++ ((codes "Content-Type", codes "application/octet-stream") ∷ []))
            (octets body))
      if not (is_success (http.status res))
          then refuse (codes "upload asset " ++ name) res
          else http.asset_of res

    unfoldable pub download_asset : ℕ → M h.World h.Bytes
    download_asset asset_id = do
      res ← with_context (codes "GET asset bytes") (
          http.send (codes "GET") (api (codes "/releases/assets/" ++ http.show asset_id))
            (headers (codes "application/octet-stream")) nothing)
      if not (is_success (http.status res))
          then bail (
              message (
                codes "download asset "
                ++ (http.show asset_id ++ (codes ": status " ++ http.show (http.status res)))))
          else http.bytes_of res

    unfoldable pub put_if_unmodified : Text → h.Bytes → Option Text → M h.World PutResult
    put_if_unmodified key body expected_etag =
        bail (message (codes "github_release: CAS writes not supported; configure as mirror only"))

    -- The assets that have the name already are dropped.
    unfoldable pub drop_named : Text → List Asset → M h.World (Unit {0})
    drop_named name [] = pure tt
    drop_named name (a ∷ assets) =
        let rest = drop_named name assets in
        if text_eq a.name name then (delete_asset a.id >> rest) else rest

    unfoldable pub put : Text → h.Bytes → M h.World PutResult
    put key body = do
      release ← ensure_release (route key).0
      assets ← list_assets release.id
      drop_named (route key).1 assets
      asset ← upload_asset release.id (route key).1 body
      pure (record { etag = http.show asset.id })

    unfoldable pub get : Text → M h.World (h.Bytes × Text)
    get key = do
      found ← release_by_tag (route key).0
      release ← lift (
          ok_or found
            (message (codes "github_release: release " ++ ((route key).0 ++ codes " not found"))))
      assets ← list_assets release.id
      asset ← lift (
          ok_or (find assets (route key).1) (
            message (
              codes "github_release: asset "
              ++ ((route key).1 ++ (codes " not found in " ++ (route key).0)))))
      bytes ← download_asset asset.id
      pure (bytes, http.show asset.id)

    abbrev pub etag_of : Option Asset → Option Text
    etag_of none = none
    etag_of (some a) = some (http.show a.id)

    abbrev pub head_in : Text → Option Release → M h.World (Option Text)
    head_in name none = pure none
    head_in name (some release) = do
      assets ← list_assets release.id
      pure (etag_of (find assets name))

    unfoldable pub head : Text → M h.World (Option Text)
    head key = do found ← release_by_tag (route key).0; head_in (route key).1 found

    -- The keys of a listing are the names of the assets.
    abbrev pub metas : Text → List Asset → List ObjectMeta
    metas prefix [] = []
    metas prefix (a ∷ assets) =
        let rest = metas prefix assets in
        if starts_with prefix a.name
        then record { key = a.name; etag = http.show a.id; size = a.size } ∷ rest
        else rest

    abbrev pub list_in : Text → Option Release → M h.World (List ObjectMeta)
    list_in prefix none = pure []
    list_in prefix (some release) = do assets ← list_assets release.id; pure (metas prefix assets)

    unfoldable pub list : Text → M h.World (List ObjectMeta)
    list prefix = do found ← release_by_tag (route prefix).0; list_in (route prefix).1 found

    abbrev pub delete_found : Text → Option Asset → M h.World (Unit {0})
    delete_found etag none = pure tt
    delete_found etag (some a) =
        if not (text_eq (http.show a.id) etag)
        then bail (
            message (
              codes "github_release delete: etag mismatch ("
              ++ (etag ++ (codes " vs " ++ (http.show a.id ++ codes ")")))))
        else delete_asset a.id

    abbrev pub delete_in : Text → Text → Option Release → M h.World (Unit {0})
    delete_in name etag none = pure tt
    delete_in name etag (some release) = do
      assets ← list_assets release.id
      delete_found etag (find assets name)

    unfoldable pub delete_if_match : Text → Text → M h.World (Unit {0})
    delete_if_match key etag = do
      found ← release_by_tag (route key).0
      delete_in (route key).1 etag found

    -- `impl SnapshotStore for GithubReleaseStore`
    abbrev pub github_store : SnapshotStore h
    github_store = record {
      name = s.name;
      put_if_unmodified = put_if_unmodified;
      put = put;
      get = get;
      head = head;
      list = list;
      delete_if_match = delete_if_match;
    }
