-- ===== src/Tests/Releases.antt =====
-- A concrete GitHub with one release, whose listing has a single asset.
use repossess.Prelude.{
  ℕ, ◌+◌, zero, suc, Text, codes, false, List, [], ◌∷◌, ◌≡◌, ◌≢◌, refl, take, drop, drop-nil, ◌*◌,
  last, ◌==◌, arith, ap, sym, ◌∙◌, if◌then◌else◌,
}
use repossess.Effect.{ok, ◌>>=◌}
use repossess.Data.{LatestPointer, StorageState}
use repossess.Stores.Github.{Http, GithubReleaseStore, Asset, list_assets, list_page, github_store}
use repossess.Stores.Github.Pages.{IsPaged, list_assets_all}
use repossess.Stores.Github.Routes.{route-injective}
use repossess.Stores.Github.MirrorOnly.{store_refuses}
use repossess.Lock.{acquire}
use repossess.Commands.Save.{save}
use repossess.Commands.Seed.{publish_at}
use repossess.Tests.Model.{host, empty_memory}

abbrev latest : Asset
latest = record { id = 7; name = codes "latest.json"; size = 3 }

-- Every response has status 200; a response is its URL, which ends in the number of the page.
abbrev github : Http host
github = record {
  Response = Text;
  status = λ r. 200;
  send = λ method url headers payload w. (ok url, w);
  release_of = λ r w. (ok (record { id = 1 }), w);
  assets_of = λ r w. (ok (if last r == 1 then latest ∷ [] else []), w);
  asset_of = λ r w. (ok latest, w);
  bytes_of = λ r w. (ok [], w);
  text_of = λ r w. (r, w);
  encode = λ t. t;
  show = λ n. n ∷ [];
}

abbrev mirror : GithubReleaseStore
mirror = record { name = codes "mirror"; owner = codes "o"; repo = codes "r"; token = codes "t" }

one_asset : IsPaged host github mirror 1 (latest ∷ [])
unfolding list_page ◌>>=◌
one_asset zero w = refl
one_asset (suc n) w =
    ap (λ b. ok (if◌then◌else◌ {A = List Asset} b (latest ∷ []) [])) not_one
    ∙ ap ok (ap (take 100) (sym (rest (n * 100) (suc n * 100) (omega arith))))
  where
    not_one : suc (suc n) == 1 ≡ false
    not_one = ground arith

    rest : (k m : ℕ) → m ≡ suc (99 + k) → drop m (latest ∷ []) ≡ []
    rest k m e = ap (λ i. drop i (latest ∷ [])) e ∙ drop-nil (99 + k)

list_assets_all_example : (list_assets host github mirror 1 1 empty_memory).0 ≡ ok (latest ∷ [])
list_assets_all_example =
    list_assets_all host github mirror 1 (latest ∷ []) one_asset 1 empty_memory (omega arith)

route-injective_example : codes "a/b" ≡ codes "a/b"
route-injective_example =
    route-injective (codes "a/b") (codes "a/b") (refl, (refl, (refl, tt)))
      (refl, (refl, (refl, tt))) refl

store_refuses_example :
    ((run_id : Text) (ttl : ℕ) (etag : Text)
      → (acquire host (github_store host github mirror 9) run_id ttl empty_memory).0 ≢ ok etag)
    × ((recipient : host.Recipient) (k : host.SigningKey) (state : StorageState host.F64)
          (prev : LatestPointer) (etag version : Text)
        → (save host
            (github_store host github mirror 9)
            []
            recipient
            k
            state
            prev
            etag
            empty_memory).0
          ≢ ok version)
    × ((k : host.SigningKey) (ciphertext : host.Bytes) (now : ℕ) (version : Text)
        → (publish_at host (github_store host github mirror 9) [] k ciphertext now empty_memory).0
          ≢ ok version)
store_refuses_example = store_refuses host github mirror 9 [] empty_memory
