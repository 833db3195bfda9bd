-- ===== src/Stores/Github/Pages.antt =====
-- The pages that `list_assets` of src/stores/github_release.rs reads.
use repossess.Prelude.{
  ℕ, zero, suc, ◌+◌, ◌*◌, ◌<◌, ◌≤◌, Bool, true, false, List, [], ◌∷◌, ◌++◌, length, take, drop,
  length-take, length-drop, take-append-drop, drop-drop, ltb, ltb→lt, ◌≡◌, refl, sym, ap, ◌∙◌,
  subst, arith, if◌then◌else◌,
}
use repossess.Effect.{M, ok, pure, ◌>>=◌}
use repossess.Effect.Rules.{bind_ok}
use repossess.Host.{Host}
use repossess.Stores.Github.{Http, GithubReleaseStore, Asset, list_page, list_from, list_assets}

take_all : {A : Type 0} (n : ℕ) (xs : List A) → length xs ≤ n → take n xs ≡ xs
take_all zero [] le = refl
take_all zero (x ∷ xs) le = absurd (omega arith)
take_all (suc n) [] le = refl
take_all (suc n) (x ∷ xs) le = ap (λ ys. x ∷ ys) (take_all n xs (omega arith))

module _ (h : Host) (http : Http h) (s : GithubReleaseStore) (release_id : ℕ)
    (all : List Asset) where
  -- Page n of the listing of the release is the n-th hundred of its assets, at all times.
  abbrev pub IsPaged : Type 0
  IsPaged =
      (n : ℕ) (w : h.World)
      → (list_page h http s release_id (suc n) w).0 ≡ ok (take 100 (drop (n * 100) all))

  -- What is left of the listing from page n + 1 on.
  abbrev left_from : ℕ → List Asset
  left_from n = drop (n * 100) all

  abbrev after_page : ℕ → ℕ → List Asset → Bool → M h.World (List Asset)
  after_page fuel page batch short =
      if short
      then pure batch
      else (list_from h http s fuel release_id page >>= λ more. pure (batch ++ more))

  last_page :
      (n : ℕ)
      → ltb (length (take 100 (left_from n))) 100 ≡ true
      → take 100 (left_from n) ≡ left_from n
  last_page n short =
      take_all 100 (left_from n) (omega (arith, ltb→lt _ _ short, length-take 100 (left_from n)))

  full_page :
      (n : ℕ)
      → ltb (length (take 100 (left_from n))) 100 ≡ false
      → n * 100 ≤ length all
      → ((n + 1) * 100 ≤ length all) × (take 100 (left_from n) ++ left_from (n + 1) ≡ left_from n)
  full_page n full le = (
    omega (arith, not_short _ full, length-take 100 (left_from n), length-drop (n * 100) all),
    ap (λ k. take 100 (left_from n) ++ drop k all)
          (let q : (n + 1) * 100 ≡ n * 100 + 100 = omega arith in q)
        ∙ (ap (λ ys. take 100 (left_from n) ++ ys) (sym (drop-drop 100 (n * 100) all))
            ∙ take-append-drop 100 (left_from n)),
  )
    where
      not_short : (k : ℕ) → ltb k 100 ≡ false → 100 ≤ k
      not_short k e = ground arith

  list_from_all :
      (paged : IsPaged) (fuel n : ℕ) (w : h.World)
      → length all < (n + fuel) * 100
      → n * 100 ≤ length all
      → (list_from h http s fuel release_id (suc n) w).0 ≡ ok (left_from n)
  unfolding list_from
  list_from_all paged zero n w lt le = absurd (omega arith)
  list_from_all paged (suc fuel) n w lt le = bind_ok _ _ w (paged n w) (
      by_length (ltb (length (take 100 (left_from n))) 100) refl _
        λ more u. list_from_all paged fuel (n + 1) u (omega (arith, more)) more)
    where
      by_length :
          (b : Bool)
          → ltb (length (take 100 (left_from n))) 100 ≡ b
          → (u : h.World)
          → ((n + 1) * 100 ≤ length all
              → (v : h.World)
              → (list_from h http s fuel release_id (suc (n + 1)) v).0 ≡ ok (left_from (n + 1)))
          → (after_page fuel (suc n + 1) (take 100 (left_from n)) b u).0 ≡ ok (left_from n)
      by_length true short u ih = ap ok (last_page n short)
      by_length false full u ih =
          let (more, same) = full_page n full le in
          let q : suc (n + 1) ≡ suc n + 1 = omega arith in
          bind_ok _ _ u
            (subst (λ k. (list_from h http s fuel release_id k u).0 ≡ ok (left_from (n + 1))) q
              (ih more u))
            (ap ok same)

  -- If every page of the listing can be read, `list_assets` returns all assets of the release, in
  -- order, once it may read as many pages as there are hundreds of them, and one.
  pub list_assets_all :
      (paged : IsPaged) (fuel : ℕ) (w : h.World)
      → length all < fuel * 100
      → (list_assets h http s fuel release_id w).0 ≡ ok all
  unfolding list_assets
  list_assets_all paged fuel w lt = list_from_all paged fuel 0 w (omega arith) (omega arith)
