-- ===== src/Chats/Collect/Walk.antt =====
-- The loop over the pages walks the whole list, up to the point where it has caught up.
use repossess.Prelude.{
  ℕ, zero, suc, ◌+◌, ◌-◌, ◌%◌, ◌≤◌, ◌<◌, min, Bool, true, false, Option, some, List, [], ◌∷◌, ◌++◌,
  length, take, drop, leb, ltb, is_empty, if◌then◌else◌, ◌≡◌, ◌⊎◌, inl, inr, refl, sym, ap, ◌∙◌,
  arith, Bool-cases, length-take, length-drop, take-append-drop, drop-drop,
}
use mathlib.Core.List.{append-nil, append_assoc}
use repossess.Effect.{M, ok}
use repossess.Chats.Collect.{Scan, caught_up, scanned, scan_page, on_scan, on_page, collect_loop}

abbrev finish : {A : Type 0} → Scan A → List A
finish (caught_up l) = l
finish (scanned c l) = l

module _ {A : Type 0} (known : A → Bool) (stop_after : ℕ) where
  -- The conversations that are new or changed, in order.
  abbrev pub outdated : List A → List A
  outdated [] = []
  outdated (x ∷ xs) = if known x then outdated xs else x ∷ outdated xs

  -- How many known conversations there are in a row at the end of a list that follows `c` of them.
  abbrev pub trailing : ℕ → List A → ℕ
  trailing c [] = c
  trailing c (x ∷ xs) = if known x then trailing (c + 1) xs else trailing 0 xs

  abbrev resume_scan : Scan A → List A → Scan A
  resume_scan (caught_up l) ys = caught_up l
  resume_scan (scanned c l) ys = scan_page known stop_after ys c l

  scan_page-append :
      (xs ys : List A) (c : ℕ) (l : List A)
      → scan_page known stop_after (xs ++ ys) c l
        ≡ resume_scan (scan_page known stop_after xs c l) ys
  unfolding scan_page
  scan_page-append [] ys c l = refl
  scan_page-append (x ∷ xs) ys c l =
      ground (arith, scan_page-append xs ys (c + 1) l, scan_page-append xs ys 0 (l ++ x ∷ []))

  -- The walk has met every conversation, or `stop_after` known ones in a row.
  abbrev pub IsEnough : ℕ → List A → ℕ → Type 0
  IsEnough c xs n = (take n xs ≡ xs) ⊎ (trailing c (take n xs) ≡ stop_after)

  Walked : List A → ℕ → List A → Type 0
  Walked xs c l =
      (n : ℕ) × (finish (scan_page known stop_after xs c l) ≡ l ++ outdated (take n xs))
      × IsEnough c xs n

  IsEnough-known :
      (x : A) (xs : List A) (c n : ℕ)
      → known x ≡ true
      → IsEnough (c + 1) xs n
      → IsEnough c (x ∷ xs) (suc n)
  IsEnough-known x xs c n k (inl e) = inl (ap (λ t. x ∷ t) e)
  IsEnough-known x xs c n k (inr e) = inr (rw k e)

  IsEnough-fresh :
      (x : A) (xs : List A) (c n : ℕ)
      → known x ≡ false
      → IsEnough 0 xs n
      → IsEnough c (x ∷ xs) (suc n)
  IsEnough-fresh x xs c n k (inl e) = inl (ap (λ t. x ∷ t) e)
  IsEnough-fresh x xs c n k (inr e) = inr (rw k e)

  scan_page-Walked : (xs : List A) (c : ℕ) (l : List A) → c < stop_after → Walked xs c l
  unfolding scan_page Walked
  scan_page-Walked [] c l lt = (0, sym (append-nil l), inl refl)
  scan_page-Walked (x ∷ xs) c l lt = elim (Bool-cases (known x)) [
    | inl k ↦ elim (Bool-cases (leb stop_after (c + 1))) [
      | inl full ↦ (1, rw k (rw full (sym (append-nil l))), inr (rw k (ground arith)))
      | inr room ↦
          let (n, e, enough) = scan_page-Walked xs (c + 1) l (ground arith) in
          (suc n, rw k (rw room e), IsEnough-known x xs c n k enough)
    ]
    | inr k ↦
        let (n, e, enough) = scan_page-Walked xs 0 (l ++ x ∷ []) (omega arith) in
        (suc n, rw k (e ∙ append_assoc l (x ∷ []) _), IsEnough-fresh x xs c n k enough)
  ]

module _ {W A : Type 0} (list : ℕ → ℕ → M W (List A)) (known : A → Bool) (limit stop_after : ℕ)
    (all : List A) where
  -- The server answers with the pages of one list, and nothing else changes.
  abbrev pub Serves : Type 0
  Serves = (offset : ℕ) (w : W) → list offset limit w ≡ (ok (take limit (drop offset all)), w)

  loop : ℕ → ℕ → ℕ → List A → M W (Option (List A))
  loop = collect_loop list known limit stop_after

  walk : ℕ → ℕ → List A → List A
  walk offset c l = finish (scan_page known stop_after (drop offset all) c l)

  page : ℕ → List A
  page offset = take limit (drop offset all)

  loop-suc :
      (serves : Serves) (fuel offset c : ℕ) (l : List A) (w : W)
      → loop (suc fuel) offset c l w
        ≡ on_page list known limit stop_after (loop fuel) offset c l (ok (page offset)) w
  unfolding loop collect_loop page
  loop-suc serves fuel offset c l w =
      ap (λ p. on_page list known limit stop_after (loop fuel) offset c l p.0 p.1) (serves offset w)

  -- A page and what follows it.
  drop-page : (offset : ℕ) → drop offset all ≡ page offset ++ drop (offset + limit) all
  unfolding page
  drop-page offset =
      sym (take-append-drop limit (drop offset all))
      ∙ ap (λ r. page offset ++ r) (drop-drop limit offset all)

  length-page : (offset : ℕ) → length (page offset) ≡ min limit (length all - offset)
  unfolding page
  length-page offset = omega (arith, length-take limit (drop offset all), length-drop offset all)

  nil_of_length : (xs : List A) → length xs ≡ 0 → xs ≡ []
  nil_of_length [] e = refl
  nil_of_length (x ∷ xs) e = absurd (omega arith)

  IsDone : ℕ → Type 0
  IsDone fuel =
      (offset c : ℕ) (l : List A) (w : W)
      → offset ≤ length all
      → length all < offset + fuel
      → loop fuel offset c l w ≡ (ok (some (walk offset c l)), w)

  -- After a page that did not catch up.
  on_scan_walk :
      (fuel offset : ℕ) (s : Scan A) (w : W)
      → 0 < limit
      → length all + limit < 4294967296
      → IsDone fuel
      → offset ≤ length all
      → length all < offset + suc fuel
      → on_scan list known limit stop_after (loop fuel) offset (length (page offset)) s w
        ≡ (ok (some (finish (resume_scan known stop_after s (drop (offset + limit) all)))), w)
  unfolding IsDone
  on_scan_walk fuel offset (caught_up l) w pos small ih le lt = refl
  on_scan_walk fuel offset (scanned c l) w pos small ih le lt =
      elim (Bool-cases (ltb (length (page offset)) limit)) [
        | inl short ↦
            let e : length (drop (offset + limit) all) ≡ 0 =
              ground (arith, length-page offset, length-drop (offset + limit) all) in
            rw short (rw (nil_of_length _ e) (unfold scan_page in refl))
        | inr full ↦
            let fits : offset + limit ≤ length all = ground (arith, length-page offset) in
            let q : (offset + limit) % 4294967296 ≡ offset + limit = omega arith in
            rw full (
              ap (λ o. loop fuel o c l w) q
              ∙ unfold walk in ih (offset + limit) c l w fits (omega arith))
      ]

  length_of_empty : (xs : List A) → is_empty xs ≡ true → length xs ≡ 0
  length_of_empty [] e = refl
  length_of_empty (x ∷ xs) e = absurd (cc)

  scanned_page :
      (offset c : ℕ) (l : List A)
      → scan_page known stop_after (drop offset all) c l
        ≡ resume_scan known stop_after
            (scan_page known stop_after (page offset) c l)
            (drop (offset + limit) all)
  scanned_page offset c l =
      ap (λ xs. scan_page known stop_after xs c l) (drop-page offset)
      ∙ scan_page-append known stop_after (page offset) _ c l

  loop-IsDone : (fuel : ℕ) → 0 < limit → length all + limit < 4294967296 → Serves → IsDone fuel
  unfolding IsDone
  loop-IsDone zero pos small serves offset c l w le lt = absurd (omega arith)
  loop-IsDone (suc fuel) pos small serves offset c l w le lt =
      loop-suc serves fuel offset c l w ∙ elim (Bool-cases (is_empty (page offset))) [
        | inl none_left ↦
            let e : length (drop offset all) ≡ 0 = ground (
              arith,
              length-page offset,
              length-drop offset all,
              length_of_empty (page offset) none_left,
            ) in
            rw none_left (unfold walk in rw (nil_of_length _ e) (unfold scan_page in refl))
        | inr more ↦ rw more (
            on_scan_walk fuel offset (scan_page known stop_after (page offset) c l) w pos small
              (loop-IsDone fuel pos small serves) le lt
            ∙ unfold walk in ap (λ x. (ok (some (finish x)), w)) (sym (scanned_page offset c l)))
      ]

  -- If the server hands out the pages of one list, of fewer than 2^32 - limit conversations, the loop
  -- ends within as many rounds as there are conversations and one more. What it returns is, in order,
  -- the new and changed conversations among the first `n` of the list; and these are all of the list,
  -- or end in `stop_after` known ones in a row.
  pub collect_loop_walks :
      0 < limit
      → 0 < stop_after
      → length all + limit < 4294967296
      → Serves
      → (w : W) (extra : ℕ)
      → (n : ℕ) × (collect_loop list known limit stop_after (length all + 1 + extra) 0 0 [] w
          ≡ (ok (some (outdated known stop_after (take n all))), w))
        × IsEnough known stop_after 0 all n
  unfolding loop walk Walked IsDone
  collect_loop_walks pos stop small serves w extra =
      let (n, e, enough) = scan_page-Walked known stop_after all 0 [] stop in
      (
        n,
        loop-IsDone (length all + 1 + extra) pos small serves 0 0 [] w (omega arith) (omega arith)
            ∙ ap (λ x. (ok (some x), w)) e,
        enough,
      )
