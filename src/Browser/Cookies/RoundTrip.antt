-- ===== src/Browser/Cookies/RoundTrip.antt =====
-- A cookie of src/browser/cdp.rs that is stored and brought back.
use repossess.Prelude.{
  ◌≡◌, refl, ap, sym, ◌∙◌, Bool, Option, none, some, List, [], ◌∷◌, map, codes, text_eq,
  if◌then◌else◌,
}
use repossess.Effect.{M, ok, with_context, pure, ◌>>◌}
use repossess.Effect.Rules.{ok_injective, ok_of_bind, ok_of_context}
use repossess.Data.{StoredCookie, StorageState}
use repossess.Host.{Host}
use repossess.Browser.Cookies.{
  Cookie, CookieParam, CookieSameSite, strict, lax, unrestricted, same_site_to_str,
  same_site_from_str, map_option, and_then, stored_of, param_of,
}
use repossess.Browser.Session.{Chromium, export_cookies, export_storage_state, import_storage_state}

same_site-round_trip : (s : CookieSameSite) → same_site_from_str (same_site_to_str s) ≡ some s
unfolding same_site_from_str same_site_to_str text_eq
same_site-round_trip strict = refl
same_site-round_trip lax = refl
same_site-round_trip unrestricted = refl

optional_round_trip :
    (s : Option CookieSameSite) → and_then (map_option same_site_to_str s) same_site_from_str ≡ s
optional_round_trip none = refl
optional_round_trip (some s) = same_site-round_trip s

-- What a browser is told to have the cookie again: eight attributes as they were, no expiry for a
-- session cookie, and nothing of the priority, the source and the partition.
abbrev pub kept : {F : Type 0} → (F → Bool) → Cookie F → CookieParam F
kept is_negative c = record {
  name = c.name;
  value = c.value;
  url = none;
  domain = some c.domain;
  path = some c.path;
  http_only = some c.http_only;
  secure = some c.secure;
  expires = if is_negative c.expires then none else some c.expires;
  same_site = c.same_site;
  priority = none;
  same_party = none;
  source_scheme = none;
  source_port = none;
  partition_key = none;
}

module _ {F : Type 0} (is_negative : F → Bool) where
  param-stored : (c : Cookie F) → param_of (stored_of is_negative c) ≡ kept is_negative c
  unfolding param_of stored_of
  param-stored c =
      ap (λ s. record (kept is_negative c) { same_site = s }) (optional_round_trip c.same_site)

  params-stored :
      (cs : List (Cookie F))
      → map param_of (map (stored_of is_negative) cs) ≡ map (kept is_negative) cs
  params-stored [] = refl
  params-stored (c ∷ cs) = cong_cons (param-stored c) (params-stored cs)
    where
      cong_cons : {A : Type 0} {a b : A} {xs ys : List A} → a ≡ b → xs ≡ ys → a ∷ xs ≡ b ∷ ys
      cong_cons p q = cc

module _ (h : Host) (chrome : Chromium h) where
  abbrev pub bring : chrome.Process → List (CookieParam h.F64) → M h.World (Unit {0})
  bring browser [] = pure tt
  bring browser (p ∷ params) = do
    with_context (codes "Storage.clearCookies") (chrome.clear_cookies browser)
    with_context (codes "Network.setCookies") (chrome.set_cookies browser (p ∷ params))

  import_lem :
      (browser : chrome.Process) (state : StorageState h.F64)
      → import_storage_state h chrome browser state ≡ bring browser (map param_of state.cookies)
  unfolding import_storage_state
  import_lem browser state = split state.cookies
    where
      split :
          (cs : List (StoredCookie h.F64))
          → import_storage_state h chrome browser (record { cookies = cs; origins = state.origins })
            ≡ bring browser (map param_of cs)
      split [] = refl
      split (c ∷ cs) = refl

  -- Cookies that one browser exports are brought to the next one: if the first reports the cookies
  -- `cs` and the export returns a state, then importing that state clears the other browser's cookies
  -- and sets one for each of `cs`, in order, with its name, value, domain, path, expiry, HttpOnly,
  -- Secure and SameSite as they were, session cookies staying session cookies; every other attribute,
  -- such as the priority and the partition key, is left unset. With no cookies nothing is sent.
  pub import-export_storage_state :
      (old new : chrome.Process) (cs : List (Cookie h.F64)) (state : StorageState h.F64)
      (w : h.World)
      → (chrome.get_cookies old w).0 ≡ ok cs
      → (export_storage_state h chrome old w).0 ≡ ok state
      → import_storage_state h chrome new state ≡ bring new (map (kept chrome.is_negative) cs)
  unfolding export_storage_state export_cookies
  import-export_storage_state old new cs state w reported exported =
      let (stored, is_exported, is_state) = ok_of_bind _ _ w exported in
      let (found, is_found, is_stored) = ok_of_bind _ _ w is_exported in
      let same =
        cookies_of state stored found is_state is_stored
          (ok_injective (sym (ok_of_context _ _ is_found) ∙ reported)) in
      import_lem new state ∙ ap (bring new) same
    where
      cookies_of :
          (st : StorageState h.F64) (stored : List (StoredCookie h.F64))
          (found : List (Cookie h.F64))
          → ok (record { cookies = stored; origins = [] }) ≡ ok st
          → ok (map (stored_of chrome.is_negative) found) ≡ ok stored
          → found ≡ cs
          → map param_of st.cookies ≡ map (kept chrome.is_negative) cs
      cookies_of st stored found p q r =
          ap (λ (z : StorageState h.F64). map param_of z.cookies) (sym (ok_injective p))
          ∙ (ap (map param_of) (sym (ok_injective q))
              ∙ (params-stored chrome.is_negative found ∙ ap (map (kept chrome.is_negative)) r))
