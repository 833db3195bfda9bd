-- ===== src/Browser/Cookies.antt =====
-- The cookies of src/browser/cdp.rs: to and from the Chrome DevTools Protocol, and as Set-Cookie lines
-- for the jar of an HTTP client.
pub mod RoundTrip
use repossess.Prelude.{
  ℕ, Text, Bool, true, false, Option, none, some, List, [], ◌∷◌, ◌++◌, codes, map, ◌==◌, text_eq,
  if◌then◌else◌,
}
use repossess.Data.{StoredCookie, StorageState}

-- `CookieSameSite`
pub data CookieSameSite : Type 0 where
  strict lax unrestricted : CookieSameSite

-- `CookiePriority` and `CookieSourceScheme`
pub data CookiePriority : Type 0 where
  low medium high : CookiePriority

pub data CookieSourceScheme : Type 0 where
  unset non_secure secure_scheme : CookieSourceScheme

-- `network::Cookie` of the protocol: the attributes that are read, and those that are not.
pub record Cookie (F : Type 0) : Type 0 where
  pub name : Text
  pub value : Text
  pub domain : Text
  pub path : Text
  pub expires : F
  pub http_only : Bool
  pub secure : Bool
  pub same_site : Option CookieSameSite
  pub size : ℕ
  pub session : Bool
  pub priority : CookiePriority
  pub same_party : Bool
  pub source_scheme : CookieSourceScheme
  -- `none` for the -1 of the protocol.
  pub source_port : Option ℕ
  pub partition_key : Option Text

-- `network::CookieParam` of the protocol; what is `none` is left to Chromium.
pub record CookieParam (F : Type 0) : Type 0 where
  pub name : Text
  pub value : Text
  pub url : Option Text
  pub domain : Option Text
  pub path : Option Text
  pub http_only : Option Bool
  pub secure : Option Bool
  pub expires : Option F
  pub same_site : Option CookieSameSite
  pub priority : Option CookiePriority
  pub same_party : Option Bool
  pub source_scheme : Option CookieSourceScheme
  pub source_port : Option ℕ
  pub partition_key : Option Text

unfoldable pub same_site_to_str : CookieSameSite → Text
same_site_to_str strict = codes "Strict"
same_site_to_str lax = codes "Lax"
same_site_to_str unrestricted = codes "None"

unfoldable pub same_site_from_str : Text → Option CookieSameSite
same_site_from_str s =
    if text_eq s (codes "Strict")
    then some strict
    else if text_eq s (codes "Lax")
    then some lax
    else if text_eq s (codes "None")
    then some unrestricted
    else none

abbrev pub map_option : {A B : Type 0} → (A → B) → Option A → Option B
map_option f none = none
map_option f (some a) = some (f a)

abbrev pub and_then : {A B : Type 0} → Option A → (A → Option B) → Option B
and_then none f = none
and_then (some a) f = f a

module _ {F : Type 0} (is_negative : F → Bool) where
  -- A negative expiry marks a session cookie.
  unfoldable pub stored_of : Cookie F → StoredCookie F
  stored_of c = record {
    name = c.name;
    value = c.value;
    domain = c.domain;
    path = c.path;
    expires = if is_negative c.expires then none else some c.expires;
    http_only = c.http_only;
    secure = c.secure;
    same_site = map_option same_site_to_str c.same_site;
  }

-- `CookieParam::new` leaves unset what is not set here.
unfoldable pub param_of : {F : Type 0} → StoredCookie F → CookieParam F
param_of c = record {
  name = c.name;
  value = c.value;
  url = none;
  domain = some c.domain;
  path = some c.path;
  http_only = some c.http_only;
  secure = some c.secure;
  expires = c.expires;
  same_site = and_then c.same_site same_site_from_str;
  priority = none;
  same_party = none;
  source_scheme = none;
  source_port = none;
  partition_key = none;
}

-- `trim_start_matches('.')`
unfoldable pub trim_dots : Text → Text
trim_dots [] = []
trim_dots (c ∷ s) = let rest = trim_dots s in if c == b'.' then rest else c ∷ s

abbrev same_site_attribute : Option Text → Text
same_site_attribute none = []
same_site_attribute (some s) = codes "; SameSite=" ++ s

-- The line that is added to the jar, and the URL that it is added for.
unfoldable pub set_cookie_line : {F : Type 0} → StoredCookie F → Text
set_cookie_line c =
    c.name
    ++ (codes "="
        ++ (c.value
            ++ (codes "; Path="
                ++ (c.path
                    ++ (codes "; Domain="
                        ++ (c.domain
                            ++ ((if c.secure then codes "; Secure" else [])
                                ++ ((if c.http_only then codes "; HttpOnly" else [])
                                    ++ same_site_attribute c.same_site))))))))

unfoldable pub cookie_url : {F : Type 0} → StoredCookie F → Text
cookie_url c =
    (if c.secure then codes "https" else codes "http") ++ (codes "://" ++ trim_dots c.domain)

-- `url::Url::parse`, and the jar that cookies are added to.
module _ {Url Jar : Type 0} (parse_url : Text → Option Url)
    (add_cookie_str : Jar → Text → Url → Jar) where
  add_cookie : Jar → Text → Option Url → Jar
  add_cookie jar header none = jar
  add_cookie jar header (some url) = add_cookie_str jar header url

  add_cookies : {F : Type 0} → Jar → List (StoredCookie F) → Jar
  unfolding add_cookie
  add_cookies jar [] = jar
  add_cookies jar (c ∷ cookies) =
      add_cookies (add_cookie jar (set_cookie_line c) (parse_url (cookie_url c))) cookies

  unfoldable pub cookies_to_reqwest_jar : {F : Type 0} → Jar → StorageState F → Jar
  unfolding add_cookies
  cookies_to_reqwest_jar empty state = add_cookies empty state.cookies
