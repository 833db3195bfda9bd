-- ===== src/Browser/Http.antt =====
-- The HTTP clients that carry the cookies of a storage state: `build_client` of src/browser/canary.rs,
-- and the one of src/commands/export.rs.
use repossess.Prelude.{Text, Option, List, [], ◌∷◌, ◌++◌, codes}
use repossess.Effect.{Result, ok, err, in_context}
use repossess.Data.{StorageState}
use repossess.Config.{Canary}
use repossess.Host.{Host}
use repossess.Web.{Web}
use repossess.Browser.Cookies.{cookies_to_reqwest_jar}

-- reqwest and url: cookie jars, header maps, and the builder of a client.
pub record Reqwest {h : Host} (web : Web h) : Type 1 where
  pub Url : Type 0
  pub Jar : Type 0
  pub HeaderName : Type 0
  pub HeaderValue : Type 0
  pub HeaderMap : Type 0
  pub parse_url : Text → Option Url
  pub empty_jar : Jar
  pub add_cookie_str : Jar → Text → Url → Jar
  pub accept : HeaderName
  pub header_name_of_bytes : Text → Result HeaderName
  pub header_value_of_str : Text → Result HeaderValue
  pub header_value_of_static : Text → HeaderValue
  pub no_headers : HeaderMap
  pub insert : HeaderName → HeaderValue → HeaderMap → HeaderMap
  -- `Client::builder()` with a jar, a user agent and default headers.
  pub build : Jar → Text → HeaderMap → Result web.Client

module _ (h : Host) (web : Web h) (reqwest : Reqwest web) where
  -- The jar of a storage state.
  abbrev pub jar_of : StorageState h.F64 → reqwest.Jar
  jar_of state =
      cookies_to_reqwest_jar reqwest.parse_url reqwest.add_cookie_str reqwest.empty_jar state

  abbrev insert_value :
      reqwest.HeaderName → Result reqwest.HeaderValue → reqwest.HeaderMap → Result reqwest.HeaderMap
  insert_value name (err e) headers = err e
  insert_value name (ok value) headers = ok (reqwest.insert name value headers)

  abbrev insert_named :
      Result reqwest.HeaderName → Text → Text → reqwest.HeaderMap → Result reqwest.HeaderMap
  insert_named (err e) k v headers = err e
  insert_named (ok name) k v headers =
      insert_value name
        (in_context (codes "invalid canary header value for " ++ k) (reqwest.header_value_of_str v))
        headers

  -- The loop over the configured headers, which ends at the first that is no header.
  unfoldable pub insert_headers :
      List (Text × Text) → Result reqwest.HeaderMap → Result reqwest.HeaderMap
  insert_headers [] headers = headers
  insert_headers (kv ∷ rest) (err e) = err e
  insert_headers ((k, v) ∷ rest) (ok headers) = insert_headers rest (
      insert_named
        (in_context (codes "invalid canary header name " ++ k) (reqwest.header_name_of_bytes k)) k v
        headers)

  abbrev built : reqwest.Jar → Canary → Result reqwest.HeaderMap → Result web.Client
  built jar cfg (err e) = err e
  built jar cfg (ok headers) =
      in_context (codes "build canary client") (reqwest.build jar cfg.user_agent headers)

  unfoldable pub build_client : reqwest.Jar → Canary → Result web.Client
  build_client jar cfg = built jar cfg (
      insert_headers cfg.headers (
        ok (
          reqwest.insert reqwest.accept
            (reqwest.header_value_of_static (codes "application/json, text/plain, */*"))
            reqwest.no_headers)))
