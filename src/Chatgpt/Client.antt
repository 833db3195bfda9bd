-- ===== src/Chatgpt/Client.antt =====
-- `ChatGptClient` of src/workload/chatgpt.rs: the access token, and one GET with retries. `attempt` is
-- a u32, which a release build lets wrap around.
pub mod Bounded
pub mod Answered
pub mod Limited
pub mod Offline
use repossess.Prelude.{
  ℕ, zero, suc, ◌+◌, ◌*◌, ◌^◌, min, Text, Bool, true, false, Option, none, some, List, [], ◌∷◌,
  ◌++◌, codes, ltb, ◌==◌, is_empty, if◌then◌else◌,
}
use repossess.Effect.{
  M, Result, ok, err, Report, message, context, in_context, with_context, lift, pure, bail, ◌>>=◌,
}
use repossess.Host.{Host}
use repossess.Web.{Web, Response, Kind, ConversationSummary}
use repossess.Chats.Client.{header, is_success, next_attempt}
use repossess.Chatgpt.{ConversationDetail, Formats}

pub record ChatGptClient {h : Host} (web : Web h) : Type 0 where
  pub http : web.Client
  pub base_url : Text
  pub access_token : Text
  -- In milliseconds.
  pub rate_delay : ℕ
  pub max_retries : ℕ

-- One round of the loop: return, or `continue` with this attempt.
pub data Round (Value : Type 0) : Type 0 where
  stop : Result Value → Round Value
  again : (attempt : ℕ) → Round Value

-- In seconds: `30 * 2u64.pow(attempt.min(4))`.
unfoldable pub default_backoff : ℕ → ℕ
default_backoff attempt = 30 * 2 ^ min attempt 4

module _ (h : Host) (web : Web h) where
  abbrev token_of : Option Text → Option Text
  token_of none = none
  token_of (some t) = if is_empty t then none else some t

  abbrev made : web.Client → Text → ℕ → ℕ → Option Text → M h.World (ChatGptClient web)
  made http base_url rate_delay max_retries none = bail (
      message (
        codes
          "no accessToken in session response — session may be invalid or expired; re-run `repossess seed`"))
  made http base_url rate_delay max_retries (some t) = pure (record {
    http = http;
    base_url = base_url;
    access_token = t;
    rate_delay = rate_delay;
    max_retries = max_retries;
  })

  abbrev session_of : Result Text → Result (Option Text)
  session_of (err e) = err e
  session_of (ok raw) = web.session_of_json raw

  unfoldable pub new : web.Client → Text → ℕ → ℕ → M h.World (ChatGptClient web)
  new http base_url rate_delay max_retries = do
    resp ←
        with_context (codes "fetch /api/auth/session")
          (web.send http (base_url ++ codes "/api/auth/session") [])
    if is_success resp.status
        then (do
          session ← lift (in_context (codes "parse /api/auth/session JSON") (session_of resp.body))
          made http base_url rate_delay max_retries (token_of session))
        else bail (
            message (
              codes "/api/auth/session returned "
              ++ (web.show resp.status
                  ++ codes " — session may have expired; re-run `repossess seed`")))

  module _ (client : ChatGptClient web) where
    abbrev pub request_headers : List (Text × Text)
    request_headers =
        (codes "Authorization", codes "Bearer " ++ client.access_token)
        ∷ (codes "Accept", codes "application/json")
        ∷ (codes "Accept-Language", codes "en-US,en;q=0.9")
        ∷ (codes "Referer", codes "https://chatgpt.com/")
        ∷ (codes "sec-fetch-dest", codes "empty")
        ∷ (codes "sec-fetch-mode", codes "cors")
        ∷ (codes "sec-fetch-site", codes "same-origin")
        ∷ []

    -- The `retry-after` header if it is a number, in seconds.
    abbrev pub retry_after : Response → Option ℕ
    retry_after resp = elim (header (codes "retry-after") resp.headers) [
      | none ↦ none
      | some v ↦ web.parse_u64 v
    ]

    unfoldable pub backoff : Response → ℕ → ℕ
    backoff resp attempt = elim (retry_after resp) [
      | some secs ↦ secs
      | none ↦ default_backoff attempt
    ]

    abbrev str_or : Option web.Value → Text → Text
    str_or none d = d
    str_or (some v) d = elim (web.kind v) [ Kind.string s ↦ s | Kind.object ↦ d | Kind.other _ ↦ d ]

    -- `api_err`: a `detail` that is a text or an object; any other is let through.
    unfoldable pub api_error : web.Value → Option Text
    api_error body = elim (web.get body (codes "detail")) [
      | none ↦ none
      | some d ↦ elim (web.kind d) [
        | Kind.string s ↦ some s
        | Kind.object ↦ some (
            str_or (web.get d (codes "code")) (codes "api_error")
            ++ (codes ": " ++ str_or (web.get d (codes "message")) []))
        | Kind.other shown ↦ none
      ]
    ]

    abbrev checked : Text → web.Value → Result web.Value
    checked url body = elim (api_error body) [
      | none ↦ ok body
      | some e ↦ err (message (codes "API error from " ++ (url ++ (codes ": " ++ e))))
    ]

    -- A body that came with a success status.
    abbrev parsed : Text → Result Text → Result web.Value
    parsed url (err e) = err (context (codes "read body from " ++ url) e)
    parsed url (ok raw) = elim (in_context (codes "parse JSON from " ++ url) (web.parse_json raw)) [
      | err e ↦ err e
      | ok body ↦ checked url body
    ]

    -- `resp.text().await.unwrap_or_default()`
    abbrev body_or_default : Result Text → Text
    body_or_default (err e) = []
    body_or_default (ok t) = t

    -- `attempt += 1`, and give up or wait.
    unfoldable pub rate_limited : Text → ℕ → Response → h.World → Round web.Value × h.World
    rate_limited url attempt resp w =
        if ltb client.max_retries (next_attempt attempt)
        then (
          stop (
              err (
                message (
                  codes "GET "
                  ++ (url
                      ++ (codes ": rate limited after "
                          ++ (web.show client.max_retries ++ codes " retries")))))),
          w,
        )
        else (
          again (next_attempt attempt),
          web.sleep (backoff resp (next_attempt attempt) * 1000) w,
        )

    unfoldable pub on_response : Text → ℕ → Result Response → h.World → Round web.Value × h.World
    on_response url attempt (err e) w = (stop (err (context (codes "GET " ++ url) e)), w)
    on_response url attempt (ok resp) w =
        if resp.status == 429
        then rate_limited url attempt resp w
        else if resp.status == 401
        then (
          stop (
              err (
                message (
                  codes "GET "
                  ++ (url ++ codes ": 401 — session expired; re-run `repossess seed`")))),
          w,
        )
        else if is_success resp.status
        then (stop (parsed url resp.body), w)
        else (
          stop (
              err (
                message (
                  codes "GET "
                  ++ (url
                      ++ (codes ": status "
                          ++ (web.show resp.status
                              ++ (codes " body: " ++ body_or_default resp.body))))))),
          w,
        )

    -- The body of the loop.
    unfoldable pub get_round : Text → ℕ → h.World → Round web.Value × h.World
    get_round url attempt w =
        let sent = web.send client.http url request_headers (web.sleep client.rate_delay w) in
        on_response url attempt sent.0 sent.1

    -- The loop; `none` if the fuel, a number of rounds, runs out.
    unfoldable pub get_loop : ℕ → Text → ℕ → h.World → Option (Result web.Value × h.World)
    get_loop zero url attempt w = none
    get_loop (suc fuel) url attempt w =
        let (round, w') = get_round url attempt w in
        elim round [ stop r ↦ some (r, w') | again attempt' ↦ get_loop fuel url attempt' w' ]

    -- The fuel is enough for every retry and the last request, unless `max_retries` is `u32::MAX`
    -- (Client/Bounded.antt).
    abbrev pub ran_out : Option (Result web.Value × h.World) → h.World → Result web.Value × h.World
    ran_out (some r) w = r
    ran_out none w = (err (message (codes "out of fuel")), w)

    -- `get_json::<serde_json::Value>`
    unfoldable pub get_value : Text → M h.World web.Value
    get_value url w = ran_out (get_loop (client.max_retries + 1) url 0 w) w

    unfoldable pub get_json : {T : Type 0} → (web.Value → Result T) → Text → M h.World T
    get_json from_value url = do
      body ← get_value url
      lift (in_context (codes "deserialize response from " ++ url) (from_value body))

    unfoldable pub list_conversations : ℕ → ℕ → M h.World (List (ConversationSummary h.F64))
    list_conversations offset limit = get_json web.list_of_value (
        client.base_url
        ++ (codes "/backend-api/conversations?offset="
            ++ (web.show offset ++ (codes "&limit=" ++ web.show limit))))

    unfoldable pub get_conversation :
        Formats h web → Text → M h.World (ConversationDetail h.F64 web.Value)
    get_conversation formats id =
        get_json formats.detail_of_value
          (client.base_url ++ (codes "/backend-api/conversation/" ++ id))
