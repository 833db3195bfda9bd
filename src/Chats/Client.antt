-- ===== src/Chats/Client.antt =====
-- `ChatsApiClient` of src/workload/chatgpt_chats.rs: one GET with retries, a token refresh and the
-- classification of errors. A body of the loop is a step; `attempt` is a u32, which a release build
-- lets wrap around.
pub mod Retries
pub mod Backoff
pub mod Offline
use repossess.Prelude.{
  ℕ, zero, suc, ◌+◌, ◌-◌, ◌*◌, ◌%◌, ◌^◌, min, Text, Bool, true, false, not, ◌&&◌, ◌||◌, Option,
  none, some, List, [], ◌∷◌, ◌++◌, codes, leb, ltb, ◌==◌, if◌then◌else◌, text_eq, contains,
  is_empty, replace,
}
use repossess.Effect.{M, Result, ok, err, Report, message, context, in_context, ok_or}
use repossess.Config.{ChatgptChatsCfg}
use repossess.Host.{Host}
use repossess.Web.{Response, Kind, Web, ConversationSummary}

abbrev pub u64_max : ℕ
u64_max = 18446744073709551615

-- `u64::saturating_mul` and `u64::saturating_pow`.
abbrev pub saturating_mul : ℕ → ℕ → ℕ
saturating_mul a b = min (a * b) u64_max

abbrev pub saturating_pow : ℕ → ℕ → ℕ
saturating_pow a n = min (a ^ n) u64_max

-- `attempt + 1` in u32.
abbrev pub next_attempt : ℕ → ℕ
next_attempt attempt = (attempt + 1) % 2 ^ 32

-- In milliseconds: 30 s × 2^attempt, capped.
unfoldable pub exponential_backoff : ℕ → ℕ → ℕ
exponential_backoff attempt cap_ms =
    min (saturating_mul 30000 (saturating_pow 2 (min attempt 5))) cap_ms

abbrev pub header : Text → List (Text × Text) → Option Text
header name [] = none
header name ((n, v) ∷ rest) = if text_eq n name then some v else header name rest

-- `GetError` and the value it may be instead.
pub data Fetch (Value : Type 0) : Type 0 where
  got : Value → Fetch Value
  inaccessible : Text → Fetch Value
  transient : Text → Fetch Value
  fatal : Report → Fetch Value

-- What one round of the loop does: return, or `continue` with these variables.
pub data Round (Value : Type 0) : Type 0 where
  stop : Fetch Value → Round Value
  again : (attempt : ℕ) (refreshed_once : Bool) → Round Value

-- The world and the token behind the mutex.
pub record Session (h : Host) : Type 0 where
  pub world : h.World
  pub token : Text

abbrev pub is_success : ℕ → Bool
is_success status = leb 200 status && ltb status 300

abbrev pub is_server_error : ℕ → Bool
is_server_error status = leb 500 status && ltb status 600

module _ (h : Host) (web : Web h) (http : web.Client) (cfg : ChatgptChatsCfg) where
  -- retry_after, in milliseconds
  unfoldable pub retry_after : Response → Option ℕ
  retry_after resp = elim (header (codes "retry-after") resp.headers) [
    | none ↦ none
    | some v ↦ elim (web.parse_u64 v) [ none ↦ none | some secs ↦ some (secs * 1000) ]
  ]

  session_token : Result (Option Text) → Result Text
  session_token (err e) = err (context (codes "parse session JSON") e)
  session_token (ok none) = err (message (codes "no accessToken in session response"))
  session_token (ok (some t)) =
      if is_empty t then err (message (codes "no accessToken in session response")) else ok t

  session_of_response : Result Response → Result Text
  unfolding session_token
  session_of_response (err e) = err (context (codes "GET session") e)
  session_of_response (ok resp) =
      if is_success resp.status
      then session_token (elim resp.body [ ok raw ↦ web.session_of_json raw | err e ↦ err e ])
      else err (message (codes "session expired; re-run `repossess seed`"))

  unfoldable pub fetch_session : M h.World Text
  unfolding session_of_response
  fetch_session w =
      let url = cfg.base_url ++ cfg.session_path in
      (session_of_response (web.send http url [] w).0, (web.send http url [] w).1)

  -- The message of a `{"detail": …}` body.
  abbrev text_of : Option web.Value → Text → Text
  text_of none d = d
  text_of (some v) d = elim (web.kind v) [ Kind.string s ↦ s | Kind.object ↦ d | Kind.other _ ↦ d ]

  detail_message : web.Value → Text
  detail_message detail = elim (web.kind detail) [
    | Kind.string s ↦ s
    | Kind.object ↦
        text_of (web.get detail (codes "code")) (codes "api_error")
        ++ (codes ": " ++ text_of (web.get detail (codes "message")) [])
    | Kind.other shown ↦ shown
  ]

  -- A body that came with a success status.
  classify_value : Result web.Value → Fetch web.Value
  unfolding detail_message
  classify_value (err e) = fatal (context (codes "parse JSON") e)
  classify_value (ok body) = elim (web.get body (codes "detail")) [
    | none ↦ got body
    | some detail ↦
        let msg = detail_message detail in
        if contains (codes "inaccessible") msg || contains (codes "not_found") msg
        then inaccessible msg
        else fatal (message msg)
  ]

  unfoldable pub classify_body : Result Text → Fetch web.Value
  unfolding classify_value
  classify_body (err e) = fatal (context (codes "read body") e)
  classify_body (ok raw) = classify_value (web.parse_json raw)

  abbrev pub request_headers : Text → List (Text × Text)
  request_headers token =
      (codes "Authorization", codes "Bearer " ++ token)
      ∷ (codes "Accept", codes "application/json")
      ∷ (codes "Accept-Language", codes "en-US,en;q=0.9")
      ∷ (codes "Referer", cfg.base_url ++ codes "/")
      ∷ (codes "sec-fetch-dest", codes "empty")
      ∷ (codes "sec-fetch-mode", codes "cors")
      ∷ (codes "sec-fetch-site", codes "same-origin")
      ∷ []

  -- `attempt += 1`, and give up or wait.
  unfoldable pub back_off : ℕ → Bool → ℕ → Session h → Round web.Value × Session h
  back_off attempt refreshed_once wait s =
      if ltb cfg.max_retries (next_attempt attempt)
      then (stop (transient (codes "too many retries")), s)
      else (
        again (next_attempt attempt) refreshed_once,
        record s { world = web.sleep wait s.world },
      )

  abbrev pub after_refresh : ℕ → Result Text → Session h → Round web.Value × Session h
  after_refresh attempt (err e) s = (stop (fatal e), s)
  after_refresh attempt (ok t) s = (again attempt true, record s { token = t })

  unfoldable pub refresh : ℕ → Bool → Session h → Round web.Value × Session h
  refresh attempt true s =
      (stop (fatal (message (codes "401 after token refresh; re-run `repossess seed`"))), s)
  refresh attempt false s =
      let session = fetch_session s.world in
      after_refresh attempt session.0 (record s { world = session.1 })

  unfoldable pub on_response : ℕ → Bool → Result Response → Session h → Round web.Value × Session h
  unfolding back_off refresh
  on_response attempt refreshed_once (err e) s = (stop (fatal (context (codes "GET") e)), s)
  on_response attempt refreshed_once (ok resp) s =
      let exponential = exponential_backoff (next_attempt attempt) cfg.max_backoff_ms in
      if resp.status == 429
      then back_off attempt refreshed_once
          (elim (retry_after resp) [ some ms ↦ ms | none ↦ exponential ]) s
      else if resp.status == 401
      then refresh attempt refreshed_once s
      else if is_server_error resp.status
      then back_off attempt refreshed_once exponential s
      else if is_success resp.status
      then (stop (classify_body resp.body), s)
      else (stop (fatal (message (codes "unexpected status"))), s)

  unfoldable pub get_round : Text → ℕ → Bool → Session h → Round web.Value × Session h
  unfolding on_response
  get_round url attempt refreshed_once s =
      let sent = web.send http url (request_headers s.token) s.world in
      on_response attempt refreshed_once sent.0 (record s { world = sent.1 })

  -- The loop; `none` if the fuel, a number of rounds, runs out.
  unfoldable pub get_loop : ℕ → Text → ℕ → Bool → Session h → Option (Fetch web.Value × Session h)
  get_loop zero url attempt refreshed_once s = none
  get_loop (suc fuel) url attempt refreshed_once s =
      let (round, s') = get_round url attempt refreshed_once s in
      elim round [
        | stop r ↦ some (r, s')
        | again attempt' refreshed' ↦ get_loop fuel url attempt' refreshed' s'
      ]

  -- Enough for every retry, the refresh and the last round, unless `max_retries` is `u32::MAX`
  -- (Client/Retries.antt).
  abbrev pub fuel_of_get : ℕ
  fuel_of_get = cfg.max_retries + 2

  ran_out : Option (Fetch web.Value × Session h) → Session h → Fetch web.Value × Session h
  ran_out (some r) s = r
  ran_out none s = (fatal (message (codes "out of fuel")), s)

  -- `get_json`.
  unfoldable pub get_json : Text → Session h → Fetch web.Value × Session h
  unfolding ran_out
  get_json url s = ran_out (get_loop fuel_of_get url 0 false s) s

  -- `get_raw`, with `detail_path_template.replace("{id}", id)`.
  unfoldable pub get_raw : Text → Session h → Fetch web.Value × Session h
  get_raw id = get_json (cfg.base_url ++ replace (codes "{id}") id cfg.detail_path_template)

  abbrev flatten : Fetch web.Value → Result web.Value
  flatten (got v) = ok v
  flatten (inaccessible m) = err (message m)
  flatten (transient m) = err (message m)
  flatten (fatal r) = err r

  summaries_of : Result web.Value → Result (List (ConversationSummary h.F64))
  summaries_of (err e) = err e
  summaries_of (ok v) = in_context (codes "deserialize list") (web.list_of_value v)

  -- `list`: any error ends the run.
  unfoldable pub list : ℕ → ℕ → M (Session h) (List (ConversationSummary h.F64))
  unfolding summaries_of
  list offset limit s =
      let url =
        cfg.base_url
        ++ (cfg.list_path
            ++ (codes "?offset=" ++ (web.show offset ++ (codes "&limit=" ++ web.show limit)))) in
      (summaries_of (flatten (get_json url s).0), (get_json url s).1)
