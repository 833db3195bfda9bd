-- ===== src/Browser/Session.antt =====
-- `BrowserSession` of src/browser/cdp.rs, over the DevTools commands of a running Chromium.
pub mod Capture
use repossess.Prelude.{
  ℕ, suc, Text, Bool, true, false, Option, none, some, List, [], ◌∷◌, codes, map, is_empty, not,
  ◌==◌, text_eq, if◌then◌else◌,
}
use repossess.Effect.{
  M, Report, Result, ok, err, message, with_context, pure, bail, total, ◌>>=◌, ◌>>◌,
}
use repossess.Data.{StoredCookie, StorageState}
use repossess.Host.{Host}
use repossess.Browser.Cookies.{Cookie, CookieParam, stored_of, param_of}

-- chromiumoxide: a running browser, and the commands that are sent to it.
pub record Chromium (h : Host) : Type 1 where
  pub Process : Type 0
  pub Page : Type 0
  pub create_dir_all : Text → M h.World (Unit {0})
  -- `BrowserConfig::builder()…build()` with the arguments, and `Browser::launch`.
  pub launch : (bin user_data_dir : Text) (args : List Text) (headless : Bool) → M h.World Process
  pub new_page : Process → Text → M h.World Page
  pub add_script : Page → Text → M h.World (Unit {0})
  pub goto : Page → Text → M h.World (Unit {0})
  pub get_cookies : Process → M h.World (List (Cookie h.F64))
  pub clear_cookies : Process → M h.World (Unit {0})
  pub set_cookies : Process → List (CookieParam h.F64) → M h.World (Unit {0})
  -- The types of the targets that Target.getTargets lists.
  pub get_targets : Process → M h.World (List Text)
  pub listen : Process → M h.World (Unit {0})
  pub close : Process → M h.World (Unit {0})
  pub wait : Process → M h.World (Unit {0})
  -- `x < 0.0`
  pub is_negative : h.F64 → Bool

-- What the select of `wait_and_capture` receives next: the timer; a destroyed target; a changed
-- target; or the end of one of the two streams.
pub data Event : Type 0 where
  tick destroyed changed stream_ended : Event

pub record BrowserSession {h : Host} (chrome : Chromium h) : Type 0 where
  pub browser : chrome.Process
  pub user_data_dir : Text
  pub browser_closed : Bool

-- What one event leads to: the loop is left with a state; left; or goes on with a cache.
pub data Turn (S : Type 0) : Type 0 where
  captured : S → Turn S
  leave : Turn S
  go_on : (cache : S) → Turn S

abbrev pub stealth_script : Text
stealth_script =
    codes
      "\nObject.defineProperty(navigator, 'webdriver', { get: () => undefined });\nif (!window.chrome) { window.chrome = { runtime: {} }; }\n"

abbrev pub chrome_args : List Text
chrome_args =
    codes "--no-default-browser-check"
    ∷ codes "--no-first-run"
    ∷ codes "--disable-dev-shm-usage"
    ∷ codes "--disable-background-networking"
    ∷ codes "--disable-blink-features=AutomationControlled"
    ∷ []

module _ (h : Host) (chrome : Chromium h) where
  unfoldable pub launch : Text → Text → Bool → M h.World (BrowserSession chrome)
  launch chromium_bin user_data_dir headless = do
    with_context (codes "create user_data_dir") (chrome.create_dir_all user_data_dir)
    browser ← chrome.launch chromium_bin user_data_dir chrome_args headless
    pure (record { browser = browser; user_data_dir = user_data_dir; browser_closed = false })

  -- The script is registered before the page is loaded.
  unfoldable pub open_page : chrome.Process → Text → M h.World chrome.Page
  open_page browser url = do
    page ← chrome.new_page browser (codes "about:blank")
    with_context (codes "inject stealth script") (chrome.add_script page stealth_script)
    with_context (codes "navigate") (chrome.goto page url)
    pure page

  unfoldable pub export_cookies : chrome.Process → M h.World (List (StoredCookie h.F64))
  export_cookies browser = do
    cookies ← with_context (codes "Storage.getCookies") (chrome.get_cookies browser)
    pure (map (stored_of chrome.is_negative) cookies)

  unfoldable pub export_storage_state : chrome.Process → M h.World (StorageState h.F64)
  export_storage_state browser = do
    cookies ← export_cookies browser
    pure (record { cookies = cookies; origins = [] })

  -- Old cookies go first, unless there are none to bring.
  unfoldable pub import_storage_state : chrome.Process → StorageState h.F64 → M h.World (Unit {0})
  import_storage_state browser state = if is_empty state.cookies then pure tt else (do
    with_context (codes "Storage.clearCookies") (chrome.clear_cookies browser)
    with_context (codes "Network.setCookies")
        (chrome.set_cookies browser (map param_of state.cookies)))

  -- How many targets are pages.
  abbrev count_pages : List Text → ℕ
  count_pages [] = 0
  count_pages (t ∷ types) =
      let rest = count_pages types in if text_eq t (codes "page") then suc rest else rest

  -- `if let Ok(state) = … { if !state.cookies.is_empty() { … } }`
  abbrev pub if_cookies :
      Result (StorageState h.F64)
      → (StorageState h.F64 → Turn (StorageState h.F64))
      → Turn (StorageState h.F64)
      → Turn (StorageState h.F64)
  if_cookies (err e) then_ else_ = else_
  if_cookies (ok state) then_ else_ = if is_empty state.cookies then else_ else then_ state

  abbrev pub on_targets :
      chrome.Process
      → StorageState h.F64
      → Result (List Text)
      → h.World
      → Turn (StorageState h.F64) × h.World
  on_targets browser cache (err e) w = (leave, w)
  on_targets browser cache (ok types) w =
      let last = export_storage_state browser w in
      if count_pages types == 0
      then (if_cookies last.0 captured leave, last.1)
      else (go_on cache, w)

  unfoldable pub on_event :
      chrome.Process → StorageState h.F64 → Event → h.World → Turn (StorageState h.F64) × h.World
  on_event browser cache tick w =
      let polled = chrome.get_targets browser w in on_targets browser cache polled.0 polled.1
  on_event browser cache destroyed w =
      let polled = chrome.get_targets browser w in on_targets browser cache polled.0 polled.1
  on_event browser cache changed w =
      let fresh = export_storage_state browser w in
      (if_cookies fresh.0 go_on (go_on cache), fresh.1)
  on_event browser cache stream_ended w = (leave, w)

  -- After the loop.
  abbrev pub finish : StorageState h.F64 → Result (StorageState h.F64)
  finish cache =
      if is_empty cache.cookies
      then err (message (codes "browser closed before any cookies were captured"))
      else ok cache

  -- The loop over the events; `none` is that it waits for one more.
  unfoldable pub wait_loop :
      chrome.Process
      → List Event
      → StorageState h.F64
      → h.World
      → Option (Result (StorageState h.F64)) × h.World
  wait_loop browser [] cache w = (none, w)
  wait_loop browser (e ∷ events) cache w =
      let turned = on_event browser cache e w in
      elim turned.0 [
        | captured state ↦ (some (ok state), turned.1)
        | leave ↦ (some (finish cache), turned.1)
        | go_on fresh ↦ wait_loop browser events fresh turned.1
      ]

  -- `unwrap_or_default`
  abbrev or_default : Result (StorageState h.F64) → StorageState h.F64
  or_default (ok state) = state
  or_default (err e) = record { cookies = []; origins = [] }

  -- The session is marked as closed whenever the loop is left.
  abbrev pub left :
      BrowserSession chrome
      → Option (Result (StorageState h.F64)) × h.World
      → Option (Result (StorageState h.F64)) × BrowserSession chrome × h.World
  left session (none, w) = (none, session, w)
  left session (some r, w) = (some r, record session { browser_closed = true }, w)

  abbrev pub listening :
      BrowserSession chrome
      → List Event
      → Result (Unit {0}) × h.World
      → Option (Result (StorageState h.F64)) × BrowserSession chrome × h.World
  listening session events (err e, w) = (some (err e), session, w)
  listening session events (ok x, w) =
      let first = export_storage_state session.browser w in
      left session (wait_loop session.browser events (or_default first.0) first.1)

  -- The streams of destroyed and of changed targets.
  abbrev pub listen_both : chrome.Process → M h.World (Unit {0})
  listen_both browser = chrome.listen browser >> chrome.listen browser

  -- The listeners for the two streams, the first cache, and the loop.
  unfoldable pub wait_and_capture :
      BrowserSession chrome
      → List Event
      → h.World
      → Option (Result (StorageState h.F64)) × BrowserSession chrome × h.World
  wait_and_capture session events w = listening session events (listen_both session.browser w)

  -- Errors of closing are dropped.
  unfoldable pub close : BrowserSession chrome → M h.World (Unit {0})
  close session w =
      let w' = if session.browser_closed then w else (chrome.close session.browser w).1 in
      (ok tt, (chrome.wait session.browser w').1)
