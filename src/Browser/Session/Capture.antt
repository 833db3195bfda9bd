-- ===== src/Browser/Session/Capture.antt =====
-- What `wait_and_capture` of src/browser/cdp.rs returns, and when it does.
use repossess.Prelude.{
  Text, ◌≡◌, ◌≢◌, refl, true, false, Option, none, some, List, [], ◌∷◌, ◌++◌, is_empty, arith,
}
use repossess.Effect.{Result, ok, err}
use repossess.Data.{StorageState}
use repossess.Host.{Host}
use repossess.Browser.Session.{
  Chromium, BrowserSession, Event, tick, destroyed, changed, stream_ended, captured, leave, go_on,
  if_cookies, on_targets, on_event, finish, wait_loop, listen_both, export_storage_state, left,
  listening, wait_and_capture,
}

module _ (h : Host) (chrome : Chromium h) where
  finish_ok :
      (cache state : StorageState h.F64)
      → finish h chrome cache ≡ ok state
      → is_empty state.cookies ≡ false
  finish_ok cache state e = ground arith

  if_cookies_captured :
      (r : Result (StorageState h.F64)) (state : StorageState h.F64)
      → if_cookies h chrome r captured leave ≡ captured state
      → is_empty state.cookies ≡ false
  if_cookies_captured (ok fresh) state e = ground arith
  if_cookies_captured (err x) state e = absurd (cc)

  on_targets_captured :
      (browser : chrome.Process) (cache : StorageState h.F64) (r : Result (List Text)) (w : h.World)
      (state : StorageState h.F64)
      → (on_targets h chrome browser cache r w).0 ≡ captured state
      → is_empty state.cookies ≡ false
  on_targets_captured browser cache (err x) w state eq = absurd (cc)
  on_targets_captured browser cache (ok types) w state eq = grind (arith, if_cookies_captured)

  on_event_captured :
      (browser : chrome.Process) (cache : StorageState h.F64) (e : Event) (w : h.World)
      (state : StorageState h.F64)
      → (on_event h chrome browser cache e w).0 ≡ captured state
      → is_empty state.cookies ≡ false
  unfolding on_event
  on_event_captured browser cache tick w state eq =
      on_targets_captured browser cache (chrome.get_targets browser w).0
        (chrome.get_targets browser w).1 state eq
  on_event_captured browser cache destroyed w state eq =
      on_targets_captured browser cache (chrome.get_targets browser w).0
        (chrome.get_targets browser w).1 state eq
  on_event_captured browser cache changed w state eq =
      refreshed (export_storage_state h chrome browser w).0 eq
    where
      refreshed :
          (r : Result (StorageState h.F64))
          → if_cookies h chrome r go_on (go_on cache) ≡ captured state
          → is_empty state.cookies ≡ false
      refreshed (err x) q = absurd (cc)
      refreshed (ok fresh) q = ground arith
  on_event_captured browser cache stream_ended w state eq = absurd (cc)

  wait_loop_ok :
      (browser : chrome.Process) (events : List Event) (cache : StorageState h.F64) (w : h.World)
      (state : StorageState h.F64)
      → (wait_loop h chrome browser events cache w).0 ≡ some (ok state)
      → is_empty state.cookies ≡ false
  unfolding wait_loop
  wait_loop_ok browser [] cache w state eq = absurd (cc)
  wait_loop_ok browser (e ∷ events) cache w state eq =
      grind (arith, finish_ok, on_event_captured, wait_loop_ok browser events)

  left_ok :
      (session : BrowserSession chrome) (r : Option (Result (StorageState h.F64))) (w : h.World)
      (x : Result (StorageState h.F64))
      → (left h chrome session (r, w)).0 ≡ some x
      → (r ≡ some x) × ((left h chrome session (r, w)).1.browser_closed ≡ true)
  left_ok session none w x e = absurd (cc)
  left_ok session (some y) w x e = (e, refl)

  -- A state that `wait_and_capture` returns has a cookie, and the browser then counts as closed,
  -- whatever the events and the answers of the browser were.
  pub wait_and_capture-ok :
      (session : BrowserSession chrome) (events : List Event) (w : h.World)
      (state : StorageState h.F64)
      → (wait_and_capture h chrome session events w).0 ≡ some (ok state)
      → (is_empty state.cookies ≡ false)
        × ((wait_and_capture h chrome session events w).1.browser_closed ≡ true)
  unfolding wait_and_capture
  wait_and_capture-ok session events w state =
      heard (listen_both h chrome session.browser w).0 (listen_both h chrome session.browser w).1
    where
      heard :
          (r : Result (Unit {0})) (u : h.World)
          → (listening h chrome session events (r, u)).0 ≡ some (ok state)
          → (is_empty state.cookies ≡ false)
            × ((listening h chrome session events (r, u)).1.browser_closed ≡ true)
      heard (err x) u e = absurd (cc)
      heard (ok x) u e =
          let (eq, closed) = left_ok session _ _ (ok state) e in
          (wait_loop_ok session.browser events _ _ state eq, closed)

  wait_loop_left :
      (browser : chrome.Process) (before after : List Event) (cache : StorageState h.F64)
      (w : h.World)
      → (wait_loop h chrome browser (before ++ (stream_ended ∷ after)) cache w).0 ≡ none
      → ⊥
  unfolding wait_loop on_event
  wait_loop_left browser [] after cache w e = absurd (cc)
  wait_loop_left browser (x ∷ before) after cache w e =
      grind (arith, wait_loop_left browser before after)

  -- Once one of the two event streams has ended, whatever happened before, `wait_and_capture`
  -- returns: it never waits for ever on a browser that is gone.
  pub wait_and_capture_ends :
      (session : BrowserSession chrome) (before after : List Event) (w : h.World)
      → (wait_and_capture h chrome session (before ++ (stream_ended ∷ after)) w).0 ≢ none
  unfolding wait_and_capture
  wait_and_capture_ends session before after w =
      heard (listen_both h chrome session.browser w).0 (listen_both h chrome session.browser w).1
    where
      left_none :
          (r : Option (Result (StorageState h.F64))) (u : h.World)
          → (left h chrome session (r, u)).0 ≡ none
          → r ≡ none
      left_none none u e = refl
      left_none (some x) u e = absurd (cc)

      heard :
          (r : Result (Unit {0})) (u : h.World)
          → (listening h chrome session (before ++ (stream_ended ∷ after)) (r, u)).0 ≡ none
          → ⊥
      heard (err x) u e = absurd (cc)
      heard (ok x) u e = wait_loop_left session.browser before after _ _ (left_none _ _ e)
