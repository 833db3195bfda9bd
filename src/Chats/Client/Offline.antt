-- ===== src/Chats/Client/Offline.antt =====
-- The HTTP client leaves the stored objects alone.
use repossess.Prelude.{
  ℕ, zero, suc, Text, Bool, true, false, Option, none, some, List, ◌≡◌, refl, ◌∙◌, ◌==◌, if_both,
}
use repossess.Effect.{Result, ok, err}
use repossess.Effect.Keeps.{Keeps}
use repossess.Config.{ChatgptChatsCfg}
use repossess.Host.{Host}
use repossess.Stores.Contract.{View}
use repossess.Web.{Web, Response}
use repossess.Chats.Client.{
  Fetch, Round, stop, again, Session, back_off, refresh, after_refresh, on_response, get_round,
  get_loop, get_json, ran_out, list, get_raw, fetch_session, is_success, is_server_error,
  request_headers,
}

module _ (h : Host) (view : View h) (web : Web h) (http : web.Client) (cfg : ChatgptChatsCfg) where
  -- Requests and timers are no writes to the store.
  pub record IsApart : Type 0 where
    pub send_view :
        (url : Text) (headers : List (Text × Text)) (j : Text) (w : h.World)
        → view (web.send http url headers w).1 j ≡ view w j
    pub sleep_view : (ms : ℕ) (j : Text) (w : h.World) → view (web.sleep ms w) j ≡ view w j

  module _ (apart : IsApart) (j : Text) where
    abbrev pub Same : Session h → Session h → Type 0
    Same s s' = view s'.world j ≡ view s.world j

    fetch_session-view : (w : h.World) → view (fetch_session h web http cfg w).1 j ≡ view w j
    unfolding fetch_session
    fetch_session-view w = apart.send_view _ _ j w

    pub fetch_session-Keeps : (o : _) → Keeps (λ w. view w j ≡ o) (fetch_session h web http cfg)
    fetch_session-Keeps o = record { at = λ w e. fetch_session-view w ∙ e }

    back_off-Same :
        (attempt : ℕ) (refreshed : Bool) (wait : ℕ) (s : Session h)
        → Same s (back_off h web http cfg attempt refreshed wait s).1
    unfolding back_off
    back_off-Same attempt refreshed wait s =
        if_both (λ (p : Round web.Value × Session h). Same s p.1) _ refl
          (apart.sleep_view wait j s.world)

    refresh-Same :
        (attempt : ℕ) (refreshed : Bool) (s : Session h)
        → Same s (refresh h web http cfg attempt refreshed s).1
    refresh-Same attempt true s = unfold refresh in refl
    refresh-Same attempt false s =
        unfold refresh in
        after (fetch_session h web http cfg s.world).0
          (record s { world = (fetch_session h web http cfg s.world).1 })
          (fetch_session-view s.world)
      where
        after :
            (r : Result Text) (s' : Session h)
            → Same s s'
            → Same s (after_refresh h web http cfg attempt r s').1
        after (err e) s' same = same
        after (ok t) s' same = same

    on_response-Same :
        (attempt : ℕ) (refreshed : Bool) (r : Result Response) (s : Session h)
        → Same s (on_response h web http cfg attempt refreshed r s).1
    unfolding on_response
    on_response-Same attempt refreshed (err e) s = refl
    on_response-Same attempt refreshed (ok resp) s =
        if_both P (resp.status == 429) (back_off-Same attempt refreshed _ s) (
          if_both P (resp.status == 401) (refresh-Same attempt refreshed s) (
            if_both P (is_server_error resp.status) (back_off-Same attempt refreshed _ s)
              (if_both P (is_success resp.status) refl refl)))
      where
        P : Round web.Value × Session h → Type 0
        P p = Same s p.1

    get_round-Same :
        (url : Text) (attempt : ℕ) (refreshed : Bool) (s : Session h)
        → Same s (get_round h web http cfg url attempt refreshed s).1
    unfolding get_round
    get_round-Same url attempt refreshed s =
        let sent = web.send http url (request_headers h web http cfg s.token) s.world in
        on_response-Same attempt refreshed sent.0 (record s { world = sent.1 })
        ∙ apart.send_view url _ j s.world

    -- Whatever the loop ends with.
    abbrev SameEnd : Session h → Option (Fetch web.Value × Session h) → Type 0
    SameEnd s none = Unit
    SameEnd s (some r) = Same s r.1

    get_loop-Same :
        (fuel : ℕ) (url : Text) (attempt : ℕ) (refreshed : Bool) (s : Session h)
        → SameEnd s (get_loop h web http cfg fuel url attempt refreshed s)
    unfolding get_loop
    get_loop-Same zero url attempt refreshed s = tt
    get_loop-Same (suc fuel) url attempt refreshed s =
        ended (get_round h web http cfg url attempt refreshed s).0
          (get_round h web http cfg url attempt refreshed s).1
          (get_round-Same url attempt refreshed s) (λ a b s'. get_loop-Same fuel url a b s')
      where
        along :
            (s' : Session h) (o : Option (Fetch web.Value × Session h))
            → Same s s'
            → SameEnd s' o
            → SameEnd s o
        along s' none same e = tt
        along s' (some r) same e = e ∙ same

        ended :
            (round : Round web.Value) (s' : Session h)
            → Same s s'
            → ((a : ℕ) (b : Bool) (s' : Session h)
                → SameEnd s' (get_loop h web http cfg fuel url a b s'))
            → SameEnd s (elim round [
              | stop r ↦ some (r, s')
              | again a b ↦ get_loop h web http cfg fuel url a b s'
            ])
        ended (stop r) s' same ih = same
        ended (again a b) s' same ih = along s' _ same (ih a b s')

    get_json-Same : (url : Text) (s : Session h) → Same s (get_json h web http cfg url s).1
    unfolding get_json
    get_json-Same url s = out _ (get_loop-Same _ url 0 false s)
      where
        out :
            (o : Option (Fetch web.Value × Session h))
            → SameEnd s o
            → Same s (ran_out h web http cfg o s).1
        out none e = refl
        out (some r) e = e

    pub get_raw-Same : (id : Text) (s : Session h) → Same s (get_raw h web http cfg id s).1
    unfolding get_raw
    get_raw-Same id s = get_json-Same _ s

    pub list-Keeps :
        (o : _) (offset limit : ℕ)
        → Keeps (λ (s : Session h). view s.world j ≡ o) (list h web http cfg offset limit)
    unfolding list
    list-Keeps o offset limit = record { at = λ s e. get_json-Same _ s ∙ e }
