-- ===== src/Chats/Client/Retries.antt =====
-- The retry loop returns: the fuel that `get_json` gives it is enough, unless `max_retries` is the
-- largest u32.
use repossess.Prelude.{
  ℕ, zero, suc, ◌+◌, ◌-◌, ◌^◌, ◌≤◌, ◌<◌, Text, Bool, true, false, Option, some, ◌≡◌, refl, arith,
  if◌then◌else◌, ◌==◌, if_both, ◌∙◌, ap, subst, sym,
}
use repossess.Effect.{ok, err, Result}
use repossess.Config.{ChatgptChatsCfg}
use repossess.Host.{Host}
use repossess.Web.{Web, Response}
use repossess.Chats.Client.{
  Fetch, Round, stop, again, Session, back_off, refresh, on_response, get_round, get_loop, get_json,
  ran_out, request_headers, fuel_of_get, is_success, is_server_error,
}

module _ (h : Host) (web : Web h) (http : web.Client) (cfg : ChatgptChatsCfg)
    (bounded : suc cfg.max_retries < 2 ^ 32) where
  -- The rounds that may still follow: one for every retry left, and one for a refresh.
  abbrev pub budget : ℕ → Bool → ℕ
  budget attempt refreshed = (cfg.max_retries - attempt) + (if refreshed then 0 else 1)

  -- A round that goes on leaves less of the budget.
  abbrev GoesDown : ℕ → Bool → Round web.Value → Type 0
  GoesDown attempt refreshed (stop r) = Unit
  GoesDown attempt refreshed (again attempt' refreshed') =
      (attempt' ≤ cfg.max_retries) × (budget attempt' refreshed' < budget attempt refreshed)

  back_off-GoesDown :
      (attempt : ℕ) (refreshed : Bool) (wait : ℕ) (s : Session h)
      → attempt ≤ cfg.max_retries
      → GoesDown attempt refreshed (back_off h web http cfg attempt refreshed wait s).0
  unfolding back_off
  back_off-GoesDown attempt refreshed wait s le = ground arith

  refresh-GoesDown :
      (attempt : ℕ) (refreshed : Bool) (s : Session h)
      → attempt ≤ cfg.max_retries
      → GoesDown attempt refreshed (refresh h web http cfg attempt refreshed s).0
  unfolding refresh
  refresh-GoesDown attempt true s le = tt
  refresh-GoesDown attempt false s le = ground arith

  on_response-GoesDown :
      (attempt : ℕ) (refreshed : Bool) (r : Result Response) (s : Session h)
      → attempt ≤ cfg.max_retries
      → GoesDown attempt refreshed (on_response h web http cfg attempt refreshed r s).0
  unfolding on_response
  on_response-GoesDown attempt refreshed (err e) s le = tt
  on_response-GoesDown attempt refreshed (ok resp) s le =
      if_both P (resp.status == 429) (back_off-GoesDown attempt refreshed _ s le) (
        if_both P (resp.status == 401) (refresh-GoesDown attempt refreshed s le) (
          if_both P (is_server_error resp.status) (back_off-GoesDown attempt refreshed _ s le)
            (if_both P (is_success resp.status) tt tt)))
    where
      P : Round web.Value × Session h → Type 0
      P p = GoesDown attempt refreshed p.0

  get_round-GoesDown :
      (url : Text) (attempt : ℕ) (refreshed : Bool) (s : Session h)
      → attempt ≤ cfg.max_retries
      → GoesDown attempt refreshed (get_round h web http cfg url attempt refreshed s).0
  unfolding get_round
  get_round-GoesDown url attempt refreshed s le =
      let sent = web.send http url (request_headers h web http cfg s.token) s.world in
      on_response-GoesDown attempt refreshed sent.0 (record s { world = sent.1 }) le

  -- What the rest of the loop gives, once its round is known.
  module _ (url : Text) where
    rest : ℕ → Round web.Value → Session h → Option (Fetch web.Value × Session h)
    rest fuel round s' = elim round [
      | stop r ↦ some (r, s')
      | again a b ↦ get_loop h web http cfg fuel url a b s'
    ]

    abbrev Ends : ℕ → (ℕ → Option (Fetch web.Value × Session h)) → Type 0
    Ends fuel loop =
        (r : Fetch web.Value × Session h) × ((extra : ℕ) → loop (fuel + extra) ≡ some r)

    get_loop-suc :
        (fuel attempt : ℕ) (refreshed : Bool) (s : Session h)
        → get_loop h web http cfg (suc fuel) url attempt refreshed s
          ≡ rest fuel
              (get_round h web http cfg url attempt refreshed s).0
              (get_round h web http cfg url attempt refreshed s).1
    unfolding get_loop rest
    get_loop-suc fuel attempt refreshed s = refl

    rest-Ends :
        (fuel attempt : ℕ) (refreshed : Bool) (round : Round web.Value) (s' : Session h)
        → GoesDown attempt refreshed round
        → budget attempt refreshed ≤ fuel
        → ((a : ℕ) (b : Bool)
            → a ≤ cfg.max_retries
            → budget a b < fuel
            → Ends fuel (λ n. get_loop h web http cfg n url a b s'))
        → Ends fuel (λ n. rest n round s')
    unfolding rest
    rest-Ends fuel attempt refreshed (stop r) s' down le ih = ((r, s'), λ _. refl)
    rest-Ends fuel attempt refreshed (again a b) s' down le ih = ih a b down.0 (omega arith)

    get_loop-Ends :
        (fuel attempt : ℕ) (refreshed : Bool) (s : Session h)
        → attempt ≤ cfg.max_retries
        → budget attempt refreshed < fuel
        → Ends fuel (λ n. get_loop h web http cfg n url attempt refreshed s)
    get_loop-Ends zero attempt refreshed s le lt = absurd (omega arith)
    get_loop-Ends (suc fuel) attempt refreshed s le lt =
        let (r, e) =
          rest-Ends fuel attempt refreshed (get_round h web http cfg url attempt refreshed s).0
            (get_round h web http cfg url attempt refreshed s).1
            (get_round-GoesDown url attempt refreshed s le) (omega arith)
            (λ a b le' lt'. get_loop-Ends fuel a b _ le' lt') in
        (
          r,
          λ extra.
              let q : suc fuel + extra ≡ suc (fuel + extra) = omega arith in
              rw q (get_loop-suc (fuel + extra) attempt refreshed s ∙ e extra),
        )

  -- Unless `max_retries` is the largest u32, the loop ends after at most `max_retries + 2` rounds,
  -- whatever the server answers: it returns with that much fuel, and with any more fuel it returns
  -- the same. A round sends one GET of the URL and does what its answer asks for.
  pub get_json_total :
      (url : Text) (s : Session h)
      → (r : Fetch web.Value × Session h) × ((extra : ℕ)
          → get_loop h web http cfg (fuel_of_get h web http cfg + extra) url 0 false s ≡ some r)
        × (get_json h web http cfg url s ≡ r)
  unfolding get_json
  get_json_total url s =
      let (r, e) = get_loop-Ends url (cfg.max_retries + 2) 0 false s (omega arith) (omega arith) in
      let now : get_loop h web http cfg (fuel_of_get h web http cfg) url 0 false s ≡ some r =
        let q : fuel_of_get h web http cfg ≡ fuel_of_get h web http cfg + 0 = omega arith in
        subst (λ n. get_loop h web http cfg n url 0 false s ≡ some r) (sym q) (e 0) in
      (r, e, ap (λ o. ran_out h web http cfg o s) now)
