-- ===== src/Chatgpt/Client/Bounded.antt =====
-- How often `get_json` of src/workload/chatgpt.rs asks, and how long it waits.
use repossess.Prelude.{
  ℕ, zero, suc, ◌+◌, ◌≤◌, ◌<◌, Text, Option, some, ◌≡◌, refl, arith, ◌==◌, if_both, ◌∙◌, ap, subst,
  sym, ◌*◌, ◌^◌, min,
}
use repossess.Effect.{ok, err, Result}
use repossess.Host.{Host}
use repossess.Web.{Web, Response}
use repossess.Chats.Client.{is_success}
use repossess.Chatgpt.Client.{
  ChatGptClient, Round, stop, again, rate_limited, on_response, get_round, get_loop, get_value,
  ran_out, default_backoff,
}

module _ (h : Host) (web : Web h) (client : ChatGptClient web)
    (bounded : suc client.max_retries < 2 ^ 32) where
  -- A round that goes on is the next attempt, within the limit.
  abbrev IsNext : ℕ → Round web.Value → Type 0
  IsNext attempt (stop r) = Unit
  IsNext attempt (again attempt') = (attempt' ≡ suc attempt) × (attempt' ≤ client.max_retries)

  rate_limited-IsNext :
      (url : Text) (attempt : ℕ) (resp : Response) (w : h.World)
      → attempt ≤ client.max_retries
      → IsNext attempt (rate_limited h web client url attempt resp w).0
  unfolding rate_limited
  rate_limited-IsNext url attempt resp w le = ground arith

  on_response-IsNext :
      (url : Text) (attempt : ℕ) (r : Result Response) (w : h.World)
      → attempt ≤ client.max_retries
      → IsNext attempt (on_response h web client url attempt r w).0
  unfolding on_response
  on_response-IsNext url attempt (err e) w le = tt
  on_response-IsNext url attempt (ok resp) w le =
      if_both P (resp.status == 429) (rate_limited-IsNext url attempt resp w le)
        (if_both P (resp.status == 401) tt (if_both P (is_success resp.status) tt tt))
    where
      P : Round web.Value × h.World → Type 0
      P p = IsNext attempt p.0

  module _ (url : Text) where
    rest : ℕ → Round web.Value → h.World → Option (Result web.Value × h.World)
    rest fuel round w = elim round [
      | stop r ↦ some (r, w)
      | again attempt ↦ get_loop h web client fuel url attempt w
    ]

    abbrev Ends : ℕ → (ℕ → Option (Result web.Value × h.World)) → Type 0
    Ends fuel loop = (r : Result web.Value × h.World) × ((extra : ℕ) → loop (fuel + extra) ≡ some r)

    get_loop-suc :
        (fuel attempt : ℕ) (w : h.World)
        → get_loop h web client (suc fuel) url attempt w
          ≡ rest fuel
              (get_round h web client url attempt w).0
              (get_round h web client url attempt w).1
    unfolding get_loop rest
    get_loop-suc fuel attempt w = refl

    rest-Ends :
        (fuel attempt : ℕ) (round : Round web.Value) (w : h.World)
        → IsNext attempt round
        → client.max_retries ≤ attempt + fuel
        → ((a : ℕ)
            → a ≤ client.max_retries
            → client.max_retries < a + fuel
            → Ends fuel (λ n. get_loop h web client n url a w))
        → Ends fuel (λ n. rest n round w)
    unfolding rest
    rest-Ends fuel attempt (stop r) w next le ih = ((r, w), λ _. refl)
    rest-Ends fuel attempt (again a) w next le ih = ih a next.1 (omega (arith, next.0))

    get_loop-Ends :
        (fuel attempt : ℕ) (w : h.World)
        → attempt ≤ client.max_retries
        → client.max_retries < attempt + fuel
        → Ends fuel (λ n. get_loop h web client n url attempt w)
    get_loop-Ends zero attempt w le lt = absurd (omega arith)
    get_loop-Ends (suc fuel) attempt w le lt =
        let sent = get_round h web client url attempt w in
        let (r, e) =
          rest-Ends fuel attempt sent.0 sent.1
            (unfold get_round in on_response-IsNext url attempt _ _ le) (omega arith)
            (λ a le' lt'. get_loop-Ends fuel a _ le' lt') in
        (
          r,
          λ extra.
              let q : suc fuel + extra ≡ suc (fuel + extra) = omega arith in
              rw q (get_loop-suc (fuel + extra) attempt w ∙ e extra),
        )

  -- Unless `max_retries` is the largest u32, `get_json` ends after at most `max_retries + 1` requests,
  -- whatever the server answers: the loop returns with that much fuel, and with any more fuel it
  -- returns the same.
  pub get_value_total :
      (url : Text) (w : h.World)
      → (r : Result web.Value × h.World) × ((extra : ℕ)
          → get_loop h web client (client.max_retries + 1 + extra) url 0 w ≡ some r)
        × (get_value h web client url w ≡ r)
  unfolding get_value
  get_value_total url w =
      let (r, e) = get_loop-Ends url (client.max_retries + 1) 0 w (omega arith) (omega arith) in
      let now : get_loop h web client (client.max_retries + 1) url 0 w ≡ some r =
        let q : client.max_retries + 1 ≡ client.max_retries + 1 + 0 = omega arith in
        subst (λ n. get_loop h web client n url 0 w ≡ some r) (sym q) (e 0) in
      (r, e, ap (λ o. ran_out h web client o w) now)

-- Without a usable `retry-after`, the wait before attempt n + 1 is 60, 120 or 240 seconds for the
-- first three, and 480 from then on; the power never grows past 16, so it cannot overflow.
pub default_backoff_table :
    (n : ℕ)
    → (default_backoff 1 ≡ 60)
      × (default_backoff 2 ≡ 120)
      × (default_backoff 3 ≡ 240)
      × (default_backoff (4 + n) ≡ 480)
unfolding default_backoff
default_backoff_table n =
    (refl, refl, refl, let q : min (4 + n) 4 ≡ 4 = omega arith in ap (λ k. 30 * 2 ^ k) q)
