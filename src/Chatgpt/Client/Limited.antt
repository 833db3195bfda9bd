-- ===== src/Chatgpt/Client/Limited.antt =====
-- What `get_json` of src/workload/chatgpt.rs says when it is never let through, and what it does then
-- with the largest limit that a configuration can give.
use repossess.Prelude.{
  ℕ, zero, suc, ◌+◌, ◌^◌, ◌≤◌, ◌<◌, Text, true, Option, none, some, ◌≡◌, refl, arith, codes, ◌++◌,
  if_first, ◌==◌, ap, subst, sym,
}
use repossess.Effect.{ok, err, Result, Report, message, in_context, lift, resume, ◌>>=◌}
use repossess.Host.{Host}
use repossess.Web.{Web, Response}
use repossess.Chatgpt.Client.{
  ChatGptClient, Round, stop, again, rate_limited, on_response, get_round, get_loop, get_value,
  get_json, ran_out, request_headers,
}

module _ (h : Host) (web : Web h) (client : ChatGptClient web) (url : Text) where
  -- The error after the last retry.
  abbrev pub limit_reached : Report
  limit_reached = message (
      codes "GET "
      ++ (url
          ++ (codes ": rate limited after " ++ (web.show client.max_retries ++ codes " retries"))))

  -- Every request is answered with 429.
  abbrev pub IsLimiting : Type 0
  IsLimiting =
      (w : h.World)
      → (resp : Response) × ((web.send client.http url (request_headers h web client) w).0
          ≡ ok resp)
        × (resp.status ≡ 429)

module _ (h : Host) (web : Web h) (client : ChatGptClient web) (url : Text)
    (bounded : suc client.max_retries < 2 ^ 32) where
  -- What a loop that is only ever told to wait does with its attempts.
  abbrev Limited : ℕ → Round web.Value → Type 0
  Limited attempt (stop r) =
      (client.max_retries < suc attempt) × (r ≡ err (limit_reached h web client url))
  Limited attempt (again a) = (a ≡ suc attempt) × (a ≤ client.max_retries)

  rate_limited-Limited :
      (attempt : ℕ) (resp : Response) (w : h.World)
      → attempt ≤ client.max_retries
      → Limited attempt (rate_limited h web client url attempt resp w).0
  unfolding rate_limited
  rate_limited-Limited attempt resp w le = ground arith

  on_response-Limited :
      (attempt : ℕ) (resp : Response) (u : h.World)
      → attempt ≤ client.max_retries
      → resp.status ≡ 429
      → Limited attempt (on_response h web client url attempt (ok resp) u).0
  unfolding on_response
  on_response-Limited attempt resp u le e =
      if_first (λ (p : Round web.Value × h.World). Limited attempt p.0) (resp.status == 429) _
        (let q : resp.status == 429 ≡ true = ground arith in q)
        (rate_limited-Limited attempt resp u le)

  get_round-Limited :
      (limiting : IsLimiting h web client url) (attempt : ℕ) (w : h.World)
      → attempt ≤ client.max_retries
      → Limited attempt (get_round h web client url attempt w).0
  unfolding get_round
  get_round-Limited limiting attempt w le =
      let (resp, is_ok, is_limit) = limiting (web.sleep client.rate_delay w) in
      let sent =
        web.send client.http url (request_headers h web client) (web.sleep client.rate_delay w) in
      subst (λ r. Limited attempt (on_response h web client url attempt r sent.1).0) (sym is_ok)
        (on_response-Limited attempt resp sent.1 le is_limit)

  get_loop_limited :
      (limiting : IsLimiting h web client url) (fuel attempt : ℕ) (w : h.World)
      → client.max_retries < attempt + fuel
      → attempt ≤ client.max_retries
      → (after : h.World) × (get_loop h web client fuel url attempt w
          ≡ some (err (limit_reached h web client url), after))
  unfolding get_loop
  get_loop_limited limiting zero attempt w lt le = absurd (omega arith)
  get_loop_limited limiting (suc fuel) attempt w lt le =
      by_round (get_round h web client url attempt w) (get_round-Limited limiting attempt w le)
        (λ a u next in_limit. get_loop_limited limiting fuel a u (omega arith) in_limit)
    where
      by_round :
          (p : Round web.Value × h.World)
          → Limited attempt p.0
          → ((a : ℕ) (u : h.World)
              → a ≡ suc attempt
              → a ≤ client.max_retries
              → (after : h.World) × (get_loop h web client fuel url a u
                  ≡ some (err (limit_reached h web client url), after)))
          → (after : h.World) × (elim p.0 as (λ _. Option (Result web.Value × h.World)) [
            | stop r ↦ some (r, p.1)
            | again attempt' ↦ get_loop h web client fuel url attempt' p.1
          ]
              ≡ some (err (limit_reached h web client url), after))
      by_round (stop r, u) told ih = (u, ap (λ x. some (x, u)) told.1)
      by_round (again a, u) told ih = ih a u told.0 told.1

  -- Unless `max_retries` is the largest u32, `get_json` fails with the error of the last retry if
  -- every request is answered with 429.
  pub get_json-IsLimiting :
      {T : Type 0} (from_value : web.Value → Result T) (w : h.World)
      → IsLimiting h web client url
      → (get_json h web client from_value url w).0 ≡ err (limit_reached h web client url)
  unfolding get_json get_value ◌>>=◌
  get_json-IsLimiting from_value w limiting =
      let (after, e) =
        get_loop_limited limiting (client.max_retries + 1) 0 w (omega arith) (omega arith) in
      ap
        (λ (o : Option (Result web.Value × h.World)).
          (resume (ran_out h web client o w).0
            (λ body.
              lift (in_context (codes "deserialize response from " ++ url) (from_value body)))
            (ran_out h web client o w).1).0)
        e

module _ (h : Host) (web : Web h) (client : ChatGptClient web) (url : Text)
    (unlimited : suc client.max_retries ≡ 2 ^ 32) where
  -- A round that goes on, whichever the attempt.
  abbrev GoesOn : Round web.Value → Type 0
  GoesOn (stop r) = ⊥
  GoesOn (again a) = Unit

  rate_limited-GoesOn :
      (attempt : ℕ) (resp : Response) (w : h.World)
      → GoesOn (rate_limited h web client url attempt resp w).0
  unfolding rate_limited
  rate_limited-GoesOn attempt resp w = ground arith

  get_round-GoesOn :
      (limiting : IsLimiting h web client url) (attempt : ℕ) (w : h.World)
      → GoesOn (get_round h web client url attempt w).0
  unfolding get_round on_response
  get_round-GoesOn limiting attempt w =
      let (resp, is_ok, is_limit) = limiting (web.sleep client.rate_delay w) in
      let sent =
        web.send client.http url (request_headers h web client) (web.sleep client.rate_delay w) in
      subst (λ r. GoesOn (on_response h web client url attempt r sent.1).0) (sym is_ok)
        (if_first (λ (p : Round web.Value × h.World). GoesOn p.0) (resp.status == 429) _
          (let q : resp.status == 429 ≡ true = ground arith in q)
          (rate_limited-GoesOn attempt resp sent.1))

  -- With `max_retries` the largest u32, `attempt` wraps around before it can exceed it: if every
  -- request is answered with 429, the loop runs out of any fuel, so the source never returns.
  pub get_loop_endless :
      IsLimiting h web client url
      → (fuel attempt : ℕ) (w : h.World) → get_loop h web client fuel url attempt w ≡ none
  unfolding get_loop
  get_loop_endless limiting zero attempt w = refl
  get_loop_endless limiting (suc fuel) attempt w =
      by_round (get_round h web client url attempt w) (get_round-GoesOn limiting attempt w)
        (λ a u. get_loop_endless limiting fuel a u)
    where
      by_round :
          (p : Round web.Value × h.World)
          → GoesOn p.0
          → ((a : ℕ) (u : h.World) → get_loop h web client fuel url a u ≡ none)
          → elim p.0 as (λ _. Option (Result web.Value × h.World)) [
            | stop r ↦ some (r, p.1)
            | again attempt' ↦ get_loop h web client fuel url attempt' p.1
          ]
            ≡ none
      by_round (stop r, u) on ih = absurd on
      by_round (again a, u) on ih = ih a u
