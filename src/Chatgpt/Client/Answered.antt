-- ===== src/Chatgpt/Client/Answered.antt =====
-- What `get_json` of src/workload/chatgpt.rs takes for an answer.
use repossess.Prelude.{
  ℕ, zero, suc, ◌+◌, Text, Bool, true, Option, some, none, ◌≡◌, ◌≢◌, refl, arith, codes, ◌++◌,
  if◌then◌else◌, ◌==◌, ◌∙◌, ap, subst,
}
use repossess.Effect.{ok, err, Result, Report, message, in_context, lift}
use repossess.Effect.Rules.{ok_injective, bind_rule, ok_of_context}
use repossess.Host.{Host}
use repossess.Web.{Web, Response}
use repossess.Chats.Client.{is_success}
use repossess.Chatgpt.Client.{
  ChatGptClient, Round, stop, again, rate_limited, on_response, get_round, get_loop, get_value,
  get_json, ran_out, request_headers, api_error, checked, parsed,
}

module _ (h : Host) (web : Web h) (client : ChatGptClient web) (url : Text) where
  -- The value is the body of a response with a success status, and says nothing of an error.
  pub record IsAnswer (resp : Response) (v : web.Value) : Type 0 where
    pub raw : Text
    pub success : is_success resp.status ≡ true
    pub has_body : resp.body ≡ ok raw
    pub is_parsed : web.parse_json raw ≡ ok v
    pub no_error : api_error h web client v ≡ none

  -- It is the response to a request for this URL, with the token, and nothing is done after it.
  abbrev pub Answered : web.Value → h.World → Type 0
  Answered v after =
      (resp : Response) × (before : h.World) × (web.send client.http url
          (request_headers h web client) before
        ≡ (ok resp, after))
      × IsAnswer resp v

  checked_ok :
      (body v : web.Value)
      → checked h web client url body ≡ ok v
      → (body ≡ v) × (api_error h web client v ≡ none)
  checked_ok body v = split (api_error h web client body) refl
    where
      split :
          (e : Option Text)
          → api_error h web client body ≡ e
          → elim e as (λ _. Result web.Value) [
            | none ↦ ok body
            | some x ↦ err (message (codes "API error from " ++ (url ++ (codes ": " ++ x))))
          ]
            ≡ ok v
          → (body ≡ v) × (api_error h web client v ≡ none)
      split none is_none q =
          let same = ok_injective q in
          (same, subst (λ b. api_error h web client b ≡ none) same is_none)
      split (some x) is_some q = absurd (cc)

  parsed_ok :
      (resp : Response) (v : web.Value)
      → is_success resp.status ≡ true
      → parsed h web client url resp.body ≡ ok v
      → IsAnswer resp v
  parsed_ok resp v success = of_body resp.body refl
    where
      of_json :
          (raw : Text) (r : Result web.Value)
          → resp.body ≡ ok raw
          → web.parse_json raw ≡ r
          → elim (in_context (codes "parse JSON from " ++ url) r) as (λ _. Result web.Value) [
            | err e ↦ err e
            | ok body ↦ checked h web client url body
          ]
            ≡ ok v
          → IsAnswer resp v
      of_json raw (err e) has_body is_parsed q = absurd (cc)
      of_json raw (ok body) has_body is_parsed q =
          let (same, no_error) = checked_ok body v q in
          record {
            raw = raw;
            success = success;
            has_body = has_body;
            is_parsed = is_parsed ∙ ap ok same;
            no_error = no_error;
          }

      of_body :
          (b : Result Text) → resp.body ≡ b → parsed h web client url b ≡ ok v → IsAnswer resp v
      of_body (err e) has_body q = absurd (cc)
      of_body (ok raw) has_body q = of_json raw (web.parse_json raw) has_body refl q

  rate_limited-ne :
      (attempt : ℕ) (resp : Response) (w : h.World) (v : web.Value)
      → (rate_limited h web client url attempt resp w).0 ≢ stop (ok v)
  unfolding rate_limited
  rate_limited-ne attempt resp w v e = ground arith

  -- The last branch but one is the only one that returns a value.
  picked :
      (a b c : Bool) (limited : Round web.Value × h.World) (x y : Report) (w : h.World)
      (r : Result web.Value) (v : web.Value) (after : h.World)
      → limited.0 ≢ stop (ok v)
      → (if a
          then limited
          else if b
          then (stop (err x), w)
          else if c
          then (stop r, w)
          else (stop (err y), w))
        ≡ (stop (ok v), after)
      → (c ≡ true) × (r ≡ ok v) × (w ≡ after)
  picked a b c limited x y w r v after ne e = ground arith

  on_response-stop :
      (attempt : ℕ) (r : Result Response) (before : h.World) (w after : h.World) (v : web.Value)
      → web.send client.http url (request_headers h web client) before ≡ (r, w)
      → on_response h web client url attempt r w ≡ (stop (ok v), after)
      → Answered v after
  unfolding on_response
  on_response-stop attempt (err x) before w after v sent e = absurd (cc)
  on_response-stop attempt (ok resp) before w after v sent e =
      let (success, is_ok, same) =
        picked (resp.status == 429) (resp.status == 401) (is_success resp.status)
          (rate_limited h web client url attempt resp w) _ _ w (parsed h web client url resp.body) v
          after (rate_limited-ne attempt resp w v) e in
      (resp, before, sent ∙ ap (λ u. (ok resp, u)) same, parsed_ok resp v success is_ok)

  get_loop_ok :
      (fuel attempt : ℕ) (w : h.World) (v : web.Value) (after : h.World)
      → get_loop h web client fuel url attempt w ≡ some (ok v, after)
      → Answered v after
  unfolding get_loop
  get_loop_ok zero attempt w v after e = absurd (cc)
  get_loop_ok (suc fuel) attempt w v after e =
      by_round (get_round h web client url attempt w) refl (λ a u. get_loop_ok fuel a u v after) e
    where
      back : h.World → Option (Result web.Value × h.World) → Round web.Value × h.World
      back u none = (again 0, u)
      back u (some p) = (stop p.0, p.1)

      rounded :
          (r : Result web.Value) (u : h.World)
          → get_round h web client url attempt w ≡ (stop r, u)
          → ◌≡◌ {A = Option (Result web.Value × h.World)} (some (r, u)) (some (ok v, after))
          → Answered v after
      rounded r u round q =
          on_response-stop attempt _ (web.sleep client.rate_delay w) _ after v refl
            (unfold get_round in (round ∙ ap (back u) q))

      by_round :
          (p : Round web.Value × h.World)
          → get_round h web client url attempt w ≡ p
          → ((a : ℕ) (u : h.World)
              → get_loop h web client fuel url a u ≡ some (ok v, after)
              → Answered v after)
          → elim p.0 as (λ _. Option (Result web.Value × h.World)) [
            | stop r ↦ some (r, p.1)
            | again attempt' ↦ get_loop h web client fuel url attempt' p.1
          ]
            ≡ some (ok v, after)
          → Answered v after
      by_round (stop r, u) round ih q = rounded r u round q
      by_round (again a, u) round ih q = ih a u q

  get_value_ok :
      (w : h.World) (v : web.Value)
      → (get_value h web client url w).0 ≡ ok v
      → Answered v (get_value h web client url w).1
  unfolding get_value
  get_value_ok w v e = by_end (get_loop h web client (client.max_retries + 1) url 0 w) refl e
    where
      by_end :
          (o : Option (Result web.Value × h.World))
          → get_loop h web client (client.max_retries + 1) url 0 w ≡ o
          → (ran_out h web client o w).0 ≡ ok v
          → Answered v (ran_out h web client o w).1
      by_end none is_end q = absurd (cc)
      by_end (some r) is_end q =
          get_loop_ok (client.max_retries + 1) 0 w v r.1 (is_end ∙ ap (λ x. some (x, r.1)) q)

  -- What `get_json` returns was read from a body that parses, came with a success status in reply
  -- to a request with the token, and has no `detail` that is a text or an object; nothing follows
  -- that request.
  pub get_json-Answered :
      {T : Type 0} (from_value : web.Value → Result T) (w : h.World) (t : T)
      → (get_json h web client from_value url w).0 ≡ ok t
      → (v : web.Value) × (from_value v ≡ ok t)
        × Answered v (get_json h web client from_value url w).1
  unfolding get_json
  get_json-Answered {T} from_value w t =
      bind_rule P (λ body. lift (in_context _ (from_value body))) (get_value h web client url) w
        (λ x _ bad. absurd (cc)) λ v is_ok e. (v, ok_of_context _ _ e, get_value_ok w v is_ok)
    where
      P : Result T → h.World → Type 0
      P r u = r ≡ ok t → (v : web.Value) × (from_value v ≡ ok t) × Answered v u
