-- ===== src/Chatgpt/Client/Offline.antt =====
-- The client of src/workload/chatgpt.rs and the stored objects.
use repossess.Prelude.{ℕ, zero, suc, Text, Option, none, some, List, ◌≡◌, ◌∙◌, ◌==◌, if_both}
use repossess.Effect.{Result, ok, err}
use repossess.Effect.Keeps.{Keeps, Keeps-pure, Keeps-bail, Keeps-if, Keeps-bind, keeps_rules}
use repossess.Host.{Host}
use repossess.Stores.Contract.{View, Object}
use repossess.Web.{Web, Response}
use repossess.Chats.Client.{is_success}
use repossess.Chatgpt.{Formats}
use repossess.Chatgpt.Client.{
  ChatGptClient, Round, stop, again, new, made, token_of, rate_limited, on_response, get_round,
  get_loop, get_value, get_json, ran_out, list_conversations, get_conversation,
}

module _ (h : Host) (view : View h) (web : Web h) where
  -- Requests and timers are no writes to the store.
  pub record IsOffline : Type 0 where
    pub send_view :
        (http : web.Client) (url : Text) (headers : List (Text × Text)) (j : Text) (w : h.World)
        → view (web.send http url headers w).1 j ≡ view w j
    pub sleep_view : (ms : ℕ) (j : Text) (w : h.World) → view (web.sleep ms w) j ≡ view w j

  module _ (offline : IsOffline) (j : Text) (o : Option (Object h)) where
    P : h.World → Type 0
    P w = view w j ≡ o

    send-P :
        (http : web.Client) (url : Text) (headers : List (Text × Text))
        → Keeps P (web.send http url headers)
    unfolding P
    send-P http url headers = record { at = λ w e. offline.send_view http url headers j w ∙ e }

    ruleset sent = (keeps_rules, send-P)

    pub new-Keeps :
        (http : web.Client) (base_url : Text) (rate_delay max_retries : ℕ)
        → Keeps (λ w. view w j ≡ o) (new h web http base_url rate_delay max_retries)
    unfolding new P
    new-Keeps http base_url rate_delay max_retries = Keeps-bind _ _ (search sent depth 10) λ resp.
        Keeps-if (is_success resp.status) _ _
          (Keeps-bind _ _ (search sent depth 10) λ session. by_token (token_of h web session))
          (Keeps-bail _)
      where
        by_token : (t : Option Text) → Keeps P (made h web http base_url rate_delay max_retries t)
        by_token none = Keeps-bail _
        by_token (some t) = Keeps-pure _

    module _ (client : ChatGptClient web) (url : Text) where
      on_response-P :
          (attempt : ℕ) (r : Result Response) (w : h.World)
          → P w
          → P (on_response h web client url attempt r w).1
      unfolding on_response rate_limited P
      on_response-P attempt (err e) w p = p
      on_response-P attempt (ok resp) w p =
          if_both Q (resp.status == 429) (if_both Q _ p (offline.sleep_view _ j w ∙ p))
            (if_both Q (resp.status == 401) p (if_both Q (is_success resp.status) p p))
        where
          Q : Round web.Value × h.World → Type 0
          Q x = view x.1 j ≡ o

      get_round-P : (attempt : ℕ) (w : h.World) → P w → P (get_round h web client url attempt w).1
      unfolding get_round P
      get_round-P attempt w p =
          on_response-P attempt _ _ (offline.send_view _ _ _ j _ ∙ (offline.sleep_view _ j w ∙ p))

      abbrev End : Option (Result web.Value × h.World) → Type 0
      End none = Unit
      End (some r) = view r.1 j ≡ o

      get_loop-End :
          (fuel attempt : ℕ) (w : h.World) → P w → End (get_loop h web client fuel url attempt w)
      unfolding get_loop P
      get_loop-End zero attempt w p = tt
      get_loop-End (suc fuel) attempt w p =
          ended (get_round h web client url attempt w) (get_round-P attempt w p)
            (λ a u q. get_loop-End fuel a u q)
        where
          ended :
              (x : Round web.Value × h.World)
              → P x.1
              → ((a : ℕ) (u : h.World) → P u → End (get_loop h web client fuel url a u))
              → End (elim x.0 as (λ _. Option (Result web.Value × h.World)) [
                | stop r ↦ some (r, x.1)
                | again a ↦ get_loop h web client fuel url a x.1
              ])
          ended (stop r, u) q ih = q
          ended (again a, u) q ih = ih a u q

      get_value-P : Keeps P (get_value h web client url)
      unfolding get_value P
      get_value-P = record {
        at = λ w p. out (get_loop h web client _ url 0 w) w p (get_loop-End _ 0 w p);
      }
        where
          out :
              (x : Option (Result web.Value × h.World)) (w : h.World)
              → P w
              → End x
              → P (ran_out h web client x w).1
          out none w p e = p
          out (some r) w p e = e

      get_json-P : {T : Type 0} (f : web.Value → Result T) → Keeps P (get_json h web client f url)
      unfolding get_json
      get_json-P f = search (keeps_rules, get_value-P) depth 10

    module _ (client : ChatGptClient web) where
      pub list-Keeps :
          (offset limit : ℕ)
          → Keeps (λ w. view w j ≡ o) (list_conversations h web client offset limit)
      unfolding list_conversations P
      list-Keeps offset limit = get_json-P client _ _

      pub get-Keeps :
          (formats : Formats h web) (id : Text)
          → Keeps (λ w. view w j ≡ o) (get_conversation h web client formats id)
      unfolding get_conversation P
      get-Keeps formats id = get_json-P client _ _
