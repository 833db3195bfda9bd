-- ===== src/Commands/Export/Untouched.antt =====
-- src/commands/export.rs and the other objects of the store.
use repossess.Prelude.{
  ℕ, Text, false, Option, none, some, List, [], ◌∷◌, ◌≡◌, ◌∙◌, text_eq, is_empty,
}
use repossess.Effect.{Result, ok, err}
use repossess.Effect.Keeps.{Keeps, Keeps-pure, Keeps-lift, Keeps-if, Keeps-bind, keeps_rules}
use repossess.Config.{ExportCfg}
use repossess.Host.{Host}
use repossess.Stores.{SnapshotStore}
use repossess.Stores.Contract.{View, Object, IsLawful}
use repossess.Web.{Web, ConversationSummary}
use repossess.Browser.Http.{Reqwest}
use repossess.Chatgpt.{ConversationDetail, Formats}
use repossess.Chatgpt.Client.{ChatGptClient, get_conversation}
use repossess.Chatgpt.Client.Offline.{IsOffline, new-Keeps, list-Keeps, get-Keeps}
use repossess.Commands.Export.{
  json_key, md_key, restore_state, choose, first_accessible, save, save_found, put_markdown,
  export_first, export_session,
}

module _ (h : Host) (view : View h) (s : SnapshotStore h) (law : IsLawful h view s) (web : Web h)
    (offline : IsOffline h view web) (formats : Formats h web) (cfg : ExportCfg) (fuel : ℕ)
    (j : Text) (not_json : (id : Text) → text_eq (json_key cfg.prefix id) j ≡ false)
    (not_md : (id : Text) → text_eq (md_key cfg.prefix id) j ≡ false) (o : Option (Object h)) where
  P : h.World → Type 0
  P w = view w j ≡ o

  get-P : (k : Text) → Keeps P (s.get k)
  unfolding P
  get-P k = record { at = λ w e. law.get_view k j w ∙ e }

  put_json-P : (id : Text) (b : h.Bytes) → Keeps P (s.put (json_key cfg.prefix id) b)
  unfolding P
  put_json-P id b = record { at = λ w e. law.put_other _ j b w (not_json id) ∙ e }

  put_md-P : (id : Text) (b : h.Bytes) → Keeps P (s.put (md_key cfg.prefix id) b)
  unfolding P
  put_md-P id b = record { at = λ w e. law.put_other _ j b w (not_md id) ∙ e }

  ruleset stored = (keeps_rules, get-P, put_json-P, put_md-P)

  restore_state-P : (i : h.Identity) (v : h.VerifyingKey) → Keeps P (restore_state h s i v)
  unfolding restore_state
  restore_state-P i v = search stored depth 30

  put_markdown-P :
      (d : ConversationDetail h.F64 web.Value) (m : Option Text)
      → Keeps P (put_markdown h web formats s cfg fuel d m)
  put_markdown-P d none = Keeps-pure _
  put_markdown-P d (some md) = search stored depth 10

  save-P : (d : ConversationDetail h.F64 web.Value) → Keeps P (save h web formats s cfg fuel d)
  unfolding save
  save-P d = search (stored, put_markdown-P) depth 10

  save_found-P :
      (d : Option (ConversationDetail h.F64 web.Value))
      → Keeps P (save_found h web formats s cfg fuel d)
  save_found-P none = Keeps-pure _
  save_found-P (some d) = save-P d

  first_accessible-P :
      (client : ChatGptClient web) (items : List (ConversationSummary h.F64)) (w : h.World)
      → P w
      → P (first_accessible h web formats client items w).1
  unfolding first_accessible P
  first_accessible-P client [] w p = p
  first_accessible-P client (item ∷ items) w p =
      chosen (get_conversation h web client formats item.id w).0 _
        ((get-Keeps h view web offline j o client formats item.id).at w p)
        (λ u q. first_accessible-P client items u q)
    where
      chosen :
          (r : Result (ConversationDetail h.F64 web.Value)) (u : h.World)
          → view u j ≡ o
          → ((u : h.World)
              → view u j ≡ o
              → view (first_accessible h web formats client items u).1 j ≡ o)
          → view (choose h web formats r (first_accessible h web formats client items) u).1 j ≡ o
      chosen (ok d) u q ih = q
      chosen (err e) u q ih = ih u q

  export_first-P : (http : web.Client) → Keeps P (export_first h web formats s cfg fuel http)
  unfolding export_first
  export_first-P http =
      Keeps-bind _ _ (unfold P in new-Keeps h view web offline j o http _ _ _) λ client.
        Keeps-bind _ _ (unfold P in list-Keeps h view web offline j o client 0 5) λ items.
          Keeps-if (is_empty items) _ _ (Keeps-pure _)
            (Keeps-bind _ _ (record { at = first_accessible-P client items }) λ d. save_found-P d)

  -- Whether it succeeds or fails, the export changes no object whose key is not the prefix, an id
  -- and ".json" or ".md", if requests and timers leave the store alone.
  pub export_session-Keeps :
      (reqwest : Reqwest web) (user_agent : Text) (i : h.Identity) (v : h.VerifyingKey)
      → Keeps (λ w. view w j ≡ o) (export_session h web formats s cfg fuel reqwest user_agent i v)
  unfolding export_session P
  export_session-Keeps reqwest user_agent i v =
      Keeps-bind _ _ (restore_state-P i v)
        λ state. Keeps-bind _ _ (Keeps-lift _) λ http. export_first-P http
