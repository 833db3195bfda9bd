-- ===== src/Commands/Export/Saved.antt =====
-- What src/commands/export.rs leaves in the primary store.
use repossess.Prelude.{
  ℕ, Text, false, Option, none, some, List, [], ◌∷◌, ◌++◌, codes, trim, ◌≡◌, refl, subst, is_empty,
  if◌then◌else◌, sym, ◌∙◌, text_eq, differ_at_end, last, last-append, arith,
}
use repossess.Effect.{Result, Report, ok, err, in_context, pure, ◌>>=◌}
use repossess.Effect.Rules.{ok_of_bind, bind_ok, ok_of_context, ok_injective, bind_rule}
use repossess.Data.{StorageState}
use repossess.Config.{ExportCfg}
use repossess.Host.{Host}
use repossess.Stores.{SnapshotStore}
use repossess.Stores.Contract.{View, IsLawful}
use repossess.Commands.Restore
use repossess.Commands.Restore.{Restored, restore}
use repossess.Commands.Restore.Integrity.{IsRestorable, restore-Found}
use repossess.Web.{Web, ConversationSummary}
use repossess.Browser.Http.{Reqwest}
use repossess.Chatgpt.{ConversationDetail, Formats}
use repossess.Chatgpt.Markdown.{to_markdown}
use repossess.Chatgpt.Client.{ChatGptClient}
use repossess.Commands.Export.{
  Outcome, no_conversations, no_accessible, exported, endless, json_key, md_key, decode_signature,
  restore_state, save, save_found, put_markdown, first_accessible, export_first, export_session,
}

md-ne-json : (prefix id : Text) → text_eq (md_key prefix id) (json_key prefix id) ≡ false
unfolding md_key json_key
md-ne-json prefix id =
    differ_at_end _ _
      λ e. absurd (omega (arith, sym (ends id b'.' (codes "md")) ∙ e ∙ ends id b'.' (codes "json")))
  where
    ends : (i : Text) (c : ℕ) (t : Text) → last (prefix ++ (i ++ (c ∷ t))) ≡ last (c ∷ t)
    ends [] c t = last-append prefix c t
    ends (d ∷ i) c t = last-append prefix d (i ++ (c ∷ t)) ∙ last-append (d ∷ i) c t

module _ (h : Host) where
  decode_signature_ok :
      (b sig : h.Bytes) → decode_signature h b ≡ ok sig → Restore.decode_signature h b ≡ ok sig
  unfolding Restore.decode_signature
  decode_signature_ok b sig = by_text (h.from_utf8 b)
    where
      by_text :
          (r : Result Text)
          → elim (in_context (codes "signature not utf-8") r) as (λ _. Result h.Bytes) [
            | ok text ↦ in_context (codes "decode signature hex") (h.hex_decode (trim text))
            | err e ↦ err e
          ]
            ≡ ok sig
          → elim (in_context (codes "signature is not utf-8") r) as (λ _. Result h.Bytes) [
            | ok text ↦ in_context (codes "decode signature hex") (h.hex_decode (trim text))
            | err e ↦ err e
          ]
            ≡ ok sig
      by_text (ok text) e = e
      by_text (err x) e = absurd (cc)

  -- What the export restores, `restore` of src/commands/run.rs would restore too.
  restore_state_ok :
      (s : SnapshotStore h) (i : h.Identity) (v : h.VerifyingKey) (w : h.World)
      (state : StorageState h.F64)
      → (restore_state h s i v w).0 ≡ ok state
      → (r : Restored h) × ((restore h s i v w).0 ≡ ok r) × (r.state ≡ state)
  unfolding restore_state restore
  restore_state_ok s i v w state e0 =
      let ((pb, pe), g1, e1) = ok_of_bind _ _ w e0 in
      let (p, g2, e2) = ok_of_bind _ _ _ e1 in
      let ((c, ce), g3, e3) = ok_of_bind _ _ _ e2 in
      let (x4, g4, e4) = ok_of_bind _ _ _ e3 in
      let ((sb, se), g5, e5) = ok_of_bind _ _ _ e4 in
      let (sig, g6, e6) = ok_of_bind _ _ _ e5 in
      let (x7, g7, e7) = ok_of_bind _ _ _ e6 in
      let (pt, g8, e8) = ok_of_bind _ _ _ e7 in
      (
        record { pointer = p; pointer_etag = pe; state = state },
        bind_ok _ _ w g1 (
            bind_ok _ _ _ g2 (
              bind_ok _ _ _ g3 (
                bind_ok _ _ _ g4 (
                  bind_ok _ _ _ g5 (
                    bind_ok _ _ _ (decode_signature_ok sb sig g6)
                      (bind_ok _ _ _ g7 (bind_ok _ _ _ g8 (bind_ok _ _ _ e8 refl)))))))),
        refl,
      )

  module _ (view : View h) (s : SnapshotStore h) (law : IsLawful h view s) (web : Web h)
      (formats : Formats h web) (cfg : ExportCfg) (fuel : ℕ) where
    -- If the export gets past the restore, the store held a snapshot that passes every check of a
    -- restore by `run`, and its state is the one that the cookies are taken from.
    pub restore_state-Found :
        (i : h.Identity) (v : h.VerifyingKey) (w : h.World) (state : StorageState h.F64)
        → (restore_state h s i v w).0 ≡ ok state
        → (R : IsRestorable h view i v w) × (R.state ≡ state)
    restore_state-Found i v w state e =
        let (r, is_ok, same) = restore_state_ok s i v w state e in
        let (R, _, is_state, _) = restore-Found h view i v s law w r is_ok in (R, is_state ∙ same)

    -- The store holds the conversation under both keys.
    pub record Saved (detail : ConversationDetail h.F64 web.Value) (w : h.World) : Type 0 where
      pub json : h.Bytes
      pub markdown : Text
      pub json_etag : Text
      pub md_etag : Text
      pub is_json : formats.to_vec_pretty detail ≡ ok json
      pub is_markdown : to_markdown h web formats detail fuel ≡ some markdown
      pub json_at :
          view w (json_key cfg.prefix detail.id) ≡ some (record { body = json; etag = json_etag })
      pub md_at :
          view w (md_key cfg.prefix detail.id)
          ≡ some (record { body = h.utf8 markdown; etag = md_etag })

    module _ (detail : ConversationDetail h.F64 web.Value) where
      P : Result (Outcome (ConversationDetail h.F64 web.Value)) → h.World → Type 0
      P r w = r ≡ ok (exported detail) → Saved detail w

      failed : (e : Report) (w : h.World) → P (err e) w
      unfolding P
      failed e w bad = absurd (cc)

      arrived :
          (d : ConversationDetail h.F64 web.Value) (w : h.World) → Saved d w → P (ok (exported d)) w
      unfolding P
      arrived d w saved e = subst (λ x. Saved x w) (detail_of (ok_injective e)) saved
        where
          detail_of : {x y : ConversationDetail h.F64 web.Value} → exported x ≡ exported y → x ≡ y
          detail_of q = cc

      put_markdown-Saved :
          (d : ConversationDetail h.F64 web.Value) (b : h.Bytes) (et : Text) (w : h.World)
          (m : Option Text)
          → formats.to_vec_pretty d ≡ ok b
          → view w (json_key cfg.prefix d.id) ≡ some (record { body = b; etag = et })
          → to_markdown h web formats d fuel ≡ m
          → P
              (put_markdown h web formats s cfg fuel d m w).0
              (put_markdown h web formats s cfg fuel d m w).1
      put_markdown-Saved d b et w none is_json at is_markdown =
          let no : P (ok endless) w = unfold P in λ e. absurd (cc) in no
      put_markdown-Saved d b et w (some md) is_json at is_markdown =
          bind_rule P _ _ w (λ e _. failed e _)
            λ r put. arrived d _ (record {
              json = b;
              markdown = md;
              json_etag = et;
              md_etag = r.etag;
              is_json = is_json;
              is_markdown = is_markdown;
              json_at = law.put_other _ _ _ w (md-ne-json cfg.prefix d.id) ∙ at;
              md_at = law.put_ok _ _ w r (ok_of_context _ _ put);
            })

      save-Saved :
          (d : ConversationDetail h.F64 web.Value) (w : h.World)
          → P (save h web formats s cfg fuel d w).0 (save h web formats s cfg fuel d w).1
      unfolding save
      save-Saved d w =
          bind_rule P _ _ w (λ e _. failed e _)
            λ b is_json.
              bind_rule P _ _ w (λ e _. failed e _)
                λ r put.
                  put_markdown-Saved d b r.etag _ _ is_json
                    (law.put_ok _ _ w r (ok_of_context _ _ put)) refl

      export_first-P :
          (http : web.Client) (w : h.World)
          → P
              (export_first h web formats s cfg fuel http w).0
              (export_first h web formats s cfg fuel http w).1
      unfolding export_first
      export_first-P http w =
          bind_rule P _ _ w (λ e _. failed e _)
            λ client _. bind_rule P _ _ _ (λ e _. failed e _) λ items _. by_items client items _
        where
          with_found :
              (client : ChatGptClient web) (found : Option (ConversationDetail h.F64 web.Value))
              (u : h.World)
              → P
                  (save_found h web formats s cfg fuel found u).0
                  (save_found h web formats s cfg fuel found u).1
          with_found client none u =
              let no : P (ok no_accessible) u = unfold P in λ e. absurd (cc) in no
          with_found client (some d) u = save-Saved d u

          by_items :
              (client : ChatGptClient web) (items : List (ConversationSummary h.F64)) (u : h.World)
              → P
                  ((if is_empty items
                      then pure no_conversations
                      else ((λ v. (
                        ok (first_accessible h web formats client items v).0,
                        (first_accessible h web formats client items v).1,
                      ))
                          >>= save_found h web formats s cfg fuel))
                    u).0
                  ((if is_empty items
                      then pure no_conversations
                      else ((λ v. (
                        ok (first_accessible h web formats client items v).0,
                        (first_accessible h web formats client items v).1,
                      ))
                          >>= save_found h web formats s cfg fuel))
                    u).1
          by_items client [] u =
              let no : P (ok no_conversations) u = unfold P in λ e. absurd (cc) in no
          by_items client (item ∷ items) u =
              bind_rule P _ _ u (λ e _. failed e _) λ found _. with_found client found _

      -- If the export says that it saved a conversation, the store held a snapshot that passes every
      -- check of a restore, and holds the conversation's JSON and its complete Markdown afterwards,
      -- each under its own key.
      pub export_session-Saved :
          (reqwest : Reqwest web) (user_agent : Text) (i : h.Identity) (v : h.VerifyingKey)
          (w : h.World)
          → (export_session h web formats s cfg fuel reqwest user_agent i v w).0
            ≡ ok (exported detail)
          → IsRestorable h view i v w
            × Saved detail (export_session h web formats s cfg fuel reqwest user_agent i v w).1
      unfolding export_session P
      export_session-Saved reqwest user_agent i v w e =
          let (state, restored, _) = ok_of_bind _ _ w e in
          (
            (restore_state-Found i v w state restored).0,
            bind_rule P _ _ w (λ x _. failed x _)
                (λ state' _. bind_rule P _ _ _ (λ x _. failed x _) λ http _. export_first-P http _)
                e,
          )
