-- ===== src/Commands/Export.antt =====
-- src/commands/export.rs: restore the session, and save the first accessible of the latest five
-- conversations, as JSON and as Markdown, in the primary store.
pub mod Saved
pub mod Untouched
use repossess.Prelude.{
  ℕ, Text, Bool, Option, none, some, List, [], ◌∷◌, ◌++◌, codes, trim, is_empty, if◌then◌else◌,
}
use repossess.Effect.{
  M, Result, ok, err, ok_or, message, with_context, in_context, lift, pure, bail, ◌>>=◌, ◌>>◌,
}
use repossess.Data.{StorageState}
use repossess.Config.{Config, ExportCfg, primary}
use repossess.Host.{Host}
use repossess.Snapshot.{latest_key, verify_digest}
use repossess.Stores.{SnapshotStore}
use repossess.Stores.Build.{Backends, build_store}
use repossess.Secrets.{take_from_env, parse_identity}
use repossess.Crypto.{verify, decompress, parse_verifying_key}
use repossess.Web.{Web, ConversationSummary}
use repossess.Browser.Http.{Reqwest, jar_of}
use repossess.Chatgpt.{ConversationDetail, Formats}
use repossess.Chatgpt.Markdown.{to_markdown}
use repossess.Chatgpt.Client.{ChatGptClient, new, list_conversations, get_conversation}

-- How a run ends: with nothing to export, with no conversation that can be read, with a conversation
-- saved, or never, when its parents go in a circle.
pub data Outcome (Detail : Type 0) : Type 0 where
  no_conversations : Outcome Detail
  no_accessible : Outcome Detail
  exported : Detail → Outcome Detail
  endless : Outcome Detail

unfoldable pub json_key : Text → Text → Text
json_key prefix id = prefix ++ (id ++ codes ".json")

unfoldable pub md_key : Text → Text → Text
md_key prefix id = prefix ++ (id ++ codes ".md")

module _ (h : Host) where
  abbrev decode_signature_text : Result Text → Result h.Bytes
  decode_signature_text (ok text) =
      in_context (codes "decode signature hex") (h.hex_decode (trim text))
  decode_signature_text (err e) = err e

  abbrev pub decode_signature : h.Bytes → Result h.Bytes
  decode_signature sig_bytes =
      decode_signature_text (in_context (codes "signature not utf-8") (h.from_utf8 sig_bytes))

  -- The checks of verify, once more.
  unfoldable pub restore_state :
      SnapshotStore h → h.Identity → h.VerifyingKey → M h.World (StorageState h.F64)
  restore_state primary identity verify_pubkey = do
    (pointer_bytes, _) ← with_context (codes "get latest.json") (primary.get latest_key)
    pointer ←
        lift (in_context (codes "parse latest.json") (h.pointer_json.from_slice pointer_bytes))
    (ciphertext, _) ←
        with_context (codes "get snapshot " ++ pointer.object) (primary.get pointer.object)
    lift (verify_digest h pointer.object_sha256 ciphertext)
    (sig_bytes, _) ←
        with_context (codes "get signature " ++ pointer.signature_object)
          (primary.get pointer.signature_object)
    sig ← lift (decode_signature sig_bytes)
    lift (verify h verify_pubkey ciphertext sig)
    plaintext ← lift (h.age_decrypt identity ciphertext)
    lift (decompress h plaintext)

  module _ (web : Web h) (formats : Formats h web) where
    abbrev Detail : Type 0
    Detail = ConversationDetail h.F64 web.Value

    -- A conversation that cannot be fetched is skipped.
    abbrev choose :
        Result Detail → (h.World → Option Detail × h.World) → h.World → Option Detail × h.World
    choose (ok detail) next w = (some detail, w)
    choose (err e) next w = next w

    unfoldable pub first_accessible :
        ChatGptClient web → List (ConversationSummary h.F64) → h.World → Option Detail × h.World
    first_accessible client [] w = (none, w)
    first_accessible client (summary ∷ items) w =
        let fetched = get_conversation h web client formats summary.id w in
        choose fetched.0 (first_accessible client items) fetched.1

    module _ (store : SnapshotStore h) (cfg : ExportCfg) (fuel : ℕ) where
      abbrev put_markdown : Detail → Option Text → M h.World (Outcome Detail)
      put_markdown detail none = pure endless
      put_markdown detail (some md) = do
        with_context (codes "put " ++ md_key cfg.prefix detail.id)
            (store.put (md_key cfg.prefix detail.id) (h.utf8 md))
        pure (exported detail)

      unfoldable pub save : Detail → M h.World (Outcome Detail)
      save detail = do
        json_bytes ← lift (formats.to_vec_pretty detail)
        with_context (codes "put " ++ json_key cfg.prefix detail.id)
            (store.put (json_key cfg.prefix detail.id) json_bytes)
        put_markdown detail (to_markdown h web formats detail fuel)

      abbrev save_found : Option Detail → M h.World (Outcome Detail)
      save_found none = pure no_accessible
      save_found (some detail) = save detail

      -- From the access token on.
      unfoldable pub export_first : web.Client → M h.World (Outcome Detail)
      export_first http = do
        client ← new h web http cfg.chatgpt_base_url cfg.rate_limit_delay_ms cfg.max_retries
        items ← list_conversations h web client 0 5
        if is_empty items then pure no_conversations else (do
          detail ←
              λ w. (ok (first_accessible client items w).0, (first_accessible client items w).1)
          save_found detail)

      module _ (reqwest : Reqwest web) (user_agent : Text) where
        unfoldable pub export_session : h.Identity → h.VerifyingKey → M h.World (Outcome Detail)
        export_session identity verify_pubkey = do
          state ← restore_state store identity verify_pubkey
          http ← lift (
              in_context (codes "build http client")
                (reqwest.build (jar_of h web reqwest state) user_agent reqwest.no_headers))
          export_first http

    unfoldable pub run : Reqwest web → Backends h → ℕ → Config → M h.World (Outcome Detail)
    run reqwest backends fuel cfg = do
      identity_raw ← take_from_env h (codes "REPOSSESS_AGE_IDENTITY")
      identity ← lift (parse_identity h identity_raw)
      verify_pubkey_hex ←
          with_context (codes "read verify pubkey " ++ cfg.crypto.verify_pubkey_file)
            (h.read_to_string cfg.crypto.verify_pubkey_file)
      verify_pubkey ← lift (parse_verifying_key h (trim verify_pubkey_hex))
      primary_cfg ← lift (ok_or (primary cfg) (message (codes "index out of bounds")))
      store ← build_store h backends primary_cfg
      export_session store cfg.export fuel reqwest cfg.canary.user_agent identity verify_pubkey
