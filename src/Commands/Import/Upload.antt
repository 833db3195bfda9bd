-- ===== src/Commands/Import/Upload.antt =====
-- The rest of src/commands/import_chatgpt.rs: reading the export, the uploads, the index and the
-- command. The uploads run at the same time in the source; here they come one after the other, in the
-- order in which they finish, which is a parameter.
pub mod Rerun
use repossess.Prelude.{
  ℕ, zero, suc, Text, Bool, true, false, not, ◌&&◌, ◌||◌, Option, none, some, List, [], ◌∷◌, ◌++◌,
  codes, is_empty, length, text_eq, starts_with, ltb, ◌==◌, if◌then◌else◌,
}
use repossess.Effect.{
  M, Result, ok, err, Report, message, uploads_failed, ensure, ok_or, with_context, in_context,
  lift, total, pure, bail, ◌>>=◌, ◌>>◌,
}
use repossess.Data.{ChatsIndex, ChatsIndexEntry}
use repossess.Config.{Config, ChatgptChatsCfg, WorkloadCfg, chatgpt_chats, primary, mirrors}
use repossess.Host.{Host}
use repossess.Web.{Web}
use repossess.Secrets.{take_from_env, parse_identity}
use repossess.Crypto.{read_recipient}
use repossess.Stores.Build.{Backends, build_store, open_mirrors}
use repossess.Chats.Store.{Ctx, insert_entry, load_index, save_index, store_conversation}
use repossess.Commands.Import.{PendingItem, Scan, scan}

-- Directories, paths and files, and serde_json at an array of values.
pub record Files (h : Host) (Value : Type 0) : Type 0 where
  pub read_dir : Text → M h.World (List (Result Text))
  -- `file_name()` as text, if it is.
  pub file_name : Text → Option Text
  pub sort : List Text → List Text
  pub read : Text → M h.World h.Bytes
  pub array_of : h.Bytes → Result (List Value)

-- `s.ends_with(p)`
unfoldable pub ends_with : Text → Text → Bool
ends_with p [] = is_empty p
ends_with p (c ∷ s) = text_eq p (c ∷ s) || ends_with p s

unfoldable pub is_archive : Option Text → Bool
is_archive none = false
is_archive (some name) = starts_with (codes "conversations") name && ends_with (codes ".json") name

module _ (h : Host) (web : Web h) where
  module _ (files : Files h web.Value) where
    -- The loop over the entries of the directory, which ends at the first that cannot be read.
    unfoldable pub archives_among : List (Result Text) → Result (List Text)
    archives_among [] = ok []
    archives_among (err e ∷ entries) = err e
    archives_among (ok path ∷ entries) = elim (archives_among entries) [
      | err e ↦ err e
      | ok paths ↦ ok (if is_archive (files.file_name path) then path ∷ paths else paths)
    ]

    abbrev pub sorted : Result (List Text) → Result (List Text)
    sorted (err e) = err e
    sorted (ok paths) = ok (files.sort paths)

    unfoldable pub list_archive_files : Text → M h.World (List Text)
    list_archive_files dir = do
      entries ← with_context (codes "read_dir " ++ dir) (files.read_dir dir)
      lift (sorted (archives_among entries))

    -- The conversations of all files, in order.
    unfoldable pub read_all : List Text → M h.World (List web.Value)
    read_all [] = pure []
    read_all (path ∷ paths) = do
      raw ← with_context (codes "read " ++ path) (files.read path)
      batch ← lift (
          in_context
            (codes "parse "
              ++ (path ++ codes " as JSON array — official exports ship one array per file"))
            (files.array_of raw))
      rest ← read_all paths
      pure (batch ++ rest)

  -- The variables of the loop over the uploads.
  pub record Progress : Type 0 where
    pub index : ChatsIndex h.F64
    pub imported : ℕ
    pub failed : ℕ

  -- What the command prints, less the size of the index.
  pub record Summary : Type 0 where
    pub imported : ℕ
    pub skipped : ℕ
    pub malformed : ℕ

  unfoldable pub on_upload : Text → Result (ChatsIndexEntry h.F64) → Progress → Progress
  on_upload id (ok entry) p = record p {
    index = insert_entry id entry p.index;
    imported = suc p.imported;
  }
  on_upload id (err e) p = record p { failed = suc p.failed }

  module _ (cfg : ChatgptChatsCfg) (ctx : Ctx h) where
    -- Phase 2, in the order in which the uploads finish.
    unfoldable pub upload_all : List (PendingItem h web) → Progress → h.World → Progress × h.World
    upload_all [] p w = (p, w)
    upload_all (item ∷ items) p w =
        let stored =
          store_conversation h cfg web ctx item.id item.title item.update_time item.value w in
        upload_all items (on_upload item.id stored.0 p) stored.1

    abbrev pub concluded : Scan h web → Progress → M h.World Summary
    concluded s p =
        if ltb 0 p.failed
        then bail (uploads_failed p.failed)
        else pure (record { imported = p.imported; skipped = s.skipped; malformed = s.malformed })

    -- Phases 2 and 3: the index is saved even if some uploads failed.
    unfoldable pub upload_pending :
        List (PendingItem h web) → Scan h web → ChatsIndex h.F64 → Option Text → M h.World Summary
    upload_pending finished s index prev_etag = do
      p ← total (upload_all finished (record { index = index; imported = 0; failed = 0 }))
      save_index h cfg ctx p.index prev_etag
      concluded s p

    module _ (reorder : List (PendingItem h web) → List (PendingItem h web)) (dry_run : Bool) where
      unfoldable pub import_values : Files h web.Value → List Text → M h.World Summary
      import_values files paths = do
        (index, prev_etag) ← load_index h cfg ctx.primary ctx.identity
        values ← read_all files paths
        let s = scan h web index.entries values
        if dry_run
            then pure (record {
              imported = length s.pending;
              skipped = s.skipped;
              malformed = s.malformed;
            })
            else upload_pending (reorder s.pending) s index prev_etag

  abbrev pub first_workload : List WorkloadCfg → Option ChatgptChatsCfg
  first_workload [] = none
  first_workload (chatgpt_chats cfg ∷ workloads) = some cfg

  -- The first workload, or the error of a configuration without one.
  abbrev pub workload_of : Config → Result ChatgptChatsCfg
  workload_of cfg = ok_or (first_workload cfg.workloads) (
      message (
        codes
          "no [[workloads]] entry of kind = \"chatgpt_chats\" found in config; add one before importing"))

  unfoldable pub run :
      Files h web.Value
      → Backends h
      → (List (PendingItem h web) → List (PendingItem h web))
      → Config
      → (from : Text) (concurrency : ℕ) (dry_run : Bool) → M h.World Summary
  run files backends reorder cfg from concurrency dry_run = do
    workload_cfg ← lift (workload_of cfg)
    lift (ensure (not (concurrency == 0)) (message (codes "--concurrency must be >= 1")))
    identity_raw ← take_from_env h (codes "REPOSSESS_AGE_IDENTITY")
    identity ← lift (parse_identity h identity_raw)
    recipient ← read_recipient h cfg.crypto.recipient_file
    primary_cfg ← lift (ok_or (primary cfg) (message (codes "index out of bounds")))
    store ← build_store h backends primary_cfg
    mirror_cfgs ← lift (ok_or (mirrors cfg) (message (codes "index out of bounds")))
    others ← total (open_mirrors h backends mirror_cfgs)
    paths ← list_archive_files files from
    lift (
        ensure (not (is_empty paths)) (
          message (
            codes "no conversations-*.json files in "
            ++ (from ++ codes " — point --from at the unpacked export dir"))))
    import_values workload_cfg
        (record { primary = store; mirrors = others; recipient = recipient; identity = identity })
        reorder dry_run files paths
