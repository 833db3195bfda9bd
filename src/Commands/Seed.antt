-- ===== src/Commands/Seed.antt =====
-- src/commands/seed.rs: make the first snapshot from a session that the user logs in to.
pub mod Seeded
use repossess.Prelude.{ℕ, Text, false, List, codes, is_empty, if◌then◌else◌}
use repossess.Effect.{Report, M, ok_or, message, with_context, lift, total, pure, bail, ◌>>=◌, ◌>>◌}
use repossess.Data.{StorageState}
use repossess.Config.{Config, primary, mirrors}
use repossess.Host.{Host}
use repossess.Snapshot.{latest_key}
use repossess.Stores.{SnapshotStore}
use repossess.Stores.Build.{Backends, build_store, open_mirrors}
use repossess.Web.{Web}
use repossess.Browser.{Browser}
use repossess.Secrets.{take_from_env}
use repossess.Crypto.{read_recipient, parse_signing_key, compress}
use repossess.Commands.Save.{object_key, sig_key, new_pointer, sig_payload, mirror_snapshot}

abbrev pub none_captured : Report
none_captured = message (codes "no cookies captured — was the login successful?")

module _ (h : Host) where
  module _ (primary : SnapshotStore h) (mirrors : List (SnapshotStore h)) where
    -- From the reading of the clock on.
    unfoldable pub publish_at : h.SigningKey → h.Bytes → ℕ → M h.World Text
    publish_at signing_key ciphertext now = do
      let ts = h.format_ts now
      let payload = sig_payload h (h.ed_sign signing_key ciphertext)
      with_context (codes "put snapshot") (primary.put (object_key ts) ciphertext)
      with_context (codes "put signature") (primary.put (sig_key ts) payload)
      pointer_bytes ← lift (h.pointer_json.to_vec (new_pointer h now ciphertext))
      existing_etag ← primary.head latest_key
      with_context (codes "put latest.json")
          (primary.put_if_unmodified latest_key pointer_bytes existing_etag)
      total (λ w. (tt, mirror_snapshot h primary mirrors ts ciphertext payload pointer_bytes w))
      pure ts

    unfoldable pub publish : h.Recipient → h.SigningKey → StorageState h.F64 → M h.World Text
    publish recipient signing_key state = if is_empty state.cookies then bail none_captured else (do
      plaintext ← lift (compress h state)
      ciphertext ← h.age_encrypt recipient plaintext
      now ← total h.now
      publish_at signing_key ciphertext now)

  module _ (web : Web h) (browser : Browser h web) where
    unfoldable pub capture : Config → M h.World (StorageState h.F64)
    capture cfg = do
      session ← browser.launch cfg.browser.chromium_bin cfg.browser.user_data_dir false
      browser.open_page session cfg.seed.login_url
      state ← browser.wait_and_capture session
      browser.close session
      pure state

    unfoldable pub run : Backends h → Config → M h.World Text
    run backends cfg = do
      recipient ← read_recipient h cfg.crypto.recipient_file
      signing_key_raw ← take_from_env h (codes "REPOSSESS_SIGN_SECRET")
      signing_key ← lift (parse_signing_key h signing_key_raw)
      primary_cfg ← lift (ok_or (primary cfg) (message (codes "index out of bounds")))
      store ← build_store h backends primary_cfg
      mirror_cfgs ← lift (ok_or (mirrors cfg) (message (codes "index out of bounds")))
      others ← total (open_mirrors h backends mirror_cfgs)
      state ← capture cfg
      publish store others recipient signing_key state
