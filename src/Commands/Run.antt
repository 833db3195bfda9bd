-- ===== src/Commands/Run.antt =====
-- `run` and `run_locked` of src/commands/run.rs: one rotation of the session under the lock.
pub mod Apart
pub mod Outcomes
use repossess.Prelude.{
  ℕ, ◌/◌, Text, Bool, true, false, Option, none, some, List, [], ◌∷◌, ◌++◌, codes, is_empty,
  if◌then◌else◌,
}
use repossess.Effect.{
  M, Result, ok, err, Report, message, pure, bail, lift, total, with_context, ok_or, ◌>>=◌, ◌>>◌,
}
use repossess.Data.{LatestPointer, StorageState, HealthRecord}
use repossess.Config.{Config, WorkloadCfg, chatgpt_chats, primary, mirrors}
use repossess.Host.{Host}
use repossess.Stores.{SnapshotStore}
use repossess.Stores.Build.{Backends, build_store, open_mirrors}
use repossess.Web.{Web}
use repossess.Browser.{Browser}
use repossess.Canary.{CanaryResult, check}
use repossess.Crypto.{read_recipient, parse_signing_key, parse_verifying_key}
use repossess.Secrets.{take_from_env, parse_identity}
use repossess.Lock
use repossess.Health
use repossess.Chats.Store.{Ctx}
use repossess.Chats.Sync
use repossess.Commands.Restore.{Restored, restore}
use repossess.Commands.Save.{save}

pub data Outcome : Type 0 where
  saved : (version : Text) → Outcome
  canary_failed : (status : ℕ) (observed : Option Text) → Outcome

module _ (h : Host) (web : Web h) (browser : Browser h web) where
  -- `build_workload(cfg)?.run(&ctx)` for each workload; the fuel is that of the walk over the list.
  unfoldable pub run_workloads : ℕ → web.Client → Ctx h → List WorkloadCfg → M h.World (Unit {0})
  run_workloads fuel http ctx [] = pure tt
  run_workloads fuel http ctx (chatgpt_chats cfg ∷ rest) = do
    with_context (codes "workload " ++ cfg.name) (Sync.run h web http cfg ctx fuel)
    run_workloads fuel http ctx rest

  -- The part after the canary passed.
  unfoldable pub rotate :
      ℕ
      → Config
      → Ctx h
      → h.SigningKey
      → Restored h
      → browser.BrowserSession
      → web.Client
      → M h.World Outcome
  rotate fuel cfg ctx signing_key prev session http = do
    run_workloads fuel http ctx cfg.workloads
    new_state ← browser.export_storage_state session
    browser.close session
    if is_empty new_state.cookies
        then bail (message (codes "post-run cookies empty; refusing to save"))
        else (do
          new_version ←
              save h ctx.primary ctx.mirrors ctx.recipient signing_key new_state prev.pointer
                prev.pointer_etag
          pure (saved new_version))

  -- The part after the canary was asked.
  unfoldable pub on_canary :
      ℕ
      → Config
      → Ctx h
      → h.SigningKey
      → Restored h
      → browser.BrowserSession
      → web.Client
      → CanaryResult
      → M h.World Outcome
  on_canary fuel cfg ctx signing_key prev session http result =
      if result.ok then rotate fuel cfg ctx signing_key prev session http else (do
        total (λ w. (tt, (browser.close session w).1))
        pure (Outcome.canary_failed result.status result.observed))

  unfoldable pub run_locked : ℕ → Config → Ctx h → h.SigningKey → h.VerifyingKey → M h.World Outcome
  run_locked fuel cfg ctx signing_key verify_pubkey = do
    prev ← restore h ctx.primary ctx.identity verify_pubkey
    session ← browser.launch cfg.browser.chromium_bin cfg.browser.user_data_dir cfg.browser.headless
    browser.import_storage_state session prev.state
    http ← browser.build_client prev.state cfg.canary
    result ←
        check h web http cfg.canary.url cfg.canary.expected_status cfg.canary.field
          cfg.canary.expected_value
    on_canary fuel cfg ctx signing_key prev session http result

  -- The health record of a run.
  unfoldable pub record_of : Text → ℕ → Result Outcome → h.World → HealthRecord × h.World
  record_of run_id started (ok (saved version)) = Health.healthy h run_id started version
  record_of run_id started (ok (Outcome.canary_failed status observed)) =
      Health.canary_failed h run_id started status observed
  record_of run_id started (err e) = Health.failed h run_id started (browser.show_report e)

  -- The result of the command.
  unfoldable pub conclude : Result Outcome → Result (Unit {0})
  conclude (ok (saved version)) = ok tt
  conclude (ok (Outcome.canary_failed status observed)) = err (Report.canary_failed status observed)
  conclude (err e) = err e

  -- From the lock on: whatever happens under the lock, it is released and a record is written.
  unfoldable pub run_with :
      ℕ → Config → Ctx h → h.SigningKey → h.VerifyingKey → Text → ℕ → M h.World (Unit {0})
  run_with fuel cfg ctx signing_key verify_pubkey run_id started = do
    guard ← Lock.acquire h ctx.primary run_id cfg.lock.ttl_seconds
    λ w.
        let result = run_locked fuel cfg ctx signing_key verify_pubkey w in
        let released = (Lock.release h ctx.primary guard result.1).1 in
        let noted = record_of run_id started result.0 released in
        (conclude result.0, Health.write h ctx.primary noted.0 noted.1)

  run_id_of : Option Text → ℕ → Text
  run_id_of none now = codes "local-" ++ web.show (now / 1000000000)
  run_id_of (some id) now = id

  -- `GITHUB_RUN_ID`, or the time; the clock is only read for the latter.
  unfoldable pub run_id : M h.World Text
  unfolding run_id_of
  run_id w = elim (h.var w (codes "GITHUB_RUN_ID")) [
    | some id ↦ (ok id, w)
    | none ↦ (ok (run_id_of none (h.now w).0), (h.now w).1)
  ]

  -- `cfg.primary()` and `cfg.mirrors()` panic on a configuration without stores.
  unfoldable pub run : Backends h → ℕ → Config → M h.World (Unit {0})
  run backends fuel cfg = do
    identity_raw ← take_from_env h (codes "REPOSSESS_AGE_IDENTITY")
    identity ← lift (parse_identity h identity_raw)
    recipient ← read_recipient h cfg.crypto.recipient_file
    signing_key_raw ← take_from_env h (codes "REPOSSESS_SIGN_SECRET")
    signing_key ← lift (parse_signing_key h signing_key_raw)
    verify_pubkey_hex ←
        with_context (codes "read verify pubkey " ++ cfg.crypto.verify_pubkey_file)
          (h.read_to_string cfg.crypto.verify_pubkey_file)
    verify_pubkey ← lift (parse_verifying_key h verify_pubkey_hex)
    primary_cfg ← lift (ok_or (primary cfg) (message (codes "index out of bounds")))
    store ← build_store h backends primary_cfg
    mirror_cfgs ← lift (ok_or (mirrors cfg) (message (codes "index out of bounds")))
    others ← total (open_mirrors h backends mirror_cfgs)
    id ← run_id
    started ← total h.now
    let ctx : Ctx h = record {
      primary = store;
      mirrors = others;
      recipient = recipient;
      identity = identity;
    }
    run_with fuel cfg ctx signing_key verify_pubkey id started
