-- ===== src/Main.antt =====
-- src/main.rs: key generation, and the subcommands on the configuration that is loaded. Parsing the
-- arguments, TOML and canonicalising a path are parameters.
pub mod Keys
use repossess.Prelude.{ℕ, Text, Bool, Option, none, some, List, codes, ◌++◌}
use repossess.Effect.{M, Result, ok, err, with_context, in_context, lift, total, pure, ◌>>=◌}
use repossess.Config
use repossess.Config.{Config}
use repossess.Host.{Host}
use repossess.Web.{Web}
use repossess.Browser.{Browser}
use repossess.Browser.Http.{Reqwest}
use repossess.Chatgpt.{ConversationDetail, Formats}
use repossess.Stores.Build.{Backends}
use repossess.Commands.Run
use repossess.Commands.Seed
use repossess.Commands.Verify
use repossess.Commands.Export
use repossess.Commands.Import.{PendingItem}
use repossess.Commands.Import.Upload

pub data Cmd : Type 0 where
  gen_keys : (json : Bool) → Cmd
  seed run verify export : Cmd
  import_chatgpt : (from : Text) (concurrency : ℕ) (dry_run : Bool) → Cmd

-- ed25519-dalek: a new key, and the bytes of the two keys.
pub record Keygen (h : Host) : Type 0 where
  pub generate : h.World → h.SigningKey × h.World
  pub verifying_key : h.SigningKey → h.VerifyingKey
  pub signing_bytes : h.SigningKey → h.Bytes
  pub verifying_bytes : h.VerifyingKey → h.Bytes

-- What is printed, in hex; `json` only changes the layout.
pub record KeyPair : Type 0 where
  pub secret : Text
  pub pubkey : Text

-- `toml::from_str`, `canonicalize` with `parent`.
pub record Toml (h : Host) : Type 0 where
  pub config_of : Text → Result Config
  pub base_of : Text → M h.World Text

-- What a subcommand leaves to print.
pub data Done (Detail : Type 0) : Type 0 where
  keys : KeyPair → Done Detail
  seeded : (version : Text) → Done Detail
  ran : Done Detail
  verified : Verify.Line → Done Detail
  exported : Export.Outcome Detail → Done Detail
  imported : (imported skipped malformed : ℕ) → Done Detail

module _ (h : Host) where
  unfoldable pub generate_keys : Keygen h → h.World → KeyPair × h.World
  generate_keys keygen w =
      let made = keygen.generate w in
      (
        record {
          secret = h.hex_encode (keygen.signing_bytes made.0);
          pubkey = h.hex_encode (keygen.verifying_bytes (keygen.verifying_key made.0));
        },
        made.1,
      )

  -- `Config::load` with its reading of the file and of the environment.
  unfoldable pub load_file : Toml h → Text → M h.World Config
  load_file toml path = do
    raw ← with_context (codes "read config " ++ path) (h.read_to_string path)
    cfg ← lift (in_context (codes "parse config " ++ path) (toml.config_of raw))
    base ← with_context (codes "canonicalize config path " ++ path) (toml.base_of path)
    chromium_bin ← total (λ w. (h.var w (codes "CHROMIUM_BIN"), w))
    lift (Config.load base chromium_bin cfg)

  module _ (web : Web h) (browser : Browser h web) (formats : Formats h web)
      (files : Upload.Files h web.Value) (reqwest : Reqwest web) (backends : Backends h)
      (keygen : Keygen h) (toml : Toml h)
      (reorder : List (PendingItem h web) → List (PendingItem h web)) (fuel : ℕ) where
    unfoldable pub main :
        (config : Text) → Cmd → M h.World (Done (ConversationDetail h.F64 web.Value))
    main config (gen_keys json) = do pair ← total (generate_keys keygen); pure (keys pair)
    main config seed = do
      cfg ← load_file toml config
      version ← Seed.run h web browser backends cfg
      pure (seeded version)
    main config run = do
      cfg ← load_file toml config
      done ← Run.run h web browser backends fuel cfg
      pure ran
    main config verify = do
      cfg ← load_file toml config
      line ← Verify.run h backends cfg
      pure (verified line)
    main config export = do
      cfg ← load_file toml config
      outcome ← Export.run h web formats reqwest backends fuel cfg
      pure (exported outcome)
    main config (import_chatgpt from concurrency dry_run) = do
      cfg ← load_file toml config
      summary ← Upload.run h web files backends reorder cfg from concurrency dry_run
      pure (imported summary.imported summary.skipped summary.malformed)
