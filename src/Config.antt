-- ===== src/Config.antt =====
-- src/config.rs: the configuration, and the checks and path resolution of `Config::load`. Parsing
-- TOML and canonicalising a path are the work of libraries.
pub mod Checks
pub mod Defaults
use repossess.Prelude.{
  ℕ, Text, Bool, true, false, Option, none, some, List, [], ◌∷◌, ◌++◌, codes, is_empty, not, ltb,
  if◌then◌else◌, ◌==◌,
}
use repossess.Effect.{M, Result, ok, err, ensure, message, lift, pure, ◌>>=◌, ◌>>◌}

pub record Browser : Type 0 where
  pub chromium_bin : Text
  pub user_data_dir : Text
  pub headless : Bool

pub record SeedCfg : Type 0 where
  pub login_url : Text

pub record Canary : Type 0 where
  pub url : Text
  pub expected_status : ℕ
  pub field : Text
  pub expected_value : Text
  pub user_agent : Text
  pub headers : List (Text × Text)

pub record CryptoCfg : Type 0 where
  pub recipient_file : Text
  pub verify_pubkey_file : Text

pub record LockCfg : Type 0 where
  pub ttl_seconds : ℕ

pub data StoreCfg : Type 0 where
  s3 : (name endpoint region bucket prefix access_key_env secret_key_env : Text) → StoreCfg
  github_release : (name repo token_env : Text) → StoreCfg
  git_branch : (name repo_url branch token_env : Text) → StoreCfg

unfoldable pub store_name : StoreCfg → Text
store_name (s3 name endpoint region bucket prefix access_key_env secret_key_env) = name
store_name (github_release name repo token_env) = name
store_name (git_branch name repo_url branch token_env) = name

pub record ExportCfg : Type 0 where
  pub chatgpt_base_url : Text
  pub rate_limit_delay_ms : ℕ
  pub max_retries : ℕ
  pub prefix : Text

pub record ChatgptChatsCfg : Type 0 where
  pub name : Text
  pub prefix : Text
  pub base_url : Text
  pub session_path : Text
  pub list_path : Text
  pub detail_path_template : Text
  pub list_page_limit : ℕ
  pub incremental_stop_after_known : ℕ
  pub list_delay_ms : ℕ
  pub detail_delay_ms : ℕ
  pub detail_batch_size : ℕ
  pub detail_batch_cooldown_ms : ℕ
  pub retry_sweep_cooldown_ms : ℕ
  pub max_backoff_ms : ℕ
  pub max_retries : ℕ
  pub zstd_level : ℕ

pub data WorkloadCfg : Type 0 where
  chatgpt_chats : ChatgptChatsCfg → WorkloadCfg

pub record Config : Type 0 where
  pub browser : Browser
  pub seed : SeedCfg
  pub canary : Canary
  pub crypto : CryptoCfg
  pub lock : LockCfg
  pub stores : List StoreCfg
  pub export : ExportCfg
  pub workloads : List WorkloadCfg

unfoldable pub validate : Config → Result (Unit {0})
validate cfg =
    if not (is_empty cfg.stores)
    then ensure (ltb 0 cfg.lock.ttl_seconds)
        (message (codes "config: lock.ttl_seconds must be > 0"))
    else err (message (codes "config: stores must contain at least one entry (the primary)"))

-- `&self.stores[0]` and `&self.stores[1..]`, which panic on an empty list: `none` is the panic.
unfoldable pub primary : Config → Option StoreCfg
primary cfg = elim cfg.stores [ [] ↦ none | s ∷ rest ↦ some s ]

unfoldable pub mirrors : Config → Option (List StoreCfg)
mirrors cfg = elim cfg.stores [ [] ↦ none | s ∷ rest ↦ some rest ]

-- `Path::is_relative` and `Path::join` on Unix, for a path that is relative.
abbrev pub is_relative : Text → Bool
is_relative [] = true
is_relative (c ∷ rest) = not (c == b'/')

-- if p.is_relative() { base.join(p) } else { p }, for a base with no slash at its end.
unfoldable pub resolve : Text → Text → Text
resolve base p = if is_relative p then base ++ (b'/' ∷ p) else p

-- The four paths that are resolved, then the override by CHROMIUM_BIN.
unfoldable pub resolve_paths : Text → Option Text → Config → Config
resolve_paths base chromium_bin cfg = record cfg {
  browser = record cfg.browser {
    chromium_bin = elim chromium_bin [
      | none ↦ resolve base cfg.browser.chromium_bin
      | some bin ↦ bin
    ];
    user_data_dir = resolve base cfg.browser.user_data_dir;
  };
  crypto = record {
    recipient_file = resolve base cfg.crypto.recipient_file;
    verify_pubkey_file = resolve base cfg.crypto.verify_pubkey_file;
  };
}

-- `Config::load`, from the parsed file `cfg`, the directory `base` of the file and the environment.
unfoldable pub load : Text → Option Text → Config → Result Config
load base chromium_bin cfg =
    let cfg' = resolve_paths base chromium_bin cfg in
    elim (validate cfg') [ ok _ ↦ ok cfg' | err e ↦ err e ]
