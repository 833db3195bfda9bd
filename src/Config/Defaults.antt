-- ===== src/Config/Defaults.antt =====
-- The values of src/config.rs for what a configuration file leaves out.
use repossess.Prelude.{Text, Bool, true, codes}
use repossess.Config.{ExportCfg, ChatgptChatsCfg}

abbrev pub default_true : Bool
default_true = true

abbrev pub default_user_agent : Text
default_user_agent =
    codes
      "Mozilla/5.0 (X11; Linux x86_64) AppleWebKit/537.36 (KHTML, like Gecko) Chrome/131.0.0.0 Safari/537.36"

-- `ExportCfg::default`
abbrev pub default_export : ExportCfg
default_export = record {
  chatgpt_base_url = codes "https://chatgpt.com";
  rate_limit_delay_ms = 2000;
  max_retries = 5;
  prefix = codes "exports/";
}

-- A workload of which only the name is given.
abbrev pub default_chats : Text → ChatgptChatsCfg
default_chats name = record {
  name = name;
  prefix = codes "chatgpt/";
  base_url = default_export.chatgpt_base_url;
  session_path = codes "/api/auth/session";
  list_path = codes "/backend-api/conversations";
  detail_path_template = codes "/backend-api/conversation/{id}";
  list_page_limit = 28;
  incremental_stop_after_known = 50;
  list_delay_ms = 1200;
  detail_delay_ms = 4000;
  detail_batch_size = 75;
  detail_batch_cooldown_ms = 45000;
  retry_sweep_cooldown_ms = 600000;
  max_backoff_ms = 900000;
  max_retries = default_export.max_retries;
  zstd_level = 19;
}
