-- ===== src/Tests/Workload.antt =====
-- The properties of the workload, of the configuration, of the secrets and of the health records at
-- concrete inputs.
use repossess.Prelude.{
  ℕ, ◌+◌, ◌<◌, Text, codes, Bool, true, false, none, some, List, [], ◌∷◌, ◌≡◌, refl, arith, text_eq,
  length, take, drop, ◌==◌, ◌%◌, if◌then◌else◌,
}
use repossess.Effect.{Report, Result, ok, err, ◌>>=◌}
use repossess.Effect.Keeps.{Keeps}
use repossess.Config
use repossess.Config.Checks.{load_complete, IsLoaded, load-IsLoaded}
use repossess.Secrets.{read_env, take_credential}
use repossess.Secrets.Taken.{take_credential_lem}
use repossess.Health.{sanitize_run_id}
use repossess.Health.Audit.{sanitize_run_id_lem, all_safe}
use repossess.Chats.Client.{Session, Fetch, get_json, get_loop, fuel_of_get}
use repossess.Chats.Client.Retries.{get_json_total}
use repossess.Chats.Collect.{collect_loop}
use repossess.Chats.Collect.Walk.{IsEnough, outdated, collect_loop_walks}
use repossess.Chats.Store.{Ctx, index_key, conv_key}
use repossess.Chats.Sync.{run}
use repossess.Chats.Sync.Untouched.{run-Keeps}
use repossess.Chats.Sync.Apart.{run-Keeps_pointer}
use repossess.Commands.Import.{scan}
use repossess.Commands.Import.Scanned.{known, items, scan_lem}
use repossess.Snapshot.{latest_key, lock_key}
use repossess.Tests.Model.{Memory, host, view, memory_store, empty_memory}
use repossess.Tests.Laws.{memory-IsLawful, host-IsUndisturbed, host-RemovesVars}
use repossess.Tests.Server.{server, chats_cfg, server-IsApart}

-- Pages of two from a list of five, of which the even numbers are known.
abbrev five : List ℕ
five = 1 ∷ 3 ∷ 2 ∷ 4 ∷ 5 ∷ []

abbrev is_even : ℕ → Bool
is_even n = n % 2 == 0

abbrev serve_five : ℕ → ℕ → Unit {0} → Result (List ℕ) × Unit {0}
serve_five offset limit w = (ok (take limit (drop offset five)), w)

collect_loop_walks_example :
    (n : ℕ) × (collect_loop serve_five is_even 2 2 9 0 0 [] tt
      ≡ (ok (some (outdated is_even 2 (take n five))), tt))
    × IsEnough is_even 2 0 five n
collect_loop_walks_example =
    collect_loop_walks serve_five is_even 2 2 five (omega arith) (omega arith) (omega arith)
      (λ offset w. refl) tt 3

-- The first request of this session gets a 503, the second an answer.
abbrev online : Session host
online = record { world = empty_memory; token = codes "token" }

get_json_total_example :
    (r : Fetch Text × Session host) × ((extra : ℕ)
      → get_loop host server tt chats_cfg
          (fuel_of_get host server tt chats_cfg + extra)
          (codes "/chat")
          0
          false
          online
        ≡ some r)
    × (get_json host server tt chats_cfg (codes "/chat") online ≡ r)
get_json_total_example =
    get_json_total host server tt chats_cfg (omega arith) (codes "/chat") online

abbrev pub ctx : Ctx host
ctx = record { primary = memory_store; mirrors = []; recipient = 5; identity = 5 }

not_index : text_eq (index_key chats_cfg) latest_key ≡ false
unfolding index_key text_eq
not_index = refl

not_conv : (id : Text) → text_eq (conv_key chats_cfg id) latest_key ≡ false
unfolding conv_key text_eq
not_conv id = refl

run-Keeps_example : Keeps (λ w. view w latest_key ≡ none) (run host server tt chats_cfg ctx 4)
run-Keeps_example =
    run-Keeps host view server tt chats_cfg ctx memory-IsLawful tt host-IsUndisturbed server-IsApart
      latest_key not_index not_conv none 4

sanitize_run_id_example :
    (all_safe (sanitize_run_id (codes "a/b")) ≡ true)
    × (length (sanitize_run_id (codes "a/b")) ≡ length (codes "a/b"))
    × (all_safe (codes "a/b") ≡ true → sanitize_run_id (codes "a/b") ≡ codes "a/b")
sanitize_run_id_example = sanitize_run_id_lem (codes "a/b")

abbrev with_secrets : Memory
with_secrets = record empty_memory {
  env = λ k. if text_eq k (codes "A") then some (codes "key") else some (codes "secret");
}

taken_ok :
    (take_credential host (codes "A") (codes "S") with_secrets).0 ≡ ok (codes "key", codes "secret")
unfolding take_credential read_env ◌>>=◌ text_eq
taken_ok = refl

take_credential_example :
    ((ak sk : Text)
      → (take_credential host (codes "A") (codes "S") with_secrets).0 ≡ ok (ak, sk)
      → (host.var with_secrets (codes "A") ≡ some ak)
        × (host.var with_secrets (codes "S") ≡ some sk)
        × ((j : Text)
            → host.var (take_credential host (codes "A") (codes "S") with_secrets).1 j ≡ (
                if text_eq (codes "S") j
                then none
                else if text_eq (codes "A") j
                then none
                else host.var with_secrets j)))
    × ((e : Report)
        → (take_credential host (codes "A") (codes "S") with_secrets).0 ≡ err e
        → (take_credential host (codes "A") (codes "S") with_secrets).1 ≡ with_secrets)
take_credential_example =
    take_credential_lem host host-RemovesVars (codes "A") (codes "S") with_secrets

-- A configuration with a primary store and a mirror.
abbrev bucket : Config.StoreCfg
bucket =
    Config.s3 (codes "r2") (codes "https://r2") (codes "auto") (codes "b") [] (codes "A")
      (codes "S")

abbrev release : Config.StoreCfg
release = Config.github_release (codes "gh") (codes "o/r") (codes "T")

abbrev pub config : Config.Config
config = record {
  browser = record {
    chromium_bin = codes "chromium";
    user_data_dir = codes "profile";
    headless = true;
  };
  seed = record { login_url = codes "https://example.org" };
  canary = record {
    url = codes "https://example.org/me";
    expected_status = 200;
    field = codes "/user";
    expected_value = codes "https://example.org/me";
    user_agent = codes "ua";
    headers = [];
  };
  crypto = record {
    recipient_file = codes "keys/age.pub";
    verify_pubkey_file = codes "/etc/sign.pub";
  };
  lock = record { ttl_seconds = 600 };
  stores = bucket ∷ release ∷ [];
  export = record {
    chatgpt_base_url = codes "https://example.org";
    rate_limit_delay_ms = 1;
    max_retries = 2;
    prefix = codes "export/";
  };
  workloads = [];
}

loaded_ok :
    Config.load (codes "/srv") none config ≡ ok (Config.resolve_paths (codes "/srv") none config)
unfolding Config.load Config.validate Config.resolve_paths
loaded_ok = refl

load-IsLoaded_example :
    IsLoaded (codes "/srv") none config (Config.resolve_paths (codes "/srv") none config)
load-IsLoaded_example =
    load-IsLoaded (codes "/srv") none config (Config.resolve_paths (codes "/srv") none config) refl
      loaded_ok

load_complete_example :
    (p : Config.StoreCfg) × (ms : List Config.StoreCfg) × (Config.primary
        (Config.resolve_paths (codes "/srv") none config)
      ≡ some p)
    × (Config.mirrors (Config.resolve_paths (codes "/srv") none config) ≡ some ms)
    × (config.stores ≡ p ∷ ms)
    × (0 < (Config.resolve_paths (codes "/srv") none config).lock.ttl_seconds)
load_complete_example =
    load_complete (codes "/srv") none config (Config.resolve_paths (codes "/srv") none config)
      loaded_ok

run-Keeps_pointer_example :
    Keeps (λ w. view w latest_key ≡ none) (run host server tt chats_cfg ctx 4)
    × Keeps (λ w. view w lock_key ≡ none) (run host server tt chats_cfg ctx 4)
run-Keeps_pointer_example =
    run-Keeps_pointer host view server tt chats_cfg ctx memory-IsLawful tt host-IsUndisturbed
      server-IsApart none none 4

scan_example :
    ((scan host server [] (codes "a" ∷ codes "b" ∷ [])).pending
      ≡ outdated (known host server []) 1 (items host server [] (codes "a" ∷ codes "b" ∷ [])))
    × (length (scan host server [] (codes "a" ∷ codes "b" ∷ [])).pending
          + (scan host server [] (codes "a" ∷ codes "b" ∷ [])).skipped
          + (scan host server [] (codes "a" ∷ codes "b" ∷ [])).malformed
        ≡ 2)
    × (length (items host server [] (codes "a" ∷ codes "b" ∷ []))
          + (scan host server [] (codes "a" ∷ codes "b" ∷ [])).malformed
        ≡ 2)
scan_example = scan_lem host server [] (codes "a" ∷ codes "b" ∷ [])
