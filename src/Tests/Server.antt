-- ===== src/Tests/Server.antt =====
-- A concrete server, which fails the first request with 503 and answers every other one with its own
-- URL; a list always has one conversation.
use repossess.Prelude.{
  text_eq, if◌then◌else◌, ℕ, zero, suc, ◌+◌, Text, codes, none, some, [], ◌∷◌, refl,
}
use repossess.Effect.{ok}
use repossess.Config.{ChatgptChatsCfg}
use repossess.Web.{Web, Response, Kind}
use repossess.Chats.Client.Offline.{IsApart}
use repossess.Tests.Model.{host, view}

abbrev answer : ℕ → Text → Response
answer zero url = record { status = 503; headers = []; body = ok url }
answer (suc n) url = record { status = 200; headers = []; body = ok url }

abbrev pub server : Web host
server = record {
  Client = Unit;
  Value = Text;
  send =
      λ client url headers w. (ok (answer w.requests url), record w { requests = w.requests + 1 });
  sleep = λ ms w. record w { clock = w.clock + ms };
  parse_json = λ t. ok t;
  get = λ v k. if text_eq k (codes "id") then some v else none;
  pointer = λ v p. some v;
  as_f64 = λ v. none;
  kind = λ v. Kind.string v;
  value_to_vec = λ v. ok v;
  value_from_slice = λ b. ok b;
  session_of_json = λ t. ok (some (codes "token"));
  list_of_value = λ v. ok (record { id = codes "c1"; title = none; update_time = some 3 } ∷ []);
  parse_u64 = λ t. none;
  show = λ n. n ∷ [];
}

abbrev pub chats_cfg : ChatgptChatsCfg
chats_cfg = record {
  name = codes "chats";
  prefix = codes "chats/";
  base_url = codes "https://example.org";
  session_path = codes "/session";
  list_path = codes "/list";
  detail_path_template = codes "/chat/{id}";
  list_page_limit = 2;
  incremental_stop_after_known = 2;
  list_delay_ms = 1;
  detail_delay_ms = 1;
  detail_batch_size = 4;
  detail_batch_cooldown_ms = 1;
  retry_sweep_cooldown_ms = 1;
  max_backoff_ms = 1000;
  max_retries = 2;
  zstd_level = 3;
}

pub server-IsApart : IsApart host view server tt chats_cfg
server-IsApart = record { send_view = λ url headers j w. refl; sleep_view = λ ms j w. refl }
