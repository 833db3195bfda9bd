-- ===== src/Tests/Exporting.antt =====
-- A concrete conversation, and its export.
use repossess.Prelude.{
  ℕ, ◌+◌, ◌<◌, Text, codes, Bool, true, false, Option, none, some, List, [], ◌∷◌, ◌++◌, ◌≡◌, refl,
  ap, ◌∙◌, subst, text_eq, trim, reverse, arith, if◌then◌else◌,
}
use repossess.Effect.{Result, ok, ◌>>=◌}
use repossess.Effect.Keeps.{Keeps}
use repossess.Config.{ExportCfg}
use repossess.Snapshot.{latest_key, verify_digest, ensure_monotonic}
use repossess.Crypto.{compress, verify, decompress}
use repossess.Browser.Http.{Reqwest}
use repossess.Chatgpt.{ConversationDetail, MappingNode, Formats}
use repossess.Chatgpt.Markdown.{
  node_at, heading, blocks, block_of, walk_to_current, climb, text_of, role_name, ts_fmt,
  to_markdown,
}
use repossess.Chatgpt.Markdown.Walk.{
  Chain, IsRankedBy, IsEndless, to_markdown-Chain, to_markdown-IsEndless,
}
use repossess.Chatgpt.Client.{
  ChatGptClient, new, list_conversations, get_conversation, get_round, on_response, api_error,
  get_loop, get_value, get_json,
}
use repossess.Chatgpt.Client.Bounded.{get_value_total}
use repossess.Chatgpt.Client.Answered.{Answered, get_json-Answered}
use repossess.Chatgpt.Client.Offline.{IsOffline}
use repossess.Commands.Export
use repossess.Commands.Save
use repossess.Commands.Save.{save_at, sig_key, object_key, mirror_snapshot}
use repossess.Stores.{fanout}
use repossess.Browser.Cookies.{cookies_to_reqwest_jar, set_cookie_line, cookie_url, trim_dots}
use repossess.Commands.Export.{
  Outcome, exported, restore_state, export_first, first_accessible, json_key, md_key,
  export_session,
}
use repossess.Commands.Export.Saved.{Saved, export_session-Saved}
use repossess.Commands.Export.Untouched.{export_session-Keeps}
use repossess.Commands.Restore.Integrity.{IsRestorable}
use repossess.Tests.Model.{Memory, host, view, memory_store, empty_memory}
use repossess.Tests.Laws.{memory-IsLawful}
use repossess.Tests.Server.{server}
use repossess.Tests.Examples.{saved}

abbrev Node : Type 0
Node = MappingNode host.F64 server.Value

abbrev question : Node
question = record {
  id = codes "q";
  message = some (record {
    id = codes "m1";
    author = record { role = codes "user" };
    create_time = none;
    content = record { content_type = codes "text"; parts = some (codes "Why?" ∷ []) };
    status = none;
  });
  parent = none;
  children = codes "a" ∷ [];
}

abbrev answer : Node
answer = record {
  id = codes "a";
  message = some (record {
    id = codes "m2";
    author = record { role = codes "assistant" };
    create_time = some 5;
    content = record { content_type = codes "text"; parts = some (codes "Because." ∷ []) };
    status = none;
  });
  parent = some (codes "q");
  children = [];
}

abbrev nodes : List (Text × Node)
nodes = (codes "q", question) ∷ (codes "a", answer) ∷ []

abbrev chat : ConversationDetail host.F64 server.Value
chat = record {
  id = codes "c1";
  title = some (codes "T");
  create_time = none;
  update_time = none;
  mapping = some nodes;
  current_node = some (codes "a");
}

abbrev formats : Formats host server
formats = record {
  detail_of_value = λ v. ok chat;
  to_vec_pretty = λ d. ok (codes "{}");
  to_rfc3339 = λ t. none;
  show_f64 = λ t. t ∷ [];
}

abbrev depth_of : Text → ℕ
depth_of id = if text_eq (codes "a") id then 1 else 0

parent_of : Option Node → Option Text
parent_of none = none
parent_of (some node) = node.parent

nodes_ranked : IsRankedBy nodes depth_of
unfolding text_eq parent_of
nodes_ranked id p node here child =
    by_test (text_eq (codes "q") id) (text_eq (codes "a") id) (ap parent_of here ∙ child)
  where
    some_text : {s t : Text} → some s ≡ some t → s ≡ t
    some_text e = cc

    by_test :
        (b c : Bool)
        → parent_of (if b then some question else if c then some answer else none) ≡ some p
        → depth_of p < (if c then 1 else 0)
    by_test true c e = absurd (cc)
    by_test false true e = subst (λ t. depth_of t < 1) (some_text e) (omega arith)
    by_test false false e = absurd (cc)

to_markdown-Chain_example :
    (path : List Node) × Chain nodes (codes "a") path
    × (to_markdown host server formats chat 2
        ≡ some (heading host server formats chat ++ blocks host server formats (reverse path)))
unfolding text_eq
to_markdown-Chain_example =
    to_markdown-Chain host server formats chat nodes (codes "a") refl refl depth_of nodes_ranked 2
      (omega arith)

-- A node that is its own parent.
abbrev lost : Node
lost = record answer { parent = some (codes "a") }

abbrev circle : ConversationDetail host.F64 server.Value
circle = record chat { mapping = some ((codes "a", lost) ∷ []) }

abbrev OnCircle : Text → Type 0
OnCircle id = id ≡ codes "a"

circle_endless : IsEndless ((codes "a", lost) ∷ []) OnCircle
unfolding text_eq
circle_endless id e = (lost, codes "a", ap (node_at ((codes "a", lost) ∷ [])) e, refl, refl)

to_markdown-IsEndless_example : to_markdown host server formats circle 1000 ≡ none
to_markdown-IsEndless_example =
    to_markdown-IsEndless host server formats circle ((codes "a", lost) ∷ []) (codes "a") refl refl
      OnCircle circle_endless refl 1000

abbrev client : ChatGptClient server
client = record {
  http = tt;
  base_url = codes "https://example.org";
  access_token = codes "token";
  rate_delay = 1;
  max_retries = 2;
}

abbrev warm : Memory
warm = record empty_memory { requests = 1 }

get_value_total_example :
    (r : Result server.Value × Memory) × ((extra : ℕ)
      → get_loop host server client (client.max_retries + 1 + extra) (codes "/x") 0 warm ≡ some r)
    × (get_value host server client (codes "/x") warm ≡ r)
get_value_total_example = get_value_total host server client (omega arith) (codes "/x") warm

got_chat : (get_json host server client formats.detail_of_value (codes "/x") warm).0 ≡ ok chat
unfolding get_json get_value get_loop get_round on_response api_error text_eq ◌>>=◌
got_chat = refl

get_json-Answered_example :
    (v : server.Value) × (formats.detail_of_value v ≡ ok chat)
    × Answered host server client
        (codes "/x")
        v
        (get_json host server client formats.detail_of_value (codes "/x") warm).1
get_json-Answered_example =
    get_json-Answered host server client (codes "/x") formats.detail_of_value warm chat got_chat

abbrev reqwest : Reqwest server
reqwest = record {
  Url = Text;
  Jar = List Text;
  HeaderName = Text;
  HeaderValue = Text;
  HeaderMap = List (Text × Text);
  parse_url = λ t. some t;
  empty_jar = [];
  add_cookie_str = λ jar line url. line ∷ jar;
  accept = codes "accept";
  header_name_of_bytes = λ t. ok t;
  header_value_of_str = λ t. ok t;
  header_value_of_static = λ t. t;
  no_headers = [];
  insert = λ n v headers. (n, v) ∷ headers;
  build = λ jar user_agent headers. ok tt;
}

abbrev export_cfg : ExportCfg
export_cfg = record {
  chatgpt_base_url = codes "https://example.org";
  rate_limit_delay_ms = 1;
  max_retries = 2;
  prefix = codes "export/";
}

abbrev logged_in : Memory
logged_in = record saved { requests = 1 }

exports_chat :
    (export_session host server formats memory_store export_cfg 2 reqwest
      (codes "agent")
      5
      3
      logged_in).0
    ≡ ok (exported chat)
unfolding export_session restore_state export_first first_accessible Export.save json_key md_key
    ◌>>=◌ Save.save compress decompress verify save_at ensure_monotonic text_eq sig_key object_key
    verify_digest mirror_snapshot fanout trim new list_conversations get_conversation get_json
    get_value get_loop get_round on_response api_error to_markdown heading blocks block_of
    walk_to_current climb text_of role_name ts_fmt cookies_to_reqwest_jar set_cookie_line cookie_url
    trim_dots
exports_chat = refl

export_session-Saved_example :
    IsRestorable host view 5 3 logged_in
    × Saved host view memory_store memory-IsLawful server formats export_cfg 2 chat
        (export_session host server formats memory_store export_cfg 2 reqwest
          (codes "agent")
          5
          3
          logged_in).1
export_session-Saved_example =
    export_session-Saved host view memory_store memory-IsLawful server formats export_cfg 2 chat
      reqwest (codes "agent") 5 3 logged_in exports_chat

server-IsOffline : IsOffline host view server
server-IsOffline = record { send_view = λ http url headers j w. refl; sleep_view = λ ms j w. refl }

json-ne-latest : (id : Text) → text_eq (json_key export_cfg.prefix id) latest_key ≡ false
unfolding json_key text_eq
json-ne-latest id = refl

md-ne-latest : (id : Text) → text_eq (md_key export_cfg.prefix id) latest_key ≡ false
unfolding md_key text_eq
md-ne-latest id = refl

export_session-Keeps_example :
    Keeps
      (λ w. view w latest_key ≡ view logged_in latest_key)
      (export_session host server formats memory_store export_cfg 2 reqwest (codes "agent") 5 3)
export_session-Keeps_example =
    export_session-Keeps host view memory_store memory-IsLawful server server-IsOffline formats
      export_cfg 2 latest_key json-ne-latest md-ne-latest (view logged_in latest_key) reqwest
      (codes "agent") 5 3
