-- ===== src/Tests/Limits.antt =====
-- The export client against a server that lets nothing through.
use repossess.Prelude.{codes, none, [], ◌≡◌, refl, arith}
use repossess.Effect.{ok, err}
use repossess.Web.{Web}
use repossess.Chatgpt.Client.{ChatGptClient, get_loop, get_json}
use repossess.Chatgpt.Client.Limited.{
  IsLimiting, limit_reached, get_json-IsLimiting, get_loop_endless,
}
use repossess.Tests.Model.{host, empty_memory}
use repossess.Tests.Server.{server}

-- A server that lets nothing through.
abbrev refusing : Web host
refusing = record server {
  send = λ http url headers w. (ok (record { status = 429; headers = []; body = ok [] }), w);
}

abbrev refused : ChatGptClient refusing
refused = record {
  http = tt;
  base_url = codes "https://example.org";
  access_token = codes "token";
  rate_delay = 1;
  max_retries = 2;
}

refusing-IsLimiting : IsLimiting host refusing refused (codes "/x")
refusing-IsLimiting w = (_, refl, refl)

get_json-IsLimiting_example :
    (get_json host refusing refused (λ v. ok v) (codes "/x") empty_memory).0
    ≡ err (limit_reached host refusing refused (codes "/x"))
get_json-IsLimiting_example =
    get_json-IsLimiting host refusing refused (codes "/x") (omega arith) (λ v. ok v) empty_memory
      refusing-IsLimiting

abbrev patient : ChatGptClient refusing
patient = record refused { max_retries = 4294967295 }

patient-IsLimiting : IsLimiting host refusing patient (codes "/x")
patient-IsLimiting w = (_, refl, refl)

get_loop_endless_example : get_loop host refusing patient 1000 (codes "/x") 0 empty_memory ≡ none
get_loop_endless_example =
    get_loop_endless host refusing patient (codes "/x") (omega arith) patient-IsLimiting 1000 0
      empty_memory
