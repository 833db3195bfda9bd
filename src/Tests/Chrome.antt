-- ===== src/Tests/Chrome.antt =====
-- A concrete browser that holds one session cookie, and shows no page.
use repossess.Prelude.{codes, ◌≡◌, ◌≢◌, refl, true, false, none, some, [], ◌∷◌, is_empty, ◌==◌}
use repossess.Effect.{ok, pure, ◌>>=◌}
use repossess.Data.{StorageState}
use repossess.Browser.Cookies.{Cookie, lax, medium, secure_scheme, stored_of}
use repossess.Browser.Cookies.RoundTrip.{kept, bring, import-export_storage_state}
use repossess.Browser.Session.{
  Chromium, BrowserSession, tick, changed, stream_ended, wait_and_capture, wait_loop, on_event,
  export_cookies, export_storage_state, import_storage_state,
}
use repossess.Browser.Session.Capture.{wait_and_capture-ok, wait_and_capture_ends}
use repossess.Tests.Model.{host, empty_memory}

abbrev login : Cookie host.F64
login = record {
  name = codes "session";
  value = codes "v";
  domain = codes ".example.org";
  path = codes "/";
  expires = 0;
  http_only = true;
  secure = true;
  same_site = some lax;
  size = 8;
  session = true;
  priority = medium;
  same_party = false;
  source_scheme = secure_scheme;
  source_port = some 443;
  partition_key = none;
}

abbrev chrome : Chromium host
chrome = record {
  Process = Unit {0};
  Page = Unit {0};
  create_dir_all = λ dir. pure tt;
  launch = λ bin dir args headless. pure tt;
  new_page = λ browser url. pure tt;
  add_script = λ page script. pure tt;
  goto = λ page url. pure tt;
  get_cookies = λ browser. pure (login ∷ []);
  clear_cookies = λ browser. pure tt;
  set_cookies = λ browser params. pure tt;
  get_targets = λ browser. pure [];
  listen = λ browser. pure tt;
  close = λ browser. pure tt;
  wait = λ browser. pure tt;
  is_negative = λ x. x == 0;
}

abbrev session : BrowserSession chrome
session = record { browser = tt; user_data_dir = codes "/tmp/profile"; browser_closed = false }

abbrev exported : StorageState host.F64
exported = record { cookies = stored_of (λ x. x == 0) login ∷ []; origins = [] }

captures_login :
    (wait_and_capture host chrome session (changed ∷ tick ∷ []) empty_memory).0 ≡ some (ok exported)
unfolding wait_and_capture wait_loop on_event export_storage_state export_cookies ◌>>=◌
captures_login = refl

wait_and_capture-ok_example :
    (is_empty exported.cookies ≡ false)
    × ((wait_and_capture host chrome session (changed ∷ tick ∷ []) empty_memory).1.browser_closed
        ≡ true)
wait_and_capture-ok_example =
    wait_and_capture-ok host chrome session (changed ∷ tick ∷ []) empty_memory exported
      captures_login

wait_and_capture_ends_example :
    (wait_and_capture host chrome session (changed ∷ stream_ended ∷ []) empty_memory).0 ≢ none
wait_and_capture_ends_example =
    wait_and_capture_ends host chrome session (changed ∷ []) [] empty_memory

exports_login : (export_storage_state host chrome tt empty_memory).0 ≡ ok exported
unfolding export_storage_state export_cookies ◌>>=◌
exports_login = refl

import-export_storage_state_example :
    import_storage_state host chrome tt exported
    ≡ bring host chrome tt (kept (λ x. x == 0) login ∷ [])
import-export_storage_state_example =
    import-export_storage_state host chrome tt tt (login ∷ []) exported empty_memory refl
      exports_login
