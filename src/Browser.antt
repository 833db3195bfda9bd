-- ===== src/Browser.antt =====
-- The operations of `BrowserSession` and of the cookie jar in src/browser/cdp.rs, which drive Chromium
-- through chromiumoxide and fill a reqwest client: parameters of the commands.
pub mod Cookies
pub mod Session
pub mod Http
use repossess.Prelude.{Text, Bool}
use repossess.Effect.{M, Report}
use repossess.Data.{StorageState}
use repossess.Config.{Canary}
use repossess.Host.{Host}
use repossess.Web.{Web}

pub record Browser (h : Host) (web : Web h) : Type 1 where
  pub BrowserSession : Type 0
  pub launch : (chromium_bin user_data_dir : Text) (headless : Bool) → M h.World BrowserSession
  pub open_page : BrowserSession → Text → M h.World (Unit {0})
  pub import_storage_state : BrowserSession → StorageState h.F64 → M h.World (Unit {0})
  pub export_storage_state : BrowserSession → M h.World (StorageState h.F64)
  pub wait_and_capture : BrowserSession → M h.World (StorageState h.F64)
  pub close : BrowserSession → M h.World (Unit {0})
  -- `canary::build_client`, on the jar of a storage state.
  pub build_client : StorageState h.F64 → Canary → M h.World web.Client
  -- A report printed with `{:#}`.
  pub show_report : Report → Text
