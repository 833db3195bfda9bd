-- ===== src/Commands/Run/Apart.antt =====
-- Chromium and the canary of src/commands/run.rs, and the stored objects.
use repossess.Prelude.{ℕ, Text, Bool, Option, List, [], ◌≡◌, ◌∙◌}
use repossess.Effect.Keeps.{Keeps, Keeps-bind, Keeps-context, Keeps-if, Keeps-pure, Keeps-lift}
use repossess.Data.{StorageState}
use repossess.Config.{Canary}
use repossess.Host.{Host}
use repossess.Stores.Contract.{View, Object}
use repossess.Web.{Web}
use repossess.Browser.{Browser}
use repossess.Canary.{check}

-- Chromium and HTTP requests leave the stored objects alone.
pub record IsApart (h : Host) (view : View h) (web : Web h) (browser : Browser h web) : Type 0 where
  pub launch_view :
      (bin dir : Text) (headless : Bool) (j : Text) (w : h.World)
      → view (browser.launch bin dir headless w).1 j ≡ view w j
  pub import_view :
      (s : browser.BrowserSession) (state : StorageState h.F64) (j : Text) (w : h.World)
      → view (browser.import_storage_state s state w).1 j ≡ view w j
  pub build_client_view :
      (state : StorageState h.F64) (c : Canary) (j : Text) (w : h.World)
      → view (browser.build_client state c w).1 j ≡ view w j
  pub close_view :
      (s : browser.BrowserSession) (j : Text) (w : h.World)
      → view (browser.close s w).1 j ≡ view w j
  pub send_view :
      (http : web.Client) (url : Text) (headers : List (Text × Text)) (j : Text) (w : h.World)
      → view (web.send http url headers w).1 j ≡ view w j

module _ (h : Host) (view : View h) (web : Web h) (browser : Browser h web)
    (offline : IsApart h view web browser) where
  pub check-Keeps :
      (http : web.Client) (url : Text) (status : ℕ) (field value j : Text) (o : Option (Object h))
      → Keeps (λ u. view u j ≡ o) (check h web http url status field value)
  unfolding check
  check-Keeps http url status field value j o =
      Keeps-bind _ _ (Keeps-context _ _ sent)
        λ res. Keeps-if _ _ _ (Keeps-pure _) (Keeps-bind _ _ (Keeps-lift _) λ _. Keeps-pure _)
    where
      sent : Keeps (λ u. view u j ≡ o) (web.send http url [])
      sent = record { at = λ u e. offline.send_view http url [] j u ∙ e }
