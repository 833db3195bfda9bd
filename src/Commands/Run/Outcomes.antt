-- ===== src/Commands/Run/Outcomes.antt =====
-- What the two outcomes of `run_locked` say about the store.
use repossess.Prelude.{
  ℕ, Text, Bool, true, false, ◌≡◌, ◌⊎◌, refl, subst, ◌∙◌, is_empty, if◌then◌else◌, inl, inr,
}
use repossess.Effect.{M, Result, ok, err, Report, bail, total, pure, ◌>>=◌}
use repossess.Effect.Rules.{ok_injective, bind_rule}
use repossess.Data.{StorageState}
use repossess.Config.{Config}
use repossess.Host.{Host}
use repossess.Host.Laws.{IsCodec, Decrypts, Verifies}
use repossess.Stores.Contract.{View, IsLawful, AreApart, IsUndisturbed}
use repossess.Web.{Web}
use repossess.Browser.{Browser}
use repossess.Canary.{CanaryResult, check}
use repossess.Chats.Store.{Ctx}
use repossess.Commands.Restore.{Restored, restore}
use repossess.Commands.Restore.Integrity.{Found, restore-Found, restore-Keeps}
use repossess.Commands.Save.{save}
use repossess.Commands.Save.Success.{Saved, save-Saved}
use repossess.Commands.Run.Apart.{IsApart, check-Keeps}
use repossess.Commands.Run.{
  Outcome, saved, canary_failed, rotate, on_canary, run_locked, run_workloads,
}

module _ (h : Host) (view : View h) (web : Web h) (browser : Browser h web)
    (offline : IsApart h view web browser) (fuel : ℕ) (cfg : Config) (ctx : Ctx h)
    (k : h.SigningKey) (v : h.VerifyingKey) (codec : IsCodec h)
    (keys : Decrypts h ctx.identity ctx.recipient) (fit : Verifies h v k)
    (law : IsLawful h view ctx.primary) (apart : AreApart h view ctx.mirrors)
    (still : IsUndisturbed h view) where
  -- The worlds that a run goes through until it has asked the canary.
  abbrev after_restore : h.World → h.World
  after_restore w = (restore h ctx.primary ctx.identity v w).1

  abbrev after_launch : h.World → h.World
  after_launch w =
      (browser.launch cfg.browser.chromium_bin cfg.browser.user_data_dir cfg.browser.headless
        (after_restore w)).1

  abbrev after_import : h.World → Restored h → browser.BrowserSession → h.World
  after_import w prev session = (browser.import_storage_state session prev.state (after_launch w)).1

  abbrev after_client : h.World → Restored h → browser.BrowserSession → h.World
  after_client w prev session =
      (browser.build_client prev.state cfg.canary (after_import w prev session)).1

  abbrev ask : web.Client → M h.World CanaryResult
  ask http =
      check h web http cfg.canary.url cfg.canary.expected_status cfg.canary.field
        cfg.canary.expected_value

  -- The canary was asked, with the cookies of the state that was restored.
  pub record Asked (w : h.World) (prev : Restored h) (session : browser.BrowserSession)
      (http : web.Client) (result : CanaryResult) : Type 0 where
    pub restored : (restore h ctx.primary ctx.identity v w).0 ≡ ok prev
    pub launched :
        (browser.launch cfg.browser.chromium_bin cfg.browser.user_data_dir cfg.browser.headless
          (after_restore w)).0
        ≡ ok session
    pub imported : (browser.import_storage_state session prev.state (after_launch w)).0 ≡ ok tt
    pub built :
        (browser.build_client prev.state cfg.canary (after_import w prev session)).0 ≡ ok http
    pub asked : (ask http (after_client w prev session)).0 ≡ ok result

  abbrev asked_at : h.World → Restored h → browser.BrowserSession → web.Client → h.World
  asked_at w prev session http = (ask http (after_client w prev session)).1

  -- The canary failed, as the outcome reports, and every object is as it was.
  abbrev pub LeftAlone : h.World → Outcome → h.World → Type 0
  LeftAlone w o w' =
      (prev : Restored h) × (session : browser.BrowserSession) × (http : web.Client)
      × (result : CanaryResult) × Asked w prev session http result
      × (result.ok ≡ false)
      × (o ≡ canary_failed result.status result.observed)
      × ((j : Text) → view w' j ≡ view w j)

  -- In the world `u`, the workloads have run and the browser has given its state and was closed.
  pub record Worked (w u : h.World) (session : browser.BrowserSession) (http : web.Client)
      (state : StorageState h.F64) : Type 0 where
    pub ran : (run_workloads h web browser fuel http ctx cfg.workloads w).0 ≡ ok tt
    pub exported :
        (browser.export_storage_state session
          (run_workloads h web browser fuel http ctx cfg.workloads w).1).0
        ≡ ok state
    pub closed :
        (browser.close session
          (browser.export_storage_state session
            (run_workloads h web browser fuel http ctx cfg.workloads w).1).1).0
        ≡ ok tt
    pub then_there :
        (browser.close session
          (browser.export_storage_state session
            (run_workloads h web browser fuel http ctx cfg.workloads w).1).1).1
        ≡ u
    pub has_cookies : is_empty state.cookies ≡ false

  -- The canary passed, the workloads ran, and the state that the browser had then was saved, in place
  -- of the snapshot that was restored at the start.
  abbrev pub Rotated : h.World → Outcome → h.World → Type 0
  Rotated w o w' =
      (prev : Restored h) × (session : browser.BrowserSession) × (http : web.Client)
      × (result : CanaryResult) × Asked w prev session http result
      × (result.ok ≡ true)
      × Found h view ctx.identity v ctx.primary law w prev
      × (version : Text) × (o ≡ saved version)
      × (state : StorageState h.F64) × (u : h.World) × Worked (asked_at w prev session http) u
          session http state
      × Saved h view ctx.identity v ctx.recipient k codec keys fit ctx.primary law ctx.mirrors apart
          still state prev.pointer prev.pointer_etag u version w'

  module _ (w : h.World) where
    P : Result Outcome → h.World → Type 0
    P r w' = (o : Outcome) → r ≡ ok o → LeftAlone w o w' ⊎ Rotated w o w'

    failed : (e : Report) (w' : h.World) → P (err e) w'
    unfolding P
    failed e w' o bad = absurd (cc)

    arrived : (o : Outcome) (w' : h.World) → LeftAlone w o w' ⊎ Rotated w o w' → P (ok o) w'
    unfolding P
    arrived o w' x o' e = subst (λ t. LeftAlone w t w' ⊎ Rotated w t w') (ok_injective e) x

    module _ (prev : Restored h) (session : browser.BrowserSession) (http : web.Client)
        (result : CanaryResult) (asked : Asked w prev session http result) where
      found : Found h view ctx.identity v ctx.primary law w prev
      found = restore-Found h view ctx.identity v ctx.primary law w prev asked.restored

      save_it : StorageState h.F64 → M h.World Outcome
      save_it state =
          save h ctx.primary ctx.mirrors ctx.recipient k state prev.pointer prev.pointer_etag
          >>= λ version. pure (saved version)

      after_close :
          (state : StorageState h.F64) (b : Bool) (e : Report) (u : h.World)
          → is_empty state.cookies ≡ b
          → result.ok ≡ true
          → (is_empty state.cookies ≡ false
              → Worked (asked_at w prev session http) u session http state)
          → P
              ((if b then bail e else save_it state) u).0
              ((if b then bail e else save_it state) u).1
      unfolding save_it
      after_close state true e u empty passed worked = failed e u
      after_close state false e u more passed worked =
          bind_rule P _ _ u (λ x _. failed x _)
            λ version done. arrived (saved version) _ (
              inr (
                prev,
                session,
                http,
                result,
                asked,
                passed,
                found,
                version,
                refl,
                state,
                u,
                worked more,
                save-Saved h view ctx.identity v ctx.recipient k codec keys fit ctx.primary law
                    ctx.mirrors apart still state prev.pointer prev.pointer_etag u version done,
              ))

      rotate-P :
          result.ok ≡ true
          → P
              (rotate h web browser fuel cfg ctx k prev session http
                (asked_at w prev session http)).0
              (rotate h web browser fuel cfg ctx k prev session http
                (asked_at w prev session http)).1
      unfolding rotate save_it
      rotate-P passed =
          bind_rule P _ _ _ (λ x _. failed x _)
            λ _ ran.
              bind_rule P _ _ _ (λ x _. failed x _)
                λ state exported.
                  bind_rule P _ _ _ (λ x _. failed x _)
                    λ _ closed. after_close state _ _ _ refl passed λ more. record {
                      ran = ran;
                      exported = exported;
                      closed = closed;
                      then_there = refl;
                      has_cookies = more;
                    }

      on_canary-P :
          ((j : Text) → view (asked_at w prev session http) j ≡ view w j)
          → P
              (on_canary h web browser fuel cfg ctx k prev session http result
                (asked_at w prev session http)).0
              (on_canary h web browser fuel cfg ctx k prev session http result
                (asked_at w prev session http)).1
      unfolding on_canary
      on_canary-P same = choose result.ok refl
        where
          close : M h.World (Unit {0})
          close = total (λ x. (tt, (browser.close session x).1))

          branch : Bool → M h.World Outcome
          branch b =
              if b
              then rotate h web browser fuel cfg ctx k prev session http
              else (close >>= λ _. pure (canary_failed result.status result.observed))

          choose :
              (b : Bool)
              → result.ok ≡ b
              → P
                  (branch b (asked_at w prev session http)).0
                  (branch b (asked_at w prev session http)).1
          choose true passed = rotate-P passed
          choose false refused =
              bind_rule P _ close (asked_at w prev session http) (λ x _. failed x _)
                λ _ _. arrived _ _ (
                  inl (
                    prev,
                    session,
                    http,
                    result,
                    asked,
                    refused,
                    refl,
                    λ j. offline.close_view session j _ ∙ same j,
                  ))

    run_locked-P :
        P
          (run_locked h web browser fuel cfg ctx k v w).0
          (run_locked h web browser fuel cfg ctx k v w).1
    unfolding run_locked
    run_locked-P =
        bind_rule P _ _ w (λ x _. failed x _)
          λ prev restored.
            bind_rule P _ _ _ (λ x _. failed x _)
              λ session launched.
                bind_rule P _ _ _ (λ x _. failed x _)
                  λ _ imported.
                    bind_rule P _ _ _ (λ x _. failed x _)
                      λ http built.
                        bind_rule P _ _ _ (λ x _. failed x _)
                          λ result asked.
                            on_canary-P prev session http result
                              (record {
                                restored = restored;
                                launched = launched;
                                imported = imported;
                                built = built;
                                asked = asked;
                              })
                              (λ j.
                                (check-Keeps h view web browser offline _ _ _ _ _ j _).at _ refl
                                ∙ offline.build_client_view _ _ j _
                                ∙ offline.import_view _ _ j _
                                ∙ offline.launch_view _ _ _ j _
                                ∙ (restore-Keeps h view ctx.identity v ctx.primary law j _).at w
                                    refl)

  -- If a run under the lock returns, then the canary was asked with the state that was restored at
  -- the start, and either it failed, which is the outcome, and no object was touched; or it passed,
  -- the workloads ran, and the state that the browser had after them, which has cookies, was saved:
  -- the store restores to that state under the version returned, and its pointer replaced, and is
  -- newer than, the checked pointer that was restored at the start.
  pub run_locked-Ended :
      (w : h.World) (o : Outcome)
      → (run_locked h web browser fuel cfg ctx k v w).0 ≡ ok o
      → LeftAlone w o (run_locked h web browser fuel cfg ctx k v w).1
        ⊎ Rotated w o (run_locked h web browser fuel cfg ctx k v w).1
  unfolding P
  run_locked-Ended w o = run_locked-P w o
