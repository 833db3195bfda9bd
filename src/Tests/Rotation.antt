-- ===== src/Tests/Rotation.antt =====
-- A whole run under the lock, and the check of a store, at concrete inputs.
use repossess.Prelude.{codes, true, some, [], ◌∷◌, ◌≡◌, ◌⊎◌, refl, text_eq, trim}
use repossess.Effect.{ok, ◌>>=◌}
use repossess.Effect.Rules.{mapped}
use repossess.Stores.{fanout}
use repossess.Browser.{Browser}
use repossess.Canary
use repossess.Crypto.{compress, decompress, verify}
use repossess.Snapshot.{verify_digest, ensure_monotonic}
use repossess.Commands.Restore.{restore, decode_signature}
use repossess.Commands.Save.{save, save_at, mirror_snapshot, object_key, sig_key}
use repossess.Commands.Run.{Outcome, run_locked, rotate, on_canary, run_workloads}
use repossess.Commands.Run.Apart.{IsApart}
use repossess.Commands.Run.Outcomes.{LeftAlone, Rotated, run_locked-Ended}
use repossess.Commands.Verify
use repossess.Tests.Model.{Memory, host, view, memory_store}
use repossess.Tests.Laws.{
  host-IsCodec, host-Decrypts, host-Verifies, host-IsUndisturbed, memory-IsLawful,
}
use repossess.Tests.Server.{server}
use repossess.Tests.Examples.{session, saved}
use repossess.Tests.Workload.{config, ctx}

-- A browser that always has the same session.
abbrev chromium : Browser host server
chromium = record {
  BrowserSession = Unit;
  launch = λ bin dir headless w. (ok tt, w);
  open_page = λ s url w. (ok tt, w);
  import_storage_state = λ s state w. (ok tt, w);
  export_storage_state = λ s w. (ok session, w);
  wait_and_capture = λ s w. (ok session, w);
  close = λ s w. (ok tt, w);
  build_client = λ state c w. (ok tt, w);
  show_report = λ e. [];
}

chromium-IsApart : IsApart host view server chromium
chromium-IsApart = record {
  launch_view = λ bin dir headless j w. refl;
  import_view = λ s state j w. refl;
  build_client_view = λ state c j w. refl;
  close_view = λ s j w. refl;
  send_view = λ http url headers j w. refl;
}

-- The server is up.
abbrev up : Memory
up = record saved { requests = 1 }

rotated_ok : (run_locked host server chromium 4 config ctx 3 3 up).0 ≡ ok (Outcome.saved (8 ∷ []))
unfolding run_locked rotate on_canary run_workloads restore save ◌>>=◌ compress decompress verify
    decode_signature save_at ensure_monotonic text_eq sig_key object_key verify_digest
    mirror_snapshot fanout trim Canary.check
rotated_ok = refl

run_locked-Ended_example :
    LeftAlone host view server chromium chromium-IsApart 4 config ctx 3 3 host-IsCodec
      (host-Decrypts 5)
      (host-Verifies 3)
      memory-IsLawful
      tt
      host-IsUndisturbed
      up
      (Outcome.saved (8 ∷ []))
      (run_locked host server chromium 4 config ctx 3 3 up).1
    ⊎ Rotated host view server chromium chromium-IsApart 4 config ctx 3 3 host-IsCodec
        (host-Decrypts 5)
        (host-Verifies 3)
        memory-IsLawful
        tt
        host-IsUndisturbed
        up
        (Outcome.saved (8 ∷ []))
        (run_locked host server chromium 4 config ctx 3 3 up).1
run_locked-Ended_example =
    run_locked-Ended host view server chromium chromium-IsApart 4 config ctx 3 3 host-IsCodec
      (host-Decrypts 5) (host-Verifies 3) memory-IsLawful tt host-IsUndisturbed up
      (Outcome.saved (8 ∷ [])) rotated_ok

check-restore_example :
    Verify.check host memory_store 5 3 saved
    ≡ mapped (Verify.line_of host) (restore host memory_store 5 3 saved)
check-restore_example = Verify.check-restore host memory_store 5 3 saved

abbrev passed : Canary.CanaryResult
passed = record { ok = true; status = 200; observed = some (codes "https://example.org/me") }

passed_ok :
    (Canary.check host server tt
      (codes "https://example.org/me")
      200
      (codes "/user")
      (codes "https://example.org/me")
      up).0
    ≡ ok passed
unfolding Canary.check text_eq ◌>>=◌
passed_ok = refl

check-IsStrict_example :
    Canary.IsPassed host server tt
      (codes "https://example.org/me")
      200
      (codes "/user")
      (codes "https://example.org/me")
      up
      passed
check-IsStrict_example =
    Canary.check-IsStrict host server tt (codes "https://example.org/me") 200 (codes "/user")
      (codes "https://example.org/me") up passed passed_ok refl
