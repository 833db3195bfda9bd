-- ===== src/Chats/Sync/Apart.antt =====
-- The keys of the workload end in ".age", so they are never those of the pointer and of the lock.
use repossess.Prelude.{ℕ, Text, last, last-append, differ_at_end, ◌∷◌, ◌≡◌, sym, ◌∙◌, arith, Option}
use repossess.Effect.Keeps.{Keeps}
use repossess.Config.{ChatgptChatsCfg}
use repossess.Host.{Host}
use repossess.Snapshot.{latest_key, lock_key}
use repossess.Stores.Contract.{View, Object, IsLawful, AreApart, IsUndisturbed}
use repossess.Web.{Web}
use repossess.Chats.Client.Offline.{IsApart}
use repossess.Chats.Store.{Ctx, index_key, conv_key}
use repossess.Chats.Sync.{run}
use repossess.Chats.Sync.Untouched.{run-Keeps}

last-index_key : (cfg : ChatgptChatsCfg) → last (index_key cfg) ≡ b'e'
unfolding index_key
last-index_key cfg = last-append cfg.prefix _ _

last-conv_key : (cfg : ChatgptChatsCfg) (id : Text) → last (conv_key cfg id) ≡ b'e'
unfolding conv_key
last-conv_key cfg id = last-append cfg.prefix _ _ ∙ last-append (b'/' ∷ id) _ _

module _ (h : Host) (view : View h) (web : Web h) (http : web.Client) (cfg : ChatgptChatsCfg)
    (ctx : Ctx h) (law : IsLawful h view ctx.primary) (apart : AreApart h view ctx.mirrors)
    (still : IsUndisturbed h view) (offline : IsApart h view web http cfg) where
  -- Whatever prefix the workload is given, a run of it leaves the pointer and the lock alone.
  pub run-Keeps_pointer :
      (o o' : Option (Object h)) (fuel : ℕ)
      → Keeps (λ w. view w latest_key ≡ o) (run h web http cfg ctx fuel)
        × Keeps (λ w. view w lock_key ≡ o') (run h web http cfg ctx fuel)
  run-Keeps_pointer o o' fuel =
      (kept latest_key (λ e. omega arith) o, kept lock_key (λ e. omega arith) o')
    where
      kept :
          (j : Text)
          → ¬ (b'e' ≡ last j)
          → (x : Option (Object h)) → Keeps (λ w. view w j ≡ x) (run h web http cfg ctx fuel)
      kept j ne x =
          run-Keeps h view web http cfg ctx law apart still offline j
            (differ_at_end _ j (λ e. ne (sym (last-index_key cfg) ∙ e)))
            (λ id. differ_at_end _ j (λ e. ne (sym (last-conv_key cfg id) ∙ e))) x fuel
