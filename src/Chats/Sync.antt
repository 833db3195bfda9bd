-- ===== src/Chats/Sync.antt =====
-- `run` of the workload in src/workload/chatgpt_chats.rs.
pub mod Untouched
pub mod Apart
use repossess.Prelude.{
  ℕ, zero, suc, ◌-◌, ◌==◌, Text, Bool, true, false, Option, none, some, List, [], ◌∷◌, ◌++◌, codes,
  is_empty, if◌then◌else◌, reverse,
}
use repossess.Effect.{M, Result, ok, err, message, lift, total, pure, bail, ◌>>=◌, ◌>>◌}
use repossess.Data.{ChatsIndex, ChatsIndexEntry}
use repossess.Config.{ChatgptChatsCfg}
use repossess.Host.{Host}
use repossess.Web.{Web, ConversationSummary}
use repossess.Chats.Client.{
  Session, Fetch, got, inaccessible, transient, fatal, fetch_session, get_raw, list,
}
use repossess.Chats.Collect.{collect_loop, is_known, at_least_one}
use repossess.Chats.Store.{Ctx, insert_entry, load_index, save_index, store_conversation}

-- `to_fetch.chunks(size)`: `room` is what still fits the current chunk, which is kept in reverse.
chunks_from : {A : Type 0} → ℕ → ℕ → List A → List A → List (List A)
chunks_from size room [] [] = []
chunks_from size room (y ∷ cur) [] = reverse (y ∷ cur) ∷ []
chunks_from size zero cur (x ∷ xs) = reverse cur ∷ chunks_from size (size - 1) (x ∷ []) xs
chunks_from size (suc room) cur (x ∷ xs) = chunks_from size room (x ∷ cur) xs

unfoldable pub chunks : {A : Type 0} → ℕ → List A → List (List A)
unfolding chunks_from
chunks size xs = chunks_from size size [] xs

module _ (h : Host) (web : Web h) (http : web.Client) (cfg : ChatgptChatsCfg) (ctx : Ctx h) where
  abbrev pub Summary : Type 0
  Summary = ConversationSummary h.F64

  abbrev pub Index : Type 0
  Index = ChatsIndex h.F64

  -- An action on the world, in a session.
  abbrev pub on_world : {A : Type 0} → M h.World A → M (Session h) A
  on_world m s = ((m s.world).0, record s { world = (m s.world).1 })

  abbrev pub sleep : ℕ → M (Session h) (Unit {0})
  sleep ms = total (λ s. (tt, record s { world = web.sleep ms s.world }))

  -- The calls of `list`, each after a pause.
  unfoldable pub list_slowly : ℕ → ℕ → M (Session h) (List Summary)
  list_slowly offset limit = do sleep cfg.list_delay_ms; list h web http cfg offset limit

  -- With fuel for so many pages.
  unfoldable pub collect_outdated : ℕ → Index → M (Session h) (Option (List Summary))
  collect_outdated fuel index =
      collect_loop list_slowly (is_known h.f64_eq index.entries) (at_least_one cfg.list_page_limit)
        (at_least_one cfg.incremental_stop_after_known) fuel 0 0 []

  unfoldable pub store_body : Summary → web.Value → Index → M (Session h) Index
  store_body summary body index = do
    entry ←
        on_world
          (store_conversation h cfg web ctx summary.id summary.title summary.update_time body)
    pure (insert_entry summary.id entry index)

  -- The first attempt at one conversation: the index and the list `failed` after it.
  unfoldable pub on_fetch :
      Summary → Index → List Summary → Fetch web.Value → M (Session h) (Index × List Summary)
  on_fetch summary index failed (got body) = do
    index' ← store_body summary body index
    pure (index', failed)
  on_fetch summary index failed (inaccessible msg) = pure (index, failed)
  on_fetch summary index failed (transient msg) = pure (index, failed ++ summary ∷ [])
  on_fetch summary index failed (fatal e) = bail e

  unfoldable pub fetch_chunk :
      List Summary → Index → List Summary → M (Session h) (Index × List Summary)
  fetch_chunk [] index failed = pure (index, failed)
  fetch_chunk (summary ∷ chunk) index failed = do
    sleep cfg.detail_delay_ms
    r ← total (get_raw h web http cfg summary.id)
    (index', failed') ← on_fetch summary index failed r
    fetch_chunk chunk index' failed'

  -- The chunks after the first, each after a cooldown.
  unfoldable pub fetch_later_chunks :
      List (List Summary) → Index → List Summary → M (Session h) (Index × List Summary)
  fetch_later_chunks [] index failed = pure (index, failed)
  fetch_later_chunks (chunk ∷ rest) index failed = do
    sleep cfg.detail_batch_cooldown_ms
    (index', failed') ← fetch_chunk chunk index failed
    fetch_later_chunks rest index' failed'

  unfoldable pub fetch_chunks : List (List Summary) → Index → M (Session h) (Index × List Summary)
  fetch_chunks [] index = pure (index, [])
  fetch_chunks (chunk ∷ rest) index = do
    (index', failed) ← fetch_chunk chunk index []
    fetch_later_chunks rest index' failed

  -- The retry sweep: any error leaves the conversation for the next run.
  unfoldable pub on_retry : Summary → Index → Fetch web.Value → M (Session h) Index
  on_retry summary index (got body) = store_body summary body index
  on_retry summary index (inaccessible msg) = pure index
  on_retry summary index (transient msg) = pure index
  on_retry summary index (fatal e) = pure index

  unfoldable pub retry_each : List Summary → Index → M (Session h) Index
  retry_each [] index = pure index
  retry_each (summary ∷ failed) index = do
    sleep cfg.detail_delay_ms
    r ← total (get_raw h web http cfg summary.id)
    index' ← on_retry summary index r
    retry_each failed index'

  unfoldable pub retry_sweep : List Summary → Index → M (Session h) Index
  retry_sweep [] index = pure index
  retry_sweep (summary ∷ failed) index = do
    sleep cfg.retry_sweep_cooldown_ms
    retry_each (summary ∷ failed) index

  -- Phases 2 to 4, for the conversations that phase 1 found; `none` is its fuel running out.
  unfoldable pub sync : Index → Option Text → Option (List Summary) → M (Session h) (Unit {0})
  sync index prev_etag none = bail (message (codes "out of fuel"))
  sync index prev_etag (some []) = pure tt
  sync index prev_etag (some (s ∷ to_fetch)) = do
    (index', failed) ←
        fetch_chunks (chunks (at_least_one cfg.detail_batch_size) (s ∷ to_fetch)) index
    index'' ← retry_sweep failed index'
    on_world (save_index h cfg ctx index'' prev_etag)

  -- A session with the token, and the world that it leaves.
  abbrev pub with_token : {A : Type 0} → Text → M (Session h) A → M h.World A
  with_token token m w = let r = m (record { world = w; token = token }) in (r.0, r.1.world)

  unfoldable pub run : ℕ → M h.World (Unit {0})
  run fuel = do
    (index, prev_etag) ← load_index h cfg ctx.primary ctx.identity
    token ← fetch_session h web http cfg
    with_token token (do to_fetch ← collect_outdated fuel index; sync index prev_etag to_fetch)
