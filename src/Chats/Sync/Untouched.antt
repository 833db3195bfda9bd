-- ===== src/Chats/Sync/Untouched.antt =====
-- The workload writes its index and its conversations, and no other object.
use repossess.Prelude.{
  ℕ, zero, suc, Text, Bool, false, Option, none, some, List, [], ◌∷◌, ◌≡◌, ◌∙◌, text_eq, is_empty,
  ltb, length, if_both,
}
use repossess.Effect.{M, Result, ok, err, total}
use repossess.Effect.Keeps.{Keeps, Keeps-pure, Keeps-bail, Keeps-bind, keeps_rules}
use repossess.Config.{ChatgptChatsCfg}
use repossess.Host.{Host}
use repossess.Stores.{fanout}
use repossess.Stores.Contract.{View, Object, IsLawful, AreApart, IsUndisturbed, view-fanout}
use repossess.Web.{Web}
use repossess.Chats.Client.{Session, Fetch, got, inaccessible, transient, fatal, get_raw, list}
use repossess.Chats.Client.Offline.{IsApart, fetch_session-Keeps, get_raw-Same, list-Keeps}
use repossess.Chats.Collect.{Scan, caught_up, scanned, scan_page, collect_loop, on_scan, on_page}
use repossess.Chats.Store.{
  Ctx, index_key, conv_key, empty_index, encode_index, decode_index, load_found, load_index,
  save_index, encode_conversation, store_conversation,
}
use repossess.Chats.Sync.{
  Summary, Index, on_world, sleep, list_slowly, collect_outdated, store_body, on_fetch, fetch_chunk,
  fetch_later_chunks, fetch_chunks, on_retry, retry_each, retry_sweep, sync, run,
}

module _ (h : Host) (view : View h) (web : Web h) (http : web.Client) (cfg : ChatgptChatsCfg)
    (ctx : Ctx h) (law : IsLawful h view ctx.primary) (apart : AreApart h view ctx.mirrors)
    (still : IsUndisturbed h view) (offline : IsApart h view web http cfg) (j : Text)
    (not_index : text_eq (index_key cfg) j ≡ false)
    (not_conv : (id : Text) → text_eq (conv_key cfg id) j ≡ false) (o : Option (Object h)) where
  P : h.World → Type 0
  P w = view w j ≡ o

  now-P : Keeps P (total h.now)
  unfolding P
  now-P = record { at = λ w e. still.now_view j w ∙ e }

  encrypt-P : (r : h.Recipient) (d : h.Bytes) → Keeps P (h.age_encrypt r d)
  unfolding P
  encrypt-P r d = record { at = λ w e. still.encrypt_view r d j w ∙ e }

  get-P : (k : Text) → Keeps P (ctx.primary.get k)
  unfolding P
  get-P k = record { at = λ w e. law.get_view k j w ∙ e }

  head-P : (k : Text) → Keeps P (ctx.primary.head k)
  unfolding P
  head-P k = record { at = λ w e. law.head_view k j w ∙ e }

  put_conv-P : (id : Text) (b : h.Bytes) → Keeps P (ctx.primary.put (conv_key cfg id) b)
  unfolding P
  put_conv-P id b = record { at = λ w e. law.put_other _ j b w (not_conv id) ∙ e }

  put_index-P :
      (b : h.Bytes) (x : Option Text) → Keeps P (ctx.primary.put_if_unmodified (index_key cfg) b x)
  unfolding P
  put_index-P b x = record { at = λ w e. law.cas_other _ j b x w not_index ∙ e }

  fanout-P : (k : Text) (b : h.Bytes) → Keeps P (total (λ w. (tt, fanout h ctx.mirrors k b w)))
  unfolding P
  fanout-P k b = record { at = λ w e. view-fanout h view ctx.mirrors k j b w apart ∙ e }

  ruleset stored = (keeps_rules, now-P, encrypt-P, get-P, head-P, put_conv-P, put_index-P, fanout-P)

  load_index-P : Keeps P (load_index h cfg ctx.primary ctx.identity)
  unfolding load_index empty_index decode_index
  load_index-P = Keeps-bind _ _ (head-P _) found
    where
      found : (x : Option Text) → Keeps P (load_found h cfg ctx.primary ctx.identity x)
      found none = search stored depth 20
      found (some e) = search stored depth 20

  save_index-P :
      (idx : Index h web http cfg ctx) (e : Option Text) → Keeps P (save_index h cfg ctx idx e)
  unfolding save_index encode_index
  save_index-P idx e = search stored depth 20

  store_conversation-P :
      (id : Text) (t : Option Text) (u : Option h.F64) (b : web.Value)
      → Keeps P (store_conversation h cfg web ctx id t u b)
  unfolding store_conversation encode_conversation
  store_conversation-P id t u b = search stored depth 20

  Q : Session h → Type 0
  Q s = P s.world

  on_world-Q : {A : Type 0} (m : M h.World A) → Keeps P m → Keeps Q (on_world h web http cfg ctx m)
  unfolding Q
  on_world-Q m k = record { at = λ s e. k.at s.world e }

  sleep-Q : (ms : ℕ) → Keeps Q (sleep h web http cfg ctx ms)
  unfolding Q P
  sleep-Q ms = record { at = λ s e. offline.sleep_view ms j s.world ∙ e }

  get_raw-Q : (id : Text) → Keeps Q (total (get_raw h web http cfg id))
  unfolding Q P
  get_raw-Q id = record { at = λ s e. get_raw-Same h view web http cfg offline j id s ∙ e }

  list-Q : (offset limit : ℕ) → Keeps Q (list h web http cfg offset limit)
  unfolding Q P
  list-Q offset limit = list-Keeps h view web http cfg offline j o offset limit

  list_slowly-Q : (offset limit : ℕ) → Keeps Q (list_slowly h web http cfg ctx offset limit)
  unfolding list_slowly
  list_slowly-Q offset limit = search (keeps_rules, sleep-Q, list-Q)

  store_body-Q :
      (s : Summary h web http cfg ctx) (b : web.Value) (i : Index h web http cfg ctx)
      → Keeps Q (store_body h web http cfg ctx s b i)
  unfolding store_body
  store_body-Q s b i =
      Keeps-bind _ _ (on_world-Q _ (store_conversation-P s.id s.title s.update_time b))
        (λ _. Keeps-pure _)

  on_fetch-Q :
      (s : Summary h web http cfg ctx) (i : Index h web http cfg ctx)
      (l : List (Summary h web http cfg ctx)) (r : Fetch web.Value)
      → Keeps Q (on_fetch h web http cfg ctx s i l r)
  unfolding on_fetch
  on_fetch-Q s i l (got b) = Keeps-bind _ _ (store_body-Q s b i) (λ _. Keeps-pure _)
  on_fetch-Q s i l (inaccessible m) = Keeps-pure _
  on_fetch-Q s i l (transient m) = Keeps-pure _
  on_fetch-Q s i l (fatal e) = Keeps-bail e

  fetch_chunk-Q :
      (c : List (Summary h web http cfg ctx)) (i : Index h web http cfg ctx)
      (l : List (Summary h web http cfg ctx))
      → Keeps Q (fetch_chunk h web http cfg ctx c i l)
  unfolding fetch_chunk
  fetch_chunk-Q [] i l = Keeps-pure _
  fetch_chunk-Q (s ∷ c) i l = Keeps-bind _ _ (sleep-Q _) λ _.
      Keeps-bind _ _ (get_raw-Q s.id)
        λ r. Keeps-bind _ _ (on_fetch-Q s i l r) λ p. fetch_chunk-Q c p.0 p.1

  fetch_later_chunks-Q :
      (cs : List (List (Summary h web http cfg ctx))) (i : Index h web http cfg ctx)
      (l : List (Summary h web http cfg ctx))
      → Keeps Q (fetch_later_chunks h web http cfg ctx cs i l)
  unfolding fetch_later_chunks
  fetch_later_chunks-Q [] i l = Keeps-pure _
  fetch_later_chunks-Q (c ∷ cs) i l =
      Keeps-bind _ _ (sleep-Q _)
        λ _. Keeps-bind _ _ (fetch_chunk-Q c i l) λ p. fetch_later_chunks-Q cs p.0 p.1

  fetch_chunks-Q :
      (cs : List (List (Summary h web http cfg ctx))) (i : Index h web http cfg ctx)
      → Keeps Q (fetch_chunks h web http cfg ctx cs i)
  unfolding fetch_chunks
  fetch_chunks-Q [] i = Keeps-pure _
  fetch_chunks-Q (c ∷ cs) i =
      Keeps-bind _ _ (fetch_chunk-Q c i []) λ p. fetch_later_chunks-Q cs p.0 p.1

  on_retry-Q :
      (s : Summary h web http cfg ctx) (i : Index h web http cfg ctx) (r : Fetch web.Value)
      → Keeps Q (on_retry h web http cfg ctx s i r)
  unfolding on_retry
  on_retry-Q s i (got b) = store_body-Q s b i
  on_retry-Q s i _ = Keeps-pure i

  retry_each-Q :
      (l : List (Summary h web http cfg ctx)) (i : Index h web http cfg ctx)
      → Keeps Q (retry_each h web http cfg ctx l i)
  unfolding retry_each
  retry_each-Q [] i = Keeps-pure _
  retry_each-Q (s ∷ l) i = Keeps-bind _ _ (sleep-Q _) λ _.
      Keeps-bind _ _ (get_raw-Q s.id) λ r. Keeps-bind _ _ (on_retry-Q s i r) λ i'. retry_each-Q l i'

  retry_sweep-Q :
      (l : List (Summary h web http cfg ctx)) (i : Index h web http cfg ctx)
      → Keeps Q (retry_sweep h web http cfg ctx l i)
  unfolding retry_sweep
  retry_sweep-Q [] i = Keeps-pure _
  retry_sweep-Q (s ∷ l) i = Keeps-bind _ _ (sleep-Q _) λ _. retry_each-Q (s ∷ l) i

  sync-Q :
      (i : Index h web http cfg ctx) (e : Option Text)
      (l : Option (List (Summary h web http cfg ctx)))
      → Keeps Q (sync h web http cfg ctx i e l)
  unfolding sync
  sync-Q i e none = Keeps-bail _
  sync-Q i e (some []) = Keeps-pure _
  sync-Q i e (some (s ∷ l)) =
      Keeps-bind _ _ (fetch_chunks-Q _ i)
        λ p. Keeps-bind _ _ (retry_sweep-Q p.1 p.0) λ i'. on_world-Q _ (save_index-P i' e)

  -- The loop over the pages only asks for pages.
  module _ {A : Type 0} (pages : ℕ → ℕ → M (Session h) (List A)) (known : A → Bool)
      (limit stop_after : ℕ) (asks : (offset limit : ℕ) → Keeps Q (pages offset limit)) where
    collect_loop-Q :
        (fuel offset c : ℕ) (l : List A)
        → Keeps Q (collect_loop pages known limit stop_after fuel offset c l)
    unfolding collect_loop
    collect_loop-Q zero offset c l = record { at = λ s p. p }
    collect_loop-Q (suc fuel) offset c l = record {
      at = λ s p.
          paged (λ x y z. collect_loop-Q fuel x y z) (pages offset limit s).0
            (pages offset limit s).1 ((asks offset limit).at s p);
    }
      where
        scanned-Q :
            (items : List A) (x : Scan A) (s : Session h)
            → ((x y : ℕ) (z : List A)
                → Keeps Q (collect_loop pages known limit stop_after fuel x y z))
            → Q s
            → Q
                (on_scan pages known limit stop_after
                  (collect_loop pages known limit stop_after fuel)
                  offset
                  (length items)
                  x
                  s).1
        scanned-Q items (caught_up l) s ih p = p
        scanned-Q items (scanned c l) s ih p =
            if_both (λ (r : Result (Option (List A)) × Session h). Q r.1) (ltb (length items) limit)
              p ((ih _ c l).at s p)

        paged :
            ((x y : ℕ) (z : List A)
              → Keeps Q (collect_loop pages known limit stop_after fuel x y z))
            → (r : Result (List A)) (s : Session h) → Q s
            → Q
                (on_page pages known limit stop_after
                  (collect_loop pages known limit stop_after fuel)
                  offset
                  c
                  l
                  r
                  s).1
        paged ih (err e) s p = p
        paged ih (ok items) s p =
            if_both (λ (r : Result (Option (List A)) × Session h). Q r.1) (is_empty items) p
              (scanned-Q items (scan_page known stop_after items c l) s ih p)

  -- A run of the workload, whether it ends well or not, leaves every object alone but the index and
  -- the conversations.
  pub run-Keeps : (fuel : ℕ) → Keeps (λ w. view w j ≡ o) (run h web http cfg ctx fuel)
  unfolding run collect_outdated P Q
  run-Keeps fuel = Keeps-bind _ _ load_index-P λ p.
      Keeps-bind _ _ (fetch_session-Keeps h view web http cfg offline j o) λ token. record {
        at = λ w e.
            (Keeps-bind {P = Q} _ _ (collect_loop-Q _ _ _ _ list_slowly-Q fuel 0 0 [])
                (λ l. sync-Q p.0 p.1 l)).at
              (record { world = w; token = token }) e;
      }
