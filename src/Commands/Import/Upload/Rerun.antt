-- ===== src/Commands/Import/Upload/Rerun.antt =====
-- An import of src/commands/import_chatgpt.rs, and a second one of the same files.
use mathlib.Core.List.{Memᴰ}
use repossess.Prelude.{
  suc, ◌≤◌, Text, Bool, true, false, Option, none, some, List, [], ◌∷◌, ◌≡◌, ◌⊎◌, refl, sym, ap,
  subst, ◌∙◌, arith, text_eq, text_eq_refl, eq_of_text_eq, if◌then◌else◌, inl, inr,
}
use repossess.Effect.{Result, ok, err}
use repossess.Effect.Rules.{ok_of_bind, ok_injective}
use repossess.Data.{ChatsIndex, ChatsIndexEntry}
use repossess.Config.{ChatgptChatsCfg}
use repossess.Host.{Host}
use repossess.Web.{Web}
use repossess.Chats.Collect.{entry_of, same_time}
use repossess.Chats.Store.{Ctx, store_conversation}
use repossess.Commands.Import.{PendingItem, is_current, item_of, id_of, classify, Scan, scan}
use repossess.Commands.Import.Scanned.{items, add_item}
use repossess.Commands.Import.Upload.{Progress, on_upload, upload_all}

module _ (h : Host) (web : Web h) (cfg : ChatgptChatsCfg) (ctx : Ctx h) where
  -- No two conversations have the same id and different times.
  abbrev pub IsConsistent : List (PendingItem h web) → Type 0
  IsConsistent all =
      (a b : PendingItem h web)
      → Memᴰ a all
      → Memᴰ b all
      → a.id ≡ b.id
      → a.update_time ≡ b.update_time

  -- The time of each conversation equals itself, as that of every number but NaN does.
  abbrev pub IsReflexive : List (PendingItem h web) → Type 0
  IsReflexive all =
      (x : PendingItem h web) → Memᴰ x all → same_time h.f64_eq x.update_time x.update_time ≡ true

  -- The index has this version of the conversation.
  abbrev Current : List (Text × ChatsIndexEntry h.F64) → PendingItem h web → Type 0
  Current entries x = is_current h web (entry_of x.id entries) x.update_time ≡ true

  entry_time :
      (id : Text) (title : Option Text) (time : Option h.F64) (body : web.Value) (w : h.World)
      (e : ChatsIndexEntry h.F64)
      → (store_conversation h cfg web ctx id title time body w).0 ≡ ok e
      → e.update_time ≡ time
  unfolding store_conversation
  entry_time id title time body w e q =
      let (_, _, q1) = ok_of_bind _ _ w q in
      let (_, _, q2) = ok_of_bind _ _ _ q1 in
      let (_, _, q3) = ok_of_bind _ _ _ q2 in
      let (_, _, q4) = ok_of_bind _ _ _ q3 in
      ap (λ (x : ChatsIndexEntry h.F64). x.update_time) (sym (ok_injective q4))

  module _ (all : List (PendingItem h web)) (consistent : IsConsistent all)
      (reflexive : IsReflexive all) where
    -- A new entry for one conversation leaves every one current that was, and makes it current.
    insert-Current :
        (x y : PendingItem h web) (e : ChatsIndexEntry h.F64)
        (entries : List (Text × ChatsIndexEntry h.F64))
        → Memᴰ x all
        → Memᴰ y all
        → e.update_time ≡ y.update_time
        → Current entries x
        → Current ((y.id, e) ∷ entries) x
    insert-Current x y e entries in_x in_y time now = by_key (text_eq y.id x.id) refl
      where
        by_key :
            (b : Bool)
            → text_eq y.id x.id ≡ b
            → is_current h web (if b then some e else entry_of x.id entries) x.update_time ≡ true
        by_key true same =
            subst (λ t. same_time h.f64_eq t x.update_time ≡ true)
              (sym (time ∙ consistent y x in_y in_x (eq_of_text_eq y.id x.id same)))
              (reflexive x in_x)
        by_key false other = now

    insert_current :
        (y : PendingItem h web) (e : ChatsIndexEntry h.F64)
        (entries : List (Text × ChatsIndexEntry h.F64))
        → Memᴰ y all
        → e.update_time ≡ y.update_time
        → Current ((y.id, e) ∷ entries) y
    insert_current y e entries in_y time = by_key (text_eq y.id y.id) (text_eq_refl y.id)
      where
        by_key :
            (b : Bool)
            → b ≡ true
            → is_current h web (if b then some e else entry_of y.id entries) y.update_time ≡ true
        by_key true same =
            subst (λ t. same_time h.f64_eq t y.update_time ≡ true) (sym time) (reflexive y in_y)
        by_key false other = absurd (cc)

    -- What the uploads of `order` do to the index.
    record Uploaded (order : List (PendingItem h web)) (p q : Progress h web) : Type 0 where
      more : p.failed ≤ q.failed
      kept :
          (x : PendingItem h web)
          → Memᴰ x all
          → Current p.index.entries x
          → Current q.index.entries x
      done :
          q.failed ≡ p.failed → (x : PendingItem h web) → Memᴰ x order → Current q.index.entries x

    AllIn : List (PendingItem h web) → Type 0
    AllIn order = (x : PendingItem h web) → Memᴰ x order → Memᴰ x all

    step_Uploaded :
        (y : PendingItem h web) (order : List (PendingItem h web)) (p q : Progress h web)
        (r : Result (ChatsIndexEntry h.F64))
        → Memᴰ y all
        → ((e : ChatsIndexEntry h.F64) → r ≡ ok e → e.update_time ≡ y.update_time)
        → Uploaded order (on_upload h web y.id r p) q
        → Uploaded (y ∷ order) p q
    unfolding on_upload
    step_Uploaded y order p q (ok e) in_y time u = record {
      more = u.more;
      kept = λ x in_x now.
          u.kept x in_x (insert-Current x y e p.index.entries in_x in_y (time e refl) now);
      done = λ none_failed x in_order. elim in_order [
        | Memᴰ.head same ↦
            subst (Current q.index.entries) (sym same)
              (u.kept y in_y (insert_current y e p.index.entries in_y (time e refl)))
        | Memᴰ.tail later ↦ u.done none_failed x later
      ];
    }
    step_Uploaded y order p q (err e) in_y time u = record {
      more = omega (arith, u.more);
      kept = u.kept;
      done = λ none_failed x in_order. absurd (omega (arith, u.more, none_failed));
    }

    upload_all-Uploaded :
        (order : List (PendingItem h web)) (p : Progress h web) (w : h.World)
        → AllIn order
        → Uploaded order p (upload_all h web cfg ctx order p w).0
    unfolding upload_all AllIn
    upload_all-Uploaded [] p w within = record {
      more = omega arith;
      kept = λ x in_x now. now;
      done = λ none_failed x in_order. elim in_order [ ];
    }
    upload_all-Uploaded (y ∷ order) p w within =
        let stored = store_conversation h cfg web ctx y.id y.title y.update_time y.value w in
        step_Uploaded y order p _ stored.0 (within y (Memᴰ.head refl))
          (λ e q. entry_time y.id y.title y.update_time y.value w e q)
          (upload_all-Uploaded order (on_upload h web y.id stored.0 p) stored.1
            (λ x in_order. within x (Memᴰ.tail in_order)))

  module _ (entries : List (Text × ChatsIndexEntry h.F64)) where
    -- A conversation with an id is up to date or pending.
    pending_or_current :
        (values : List web.Value) (x : PendingItem h web)
        → Memᴰ x (items h web entries values)
        → Current entries x ⊎ Memᴰ x (scan h web entries values).pending
    unfolding scan classify
    pending_or_current [] x m = elim m [ ]
    pending_or_current (value ∷ values) x m =
        by_id (id_of h web value) (scan h web entries values) (pending_or_current values x) m
      where
        by_test :
            (b : Bool) (y : PendingItem h web) (rest : Scan h web)
            → is_current h web (entry_of y.id entries) y.update_time ≡ b
            → x ≡ y
            → Current entries x
              ⊎ Memᴰ x
                  (if b
                    then record rest { skipped = suc rest.skipped }
                    else record rest { pending = y ∷ rest.pending }).pending
        by_test true y rest now same = inl (subst (Current entries) (sym same) now)
        by_test false y rest now same = inr (Memᴰ.head same)

        keep :
            (b : Bool) (y : PendingItem h web) (rest : Scan h web)
            → Current entries x ⊎ Memᴰ x rest.pending
            → Current entries x
              ⊎ Memᴰ x
                  (if b
                    then record rest { skipped = suc rest.skipped }
                    else record rest { pending = y ∷ rest.pending }).pending
        keep b y rest (inl now) = inl now
        keep true y rest (inr m) = inr m
        keep false y rest (inr m) = inr (Memᴰ.tail m)

        by_id :
            (id : Option Text) (rest : Scan h web)
            → (Memᴰ x (items h web entries values) → Current entries x ⊎ Memᴰ x rest.pending)
            → Memᴰ x (add_item h web entries value id (items h web entries values))
            → Current entries x ⊎ Memᴰ x (classify h web entries value id rest).pending
        by_id none rest ih m = ih m
        by_id (some id) rest ih (Memᴰ.head same) =
            by_test (is_current h web (entry_of id entries) (item_of h web id value).update_time)
              (item_of h web id value) rest refl same
        by_id (some id) rest ih (Memᴰ.tail m) =
            keep (is_current h web (entry_of id entries) (item_of h web id value).update_time)
              (item_of h web id value) rest (ih m)

    -- If all of them are up to date, nothing is pending.
    nothing_pending :
        (values : List web.Value)
        → ((x : PendingItem h web) → Memᴰ x (items h web entries values) → Current entries x)
        → (scan h web entries values).pending ≡ []
    unfolding scan classify
    nothing_pending [] now = refl
    nothing_pending (value ∷ values) now =
        by_id (id_of h web value) (scan h web entries values) (nothing_pending values) now
      where
        by_test :
            (b : Bool) (y : PendingItem h web) (rest : Scan h web)
            → b ≡ true
            → rest.pending ≡ []
            → (if b
                then record rest { skipped = suc rest.skipped }
                else record rest { pending = y ∷ rest.pending }).pending
              ≡ []
        by_test true y rest e none_left = none_left
        by_test false y rest e none_left = absurd (cc)

        by_id :
            (id : Option Text) (rest : Scan h web)
            → (((x : PendingItem h web) → Memᴰ x (items h web entries values) → Current entries x)
                → rest.pending ≡ [])
            → ((x : PendingItem h web)
                → Memᴰ x (add_item h web entries value id (items h web entries values))
                → Current entries x)
            → (classify h web entries value id rest).pending ≡ []
        by_id none rest ih now = ih now
        by_id (some id) rest ih now =
            by_test (is_current h web (entry_of id entries) (item_of h web id value).update_time)
              (item_of h web id value) rest (now (item_of h web id value) (Memᴰ.head refl))
              (ih (λ x m. now x (Memᴰ.tail m)))

  -- If the uploads of an import all succeed, in whatever order they finish, then a second import of
  -- the same files finds nothing to upload under the index that they leave: no conversation is lost
  -- and none is uploaded twice. This is on the condition that no two of the conversations have the
  -- same id and different times, and that the time of each equals itself, as every number but NaN
  -- does.
  pub scan-upload_all :
      (values : List web.Value) (index : ChatsIndex h.F64) (finished : List (PendingItem h web))
      (w : h.World)
      → IsConsistent (items h web index.entries values)
      → IsReflexive (items h web index.entries values)
      → ((x : PendingItem h web) → Memᴰ x finished → Memᴰ x (items h web index.entries values))
      → ((x : PendingItem h web)
          → Memᴰ x (scan h web index.entries values).pending
          → Memᴰ x finished)
      → (upload_all h web cfg ctx finished
          (record { index = index; imported = 0; failed = 0 })
          w).0.failed
        ≡ 0
      → (scan h web
          (upload_all h web cfg ctx finished
            (record { index = index; imported = 0; failed = 0 })
            w).0.index.entries
          values).pending
        ≡ []
  scan-upload_all values index finished w consistent reflexive within complete none_failed =
      nothing_pending _ values λ x in_x. elim (pending_or_current index.entries values x in_x) [
        | inl now ↦ uploaded.kept x in_x now
        | inr pending ↦ uploaded.done none_failed x (complete x pending)
      ]
    where
      uploaded :
          Uploaded
            (items h web index.entries values)
            consistent
            reflexive
            finished
            (record { index = index; imported = 0; failed = 0 })
            (upload_all h web cfg ctx finished
              (record { index = index; imported = 0; failed = 0 })
              w).0
      uploaded =
          upload_all-Uploaded (items h web index.entries values) consistent reflexive finished _ w
            (unfold AllIn in within)
