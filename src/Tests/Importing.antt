-- ===== src/Tests/Importing.antt =====
-- A concrete import of two conversations, whose uploads finish in the other order.
use mathlib.Core.List.{Memᴰ}
use repossess.Prelude.{
  ℕ, Text, codes, text_eq, true, none, List, [], ◌∷◌, ◌≡◌, refl, sym, ap, subst, ◌∙◌,
}
use repossess.Effect.{◌>>=◌}
use repossess.Data.{ChatsIndex}
use repossess.Chats.Collect.{same_time}
use repossess.Chats.Store.{store_conversation, encode_conversation, conv_key}
use repossess.Stores.{fanout}
use repossess.Commands.Import.{PendingItem, item_of, id_of, scan, classify}
use repossess.Commands.Import.Scanned.{items}
use repossess.Commands.Import.Upload.{upload_all, on_upload}
use repossess.Commands.Import.Upload.Rerun.{IsConsistent, IsReflexive, scan-upload_all}
use repossess.Tests.Model.{host, empty_memory}
use repossess.Tests.Server.{server, chats_cfg}
use repossess.Tests.Workload.{ctx}

abbrev values : List Text
values = codes "a" ∷ codes "b" ∷ []

abbrev new_index : ChatsIndex ℕ
new_index = record { schema_version = 1; updated_at = 0; entries = [] }

abbrev of : Text → PendingItem host server
of t = item_of host server t t

abbrev finished : List (PendingItem host server)
finished = of (codes "b") ∷ of (codes "a") ∷ []

timeless :
    (x : PendingItem host server) → Memᴰ x (items host server [] values) → x.update_time ≡ none
unfolding id_of text_eq
timeless x (Memᴰ.head e) = ap (λ (y : PendingItem host server). y.update_time) e
timeless x (Memᴰ.tail (Memᴰ.head e)) = ap (λ (y : PendingItem host server). y.update_time) e
timeless x (Memᴰ.tail (Memᴰ.tail m)) = elim m [ ]

values-IsConsistent : IsConsistent host server chats_cfg ctx (items host server [] values)
values-IsConsistent a b in_a in_b same = timeless a in_a ∙ sym (timeless b in_b)

values-IsReflexive : IsReflexive host server chats_cfg ctx (items host server [] values)
unfolding same_time
values-IsReflexive x m = subst (λ t. same_time host.f64_eq t t ≡ true) (sym (timeless x m)) refl

within : (x : PendingItem host server) → Memᴰ x finished → Memᴰ x (items host server [] values)
unfolding id_of text_eq
within x (Memᴰ.head e) = Memᴰ.tail (Memᴰ.head e)
within x (Memᴰ.tail (Memᴰ.head e)) = Memᴰ.head e
within x (Memᴰ.tail (Memᴰ.tail m)) = elim m [ ]

complete :
    (x : PendingItem host server) → Memᴰ x (scan host server [] values).pending → Memᴰ x finished
unfolding scan classify id_of text_eq
complete x (Memᴰ.head e) = Memᴰ.tail (Memᴰ.head e)
complete x (Memᴰ.tail (Memᴰ.head e)) = Memᴰ.head e
complete x (Memᴰ.tail (Memᴰ.tail m)) = elim m [ ]

none_failed :
    (upload_all host server chats_cfg ctx finished
      (record { index = new_index; imported = 0; failed = 0 })
      empty_memory).0.failed
    ≡ 0
unfolding upload_all on_upload store_conversation encode_conversation conv_key fanout text_eq ◌>>=◌
none_failed = refl

scan-upload_all_example :
    (scan host server
      (upload_all host server chats_cfg ctx finished
        (record { index = new_index; imported = 0; failed = 0 })
        empty_memory).0.index.entries
      values).pending
    ≡ []
scan-upload_all_example =
    scan-upload_all host server chats_cfg ctx values new_index finished empty_memory
      values-IsConsistent values-IsReflexive within complete none_failed
