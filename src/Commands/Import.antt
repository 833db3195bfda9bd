-- ===== src/Commands/Import.antt =====
-- Phase 1 of src/commands/import_chatgpt.rs: which conversations of an export are uploaded.
pub mod Scanned
pub mod Upload
use repossess.Prelude.{
  ℕ, zero, suc, Text, Bool, true, false, Option, none, some, List, [], ◌∷◌, codes, if◌then◌else◌,
}
use repossess.Host.{Host}
use repossess.Data.{ChatsIndexEntry}
use repossess.Web.{Web, Kind, ConversationSummary}
use repossess.Canary.{str_of}
use repossess.Chats.Collect.{entry_of, same_time}

module _ (h : Host) (web : Web h) where
  pub record PendingItem : Type 0 where
    pub id : Text
    pub title : Option Text
    pub update_time : Option h.F64
    pub value : web.Value

  -- `.and_then(|v| v.as_f64())`
  abbrev pub as_time : Option web.Value → Option h.F64
  as_time none = none
  as_time (some v) = web.as_f64 v

  abbrev or_else : Option web.Value → Option web.Value → Option web.Value
  or_else none other = other
  or_else (some v) other = some v

  -- The id of a conversation, under one of two names.
  unfoldable pub id_of : web.Value → Option Text
  id_of value =
      str_of h web (or_else (web.get value (codes "id")) (web.get value (codes "conversation_id")))

  abbrev pub item_of : Text → web.Value → PendingItem
  item_of id value = record {
    id = id;
    title = str_of h web (web.get value (codes "title"));
    update_time = as_time (web.get value (codes "update_time"));
    value = value;
  }

  -- `index.entries.get(&id)` has the same update time.
  abbrev pub is_current : Option (ChatsIndexEntry h.F64) → Option h.F64 → Bool
  is_current none update_time = false
  is_current (some existing) update_time = same_time h.f64_eq existing.update_time update_time

  -- `pending`, `skipped` and `malformed`.
  pub record Scan : Type 0 where
    pub pending : List PendingItem
    pub skipped : ℕ
    pub malformed : ℕ

  -- One conversation, in front of what the rest of the export gives.
  unfoldable pub classify :
      List (Text × ChatsIndexEntry h.F64) → web.Value → Option Text → Scan → Scan
  classify entries value none rest = record rest { malformed = suc rest.malformed }
  classify entries value (some id) rest =
      let item = item_of id value in
      if is_current (entry_of id entries) item.update_time
      then (record rest { skipped = suc rest.skipped })
      else (record rest { pending = item ∷ rest.pending })

  -- The conversations of all files, in order.
  unfoldable pub scan : List (Text × ChatsIndexEntry h.F64) → List web.Value → Scan
  unfolding classify
  scan entries [] = record { pending = []; skipped = 0; malformed = 0 }
  scan entries (value ∷ values) = classify entries value (id_of value) (scan entries values)
