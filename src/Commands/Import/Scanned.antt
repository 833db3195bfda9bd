-- ===== src/Commands/Import/Scanned.antt =====
-- The import agrees with the daily workload on what is outdated.
use repossess.Prelude.{
  ◌+◌, suc, Text, Bool, true, false, Option, none, some, List, [], ◌∷◌, length, ◌≡◌, refl, ap,
  arith, if◌then◌else◌,
}
use repossess.Data.{ChatsIndexEntry}
use repossess.Host.{Host}
use repossess.Web.{Web, ConversationSummary}
use repossess.Chats.Collect.{entry_of, same_time, is_known}
use repossess.Chats.Collect.Walk.{outdated}
use repossess.Commands.Import.{PendingItem, item_of, id_of, is_current, Scan, classify, scan}

module _ (h : Host) (web : Web h) (entries : List (Text × ChatsIndexEntry h.F64)) where
  abbrev pub summary_of : PendingItem h web → ConversationSummary h.F64
  summary_of item = record { id = item.id; title = item.title; update_time = item.update_time }

  -- The conversations that have an id.
  abbrev pub add_item :
      web.Value → Option Text → List (PendingItem h web) → List (PendingItem h web)
  add_item value none rest = rest
  add_item value (some id) rest = item_of h web id value ∷ rest

  abbrev pub items : List web.Value → List (PendingItem h web)
  items [] = []
  items (value ∷ values) = add_item value (id_of h web value) (items values)

  abbrev pub known : PendingItem h web → Bool
  known item = is_known h.f64_eq entries (summary_of item)

  known_current :
      (o : Option (ChatsIndexEntry h.F64)) (t : Option h.F64)
      → (elim o [ none ↦ false | some e ↦ same_time h.f64_eq e.update_time t ])
        ≡ is_current h web o t
  known_current none t = refl
  known_current (some e) t = refl

  abbrev skip_or_take : Bool → PendingItem h web → Scan h web → Scan h web
  skip_or_take b item rest =
      if b
      then (record rest { skipped = suc rest.skipped })
      else (record rest { pending = item ∷ rest.pending })

  chosen :
      (item : PendingItem h web) (rest : Scan h web) (values : List web.Value) (k b : Bool)
      → k ≡ b
      → rest.pending ≡ outdated known 1 (items values)
      → length rest.pending + rest.skipped + rest.malformed ≡ length values
      → length (items values) + rest.malformed ≡ length values
      → ((skip_or_take b item rest).pending
          ≡ (if k then outdated known 1 (items values) else item ∷ outdated known 1 (items values)))
        × (length (skip_or_take b item rest).pending
              + (skip_or_take b item rest).skipped
              + (skip_or_take b item rest).malformed
            ≡ suc (length values))
        × (suc (length (items values)) + (skip_or_take b item rest).malformed ≡ suc (length values))
  chosen item rest values true true e same all ids = (same, omega arith, omega arith)
  chosen item rest values false false e same all ids =
      (ap (λ l. item ∷ l) same, omega arith, omega arith)
  chosen item rest values true false e same all ids = absurd (cc)
  chosen item rest values false true e same all ids = absurd (cc)

  -- What is uploaded, in order, is what the page walk of the daily run would fetch among the
  -- conversations that have an id; and every conversation is uploaded, skipped or malformed.
  pub scan_lem :
      (values : List web.Value)
      → ((scan h web entries values).pending ≡ outdated known 1 (items values))
        × (length (scan h web entries values).pending
              + (scan h web entries values).skipped
              + (scan h web entries values).malformed
            ≡ length values)
        × (length (items values) + (scan h web entries values).malformed ≡ length values)
  unfolding scan classify is_known
  scan_lem [] = (refl, omega arith, omega arith)
  scan_lem (value ∷ values) =
      let (same, all, ids) = scan_lem values in
      step (id_of h web value) (scan h web entries values) values same all ids
    where
      step :
          (id : Option Text) (rest : Scan h web) (values : List web.Value)
          → rest.pending ≡ outdated known 1 (items values)
          → length rest.pending + rest.skipped + rest.malformed ≡ length values
          → length (items values) + rest.malformed ≡ length values
          → ((classify h web entries value id rest).pending
              ≡ outdated known 1 (add_item value id (items values)))
            × (length (classify h web entries value id rest).pending
                  + (classify h web entries value id rest).skipped
                  + (classify h web entries value id rest).malformed
                ≡ suc (length values))
            × (length (add_item value id (items values))
                  + (classify h web entries value id rest).malformed
                ≡ suc (length values))
      step none rest values same all ids = (same, omega arith, omega arith)
      step (some id) rest values same all ids =
          chosen (item_of h web id value) rest values _ _
            (known_current (entry_of id entries) (item_of h web id value).update_time) same all ids
