-- ===== src/Chats/Collect.antt =====
-- `collect_outdated` of src/workload/chatgpt_chats.rs: walk the pages of the list until enough
-- conversations in a row are already known. The arithmetic on `offset` is that of a u32.
pub mod Walk
use repossess.Prelude.{
  ℕ, zero, suc, ◌+◌, ◌%◌, max, Text, Bool, true, false, Option, none, some, List, [], ◌∷◌, ◌++◌,
  length, leb, ltb, is_empty, if◌then◌else◌, text_eq,
}
use repossess.Effect.{M, Result, ok, err, ◌>>=◌, lift, total, pure}
use repossess.Data.{ChatsIndexEntry}
use repossess.Web.{ConversationSummary}

-- `entries.get(id)`
abbrev pub entry_of :
    {F : Type 0} → Text → List (Text × ChatsIndexEntry F) → Option (ChatsIndexEntry F)
entry_of id [] = none
entry_of id ((k, e) ∷ rest) = if text_eq k id then some e else entry_of id rest

module _ {F : Type 0} (f64_eq : F → F → Bool) where
  -- `==` on Option<f64>.
  unfoldable pub same_time : Option F → Option F → Bool
  same_time none none = true
  same_time none (some b) = false
  same_time (some a) none = false
  same_time (some a) (some b) = f64_eq a b

  unfoldable pub is_known : List (Text × ChatsIndexEntry F) → ConversationSummary F → Bool
  is_known entries summary = elim (entry_of summary.id entries) [
    | none ↦ false
    | some e ↦ same_time e.update_time summary.update_time
  ]

-- `for summary in page.items`: the walk is over, or goes on with these variables.
pub data Scan (A : Type 0) : Type 0 where
  caught_up : List A → Scan A
  scanned : (consecutive_known : ℕ) (to_fetch : List A) → Scan A

module _ {A : Type 0} (known : A → Bool) (stop_after : ℕ) where
  unfoldable pub scan_page : List A → ℕ → List A → Scan A
  scan_page [] consecutive_known to_fetch = scanned consecutive_known to_fetch
  scan_page (summary ∷ items) consecutive_known to_fetch =
      let on = scan_page items (consecutive_known + 1) to_fetch in
      let fresh = scan_page items 0 (to_fetch ++ summary ∷ []) in
      if known summary
      then (if leb stop_after (consecutive_known + 1) then caught_up to_fetch else on)
      else fresh

module _ {W A : Type 0} (list : ℕ → ℕ → M W (List A)) (known : A → Bool)
    (limit stop_after : ℕ) where
  -- The rest of the loop, from a given offset and with given variables.
  abbrev pub Rest : Type 0
  Rest = ℕ → ℕ → List A → M W (Option (List A))

  abbrev pub on_scan : Rest → ℕ → ℕ → Scan A → M W (Option (List A))
  on_scan rest offset returned (caught_up l) w = (ok (some l), w)
  on_scan rest offset returned (scanned c l) w =
      if ltb returned limit then (ok (some l), w) else rest ((offset + limit) % 4294967296) c l w

  abbrev pub on_page : Rest → ℕ → ℕ → List A → Result (List A) → M W (Option (List A))
  on_page rest offset c l (err e) w = (err e, w)
  on_page rest offset c l (ok items) w =
      if is_empty items
      then (ok (some l), w)
      else on_scan rest offset (length items) (scan_page known stop_after items c l) w

  -- The loop over the pages; `none` is that the fuel, a number of pages, ran out.
  unfoldable pub collect_loop : ℕ → Rest
  collect_loop zero offset consecutive_known to_fetch w = (ok none, w)
  collect_loop (suc fuel) offset consecutive_known to_fetch w =
      on_page (collect_loop fuel) offset consecutive_known to_fetch (list offset limit w).0
        (list offset limit w).1

-- `.max(1)`
abbrev pub at_least_one : ℕ → ℕ
at_least_one n = max n 1
