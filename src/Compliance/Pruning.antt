-- ===== src/Compliance/Pruning.antt =====
-- contracts/compliance/src/lib.rs, `prune_expired`.
use stellar_rwa_contracts.Base.{
  ℕ, ◌+◌, Bool, true, false, not, ◌&&◌, none, some, List, [], ◌∷◌, ◌++◌, leb, ◌==◌, if◌then◌else◌,
  length,
}
use stellar_rwa_contracts.Base.Tables.{update}
use stellar_rwa_contracts.Base.Host.{Address, Result, ◌>>◌, ok}
use stellar_rwa_contracts.Compliance.State.{
  Env, Compliance, KycRecord, Error, Event, publish, set_record, set_page, page_entries,
  require_admin,
}
use stellar_rwa_contracts.Compliance.Checks.{has_lapsed}
use stellar_rwa_contracts.Compliance.Listing.{page_indices, entries_of}

-- The variables of the loops: the storage, `examined`, and for the page that is walked through
-- `next`, `changed` and how many entries were left unexamined (`unexamined_in_page`), which is more
-- than none exactly when the code sets `stopped_early`.
pub record Scan : Type 0 where
  pub state : Compliance
  pub examined : ℕ
  pub next : List Address
  pub changed : Bool
  pub unexamined : ℕ

-- Removes the record and the page number of an address.
unfoldable pub drop_record : Address → KycRecord → Compliance → Compliance
drop_record a r s =
    let s = record (set_record a none s) { page_of = update a none s.page_of } in
    publish (Event.expired a r.expires_at) s

-- An entry that is examined.
unfoldable pub examine : Env → Address → Scan → Scan
unfolding drop_record
examine env a c = elim (c.state.records a) [
  | none ↦ record c { changed = true }
  | some r ↦
      if has_lapsed env r
      then record c { state = drop_record a r c.state; changed = true }
      else record c { next = c.next ++ a ∷ [] }
]

-- Whether the bound on the entries to examine is reached.
abbrev pub is_full : ℕ → ℕ → Bool
is_full max_records examined = not (max_records == 0) && leb max_records examined

-- The body of the loop over the entries of a page.
unfoldable pub scan_entry : Env → ℕ → Address → Scan → Scan
unfolding examine
scan_entry env max_records a c =
    if is_full max_records c.examined
    then record c { next = c.next ++ a ∷ []; unexamined = c.unexamined + 1 }
    else examine env a (record c { examined = c.examined + 1 })

unfoldable pub scan_page : Env → ℕ → List Address → Scan → Scan
unfolding scan_entry
scan_page env max_records [] c = c
scan_page env max_records (a ∷ page) c =
    scan_page env max_records page (scan_entry env max_records a c)

-- The storage after a page, written back if it has changed.
abbrev pub write_back : ℕ → Scan → Compliance
write_back i c = if c.changed then set_page i c.next c.state else c.state

-- The loop over the pages. It returns how many entries were left unexamined, in the page where the
-- bound was reached and on the pages after it. An absent or empty page, which the code skips, has
-- no entries to examine.
unfoldable pub prune_pages : Env → ℕ → List ℕ → ℕ → Compliance → ℕ × Compliance
unfolding scan_page entries_of
prune_pages env max_records [] examined s = (0, s)
prune_pages env max_records (i ∷ indices) examined s =
    let start : Scan = record {
      state = s;
      examined = examined;
      next = [];
      changed = false;
      unexamined = 0;
    } in
    let c = scan_page env max_records (page_entries i s) start in
    let s' = write_back i c in
    let rest = prune_pages env max_records indices c.examined s' in
    if c.unexamined == 0 then rest else (c.unexamined + length (entries_of indices s'), s')

unfoldable pub prune_expired : Env → Address → ℕ → Compliance → Result Error (ℕ × Compliance)
unfolding require_admin prune_pages
prune_expired env admin max_records s = do
  require_admin env admin s
  ok (prune_pages env max_records (page_indices s) 0 s)
