-- ===== src/Compliance/Listing.antt =====
-- contracts/compliance/src/lib.rs: the reads of the allowlist, which walk through its pages.
use stellar_rwa_contracts.Base.{
  ℕ, zero, suc, ◌+◌, ◌||◌, List, [], ◌∷◌, ◌++◌, ltb, leb, ◌==◌, if◌then◌else◌, unwrap_or, length,
}
use stellar_rwa_contracts.Base.Host.{Address}
use stellar_rwa_contracts.Compliance.State.{
  Compliance, allowlist_meta, page_entries, max_allowlist_page_size,
}

-- `n` numbers from `i` on.
abbrev pub range : ℕ → ℕ → List ℕ
range i zero = []
range i (suc n) = i ∷ range (i + 1) n

-- `0..=current_page`
abbrev pub page_indices : Compliance → List ℕ
page_indices s = range 0 ((allowlist_meta s).0 + 1)

-- The entries of the pages, in their order. An absent or empty page, which the code skips, adds
-- none.
unfoldable pub entries_of : List ℕ → Compliance → List Address
entries_of [] s = []
entries_of (i ∷ indices) s = page_entries i s ++ entries_of indices s

unfoldable pub get_allowlist : Compliance → List Address
unfolding entries_of
get_allowlist s = entries_of (page_indices s) s

unfoldable pub get_allowlist_count : Compliance → ℕ
get_allowlist_count s = unwrap_or s.count 0

-- The limit that 0 and anything beyond the maximum stand for.
abbrev pub cap_limit : ℕ → ℕ
cap_limit limit =
    if limit == 0 || ltb max_allowlist_page_size limit then max_allowlist_page_size else limit

-- The loop over the entries of a page: how many are skipped so far, and the result so far.
unfoldable pub walk_page : ℕ → ℕ → List Address → ℕ × List Address → ℕ × List Address
walk_page offset limit [] acc = acc
walk_page offset limit (a ∷ page) (skipped, result) =
    if ltb skipped offset
    then walk_page offset limit page (skipped + 1, result)
    else if leb limit (length result)
    then (skipped, result)
    else walk_page offset limit page (skipped, result ++ a ∷ [])

-- The loop over the pages.
unfoldable pub walk_pages : ℕ → ℕ → List ℕ → Compliance → ℕ × List Address → ℕ × List Address
unfolding walk_page
walk_pages offset limit [] s acc = acc
walk_pages offset limit (i ∷ indices) s acc =
    if leb limit (length acc.1)
    then acc
    else walk_pages offset limit indices s (walk_page offset limit (page_entries i s) acc)

unfoldable pub get_allowlist_page : ℕ → ℕ → Compliance → List Address
unfolding walk_pages
get_allowlist_page offset limit s =
    (walk_pages offset (cap_limit limit) (page_indices s) s (0, [])).1
