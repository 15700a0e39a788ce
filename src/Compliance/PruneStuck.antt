-- ===== src/Compliance/PruneStuck.antt =====
-- contracts/compliance/src/lib.rs, `prune_expired` with a bound: the entries that it examines.
use stellar_rwa_contracts.Base.{
  suc, ℕ, ◌≡◌, refl, sym, ap, ◌∙◌, some, true, false, List, [], ◌∷◌, ◌++◌, arith, ◌<◌, ◌≤◌, ◌+◌,
  length,
}
use stellar_rwa_contracts.Base.Occurs.{length-++}
use stellar_rwa_contracts.Base.Host.{Address, Result, ok, ◌>>◌}
use stellar_rwa_contracts.Compliance.State.{
  Env, Compliance, KycRecord, Error, require_admin, allowlist_meta, page_entries,
}
use stellar_rwa_contracts.Compliance.Checks.{has_lapsed}
use stellar_rwa_contracts.Compliance.Listing.{range, page_indices, entries_of, get_allowlist}
use stellar_rwa_contracts.Compliance.Pruning.{
  Scan, is_full, scan_entry, scan_page, prune_pages, prune_expired,
}
use mathlib.Core.List.{append_assoc, append-nil}
use stellar_rwa_contracts.Compliance.ScanSteps.{start, scan_entry-full, scan_entry-live}

-- The address has a record that has not lapsed.
abbrev pub IsLive : Env → Compliance → Address → Type 0
IsLive env s a = (r : KycRecord) × (s.records a ≡ some r) × (has_lapsed env r ≡ false)

abbrev pub AllLive : Env → Compliance → List Address → Type 0
AllLive env s [] = Unit
AllLive env s (a ∷ page) = IsLive env s a × AllLive env s page

one_more : (p : ℕ) → p + 1 ≡ suc p
one_more p = omega arith

scan_page-++ :
    (env : Env) (m : ℕ) (xs ys : List Address) (c : Scan)
    → scan_page env m (xs ++ ys) c ≡ scan_page env m ys (scan_page env m xs c)
unfolding scan_page
scan_page-++ env m [] ys c = refl
scan_page-++ env m (x ∷ xs) ys c = scan_page-++ env m xs ys (scan_entry env m x c)

scan_page-live :
    (env : Env) (m k : ℕ) (xs next : List Address) (c : Scan)
    → AllLive env c.state xs
    → c.next ++ xs ≡ next
    → c.examined + length xs ≡ k
    → k ≤ m
    → scan_page env m xs c ≡ record c { next = next; examined = k }
unfolding scan_page
scan_page-live env m k [] next c l e f h =
    ap (λ (p : List Address). record c { next = p }) (sym (append-nil c.next) ∙ e)
    ∙ ap (λ (j : ℕ). record c { next = next; examined = j }) (omega (arith, f))
scan_page-live env m k (a ∷ xs) next c ((r, q, o), l) e f h =
    let d : Scan = record c { next = c.next ++ a ∷ []; examined = c.examined + 1 } in
    let space : is_full m c.examined ≡ false = ground arith in
    ap (scan_page env m xs) (scan_entry-live env m a c r space q o)
    ∙ scan_page-live env m k xs next d l (append_assoc c.next (a ∷ []) xs ∙ e) (omega (arith, f)) h

scan_page-full :
    (env : Env) (m u : ℕ) (xs next : List Address) (c : Scan)
    → is_full m c.examined ≡ true
    → c.next ++ xs ≡ next
    → c.unexamined + length xs ≡ u
    → scan_page env m xs c ≡ record c { next = next; unexamined = u }
unfolding scan_page
scan_page-full env m u [] next c h e f =
    ap (λ (p : List Address). record c { next = p }) (sym (append-nil c.next) ∙ e)
    ∙ ap (λ (j : ℕ). record c { next = next; unexamined = j }) (omega (arith, f))
scan_page-full env m u (a ∷ xs) next c h e f =
    let d : Scan = record c { next = c.next ++ a ∷ []; unexamined = c.unexamined + 1 } in
    ap (scan_page env m xs) (scan_entry-full env m a c h)
    ∙ scan_page-full env m u xs next d h (append_assoc c.next (a ∷ []) xs ∙ e) (omega (arith, f))

-- The first page, of which the bound is reached before an entry `y`.
scan_first :
    (env : Env) (m : ℕ) (xs ys : List Address) (y : Address) (s : Compliance)
    → AllLive env s xs
    → length xs ≡ m
    → 0 < m
    → scan_page env m (xs ++ y ∷ ys) (start 0 s)
      ≡ record (start 0 s) { next = xs ++ y ∷ ys; examined = m; unexamined = suc (length ys) }
scan_first env m xs ys y s l e p =
    let c : Scan = record (start 0 s) { next = xs; examined = m } in
    scan_page-++ env m xs (y ∷ ys) (start 0 s)
    ∙ ap (scan_page env m (y ∷ ys))
        (scan_page-live env m m xs xs (start 0 s) l refl (omega (arith, e)) (omega arith))
    ∙ scan_page-full env m (suc (length ys)) (y ∷ ys) (xs ++ y ∷ ys) c (ground arith) refl
        (omega arith)

prune_pages-stuck :
    (env : Env) (m p : ℕ) (xs ys : List Address) (y : Address) (s : Compliance)
    → page_entries 0 s ≡ xs ++ y ∷ ys
    → AllLive env s xs
    → length xs ≡ m
    → 0 < m
    → prune_pages env m (0 ∷ range 1 p) 0 s
      ≡ (suc (length ys) + length (entries_of (range 1 p) s), s)
unfolding prune_pages
prune_pages-stuck env m p xs ys y s h l e q =
    let scan =
      ap (λ (page : List Address). scan_page env m page (start 0 s)) h
      ∙ scan_first env m xs ys y s l e q in
    rw scan (ground arith)

-- If the first page holds, first, `max_records` addresses with a record that has not lapsed, and
-- then more, a call of the admin with the bound `max_records`, which is not 0, leaves the state as
-- it was, and it returns how many listed addresses there are beyond these, which is not 0.
pub prune_expired-stuck :
    (env : Env) (admin : Address) (max_records : ℕ) (xs ys : List Address) (y : Address)
    (s : Compliance)
    → require_admin env admin s ≡ ok tt
    → page_entries 0 s ≡ xs ++ y ∷ ys
    → AllLive env s xs
    → length xs ≡ max_records
    → 0 < max_records
    → (n : ℕ) × (prune_expired env admin max_records s ≡ ok (n, s))
      × (n + max_records ≡ length (get_allowlist s))
      × (0 < n)
unfolding prune_expired get_allowlist entries_of
prune_expired-stuck env admin m xs ys y s r h l e q =
    let p = (allowlist_meta s).0 in
    let pages : page_indices s ≡ 0 ∷ range 1 p = ap (range 0) (one_more p) in
    let n = suc (length ys) + length (entries_of (range 1 p) s) in
    let pruned : prune_expired env admin m s ≡ ok (n, s) =
      ap (λ (u : Result Error (Unit {0})). u >> ok (prune_pages env m (page_indices s) 0 s)) r
      ∙ ap (λ (is : List ℕ). ok (prune_pages env m is 0 s)) pages
      ∙ ap (λ (o : ℕ × Compliance). ok o) (prune_pages-stuck env m p xs ys y s h l e q) in
    let whole : length (get_allowlist s)
        ≡ length (xs ++ y ∷ ys) + length (entries_of (range 1 p) s) =
      ap (λ (is : List ℕ). length (entries_of is s)) pages
      ∙ length-++ (page_entries 0 s) (entries_of (range 1 p) s)
      ∙ ap (λ (page : List Address). length page + length (entries_of (range 1 p) s)) h in
    (n, pruned, omega (arith, whole, length-++ xs (y ∷ ys), e), omega arith)
