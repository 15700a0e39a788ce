-- ===== src/Compliance/IndexPrune.antt =====
-- contracts/compliance/src/lib.rs, `prune_expired`: the pages of the allowlist while it runs.
use stellar_rwa_contracts.Base.{
  ℕ, ◌≡◌, refl, sym, subst, ◌∙◌, none, some, true, false, List, [], ◌∷◌, ◌++◌, arith, Option-cases,
  inl, inr, Bool-cases, ◌==◌, ◌+◌,
}
use stellar_rwa_contracts.Base.Occurs.{occurs, occurs-++, length-++}
use stellar_rwa_contracts.Base.Host.{Address, ok, state_of}
use stellar_rwa_contracts.Compliance.State.{Env, Compliance, KycRecord, set_page, page_entries}
use stellar_rwa_contracts.Compliance.Checks.{has_lapsed}
use stellar_rwa_contracts.Compliance.Listing.{page_indices}
use stellar_rwa_contracts.Compliance.Pruning.{
  Scan, drop_record, is_full, scan_entry, scan_page, write_back, prune_pages, prune_expired,
}
use stellar_rwa_contracts.Compliance.Index.{Indexed, SameIndex-Indexed}
use stellar_rwa_contracts.Compliance.IndexDrop.{Dropped-Indexed}
use mathlib.Core.List.{append_assoc, append-nil}
use stellar_rwa_contracts.Compliance.ScanSteps.{
  start, scan_entry-full, scan_entry-lapsed, scan_entry-live,
}

-- The storage as if the page that is walked through were written back, with the entries that are
-- still to come.
abbrev as_written : ℕ → List Address → Scan → Compliance
as_written i rest c = set_page i (c.next ++ rest) c.state

-- Where nothing has changed, the storage is as it was at the start.
record Untouched (s : Compliance) (i : ℕ) (rest : List Address) (c : Scan) : Type 0 where
  same_state : c.state ≡ s
  same_page : c.next ++ rest ≡ page_entries i s

abbrev Scanned : Compliance → ℕ → List Address → Scan → Type 0
Scanned s i rest c =
    ((e : ℕ) × Indexed e (as_written i rest c)) × (c.changed ≡ false → Untouched s i rest c)

-- An entry that stands in the page has that page.
present_page :
    (e i : ℕ) (a : Address) (xs ys : List Address) (s : Compliance)
    → Indexed e s
    → page_entries i s ≡ xs ++ a ∷ ys
    → s.page_of a ≡ some i
unfolding occurs
present_page e i a xs ys s v h = elim (Option-cases (s.page_of a)) [
  | inl q ↦ absurd (ground (arith, v.listed i a, occurs-++ a xs (a ∷ ys), h))
  | inr (j, q) ↦ ground (arith, v.listed i a, occurs-++ a xs (a ∷ ys), h)
]

kept-Scanned :
    (s : Compliance) (i k u : ℕ) (a : Address) (rest : List Address) (c : Scan)
    → Scanned s i (a ∷ rest) c
    → Scanned s i rest (record c { next = c.next ++ a ∷ []; examined = k; unexamined = u })
kept-Scanned s i k u a rest c ((e, v), o) =
    let same : (c.next ++ a ∷ []) ++ rest ≡ c.next ++ a ∷ rest =
      append_assoc c.next (a ∷ []) rest in
    (
      (e, subst (λ p. Indexed e (set_page i p c.state)) (sym same) v),
      λ h. record { same_state = (o h).same_state; same_page = same ∙ (o h).same_page },
    )

dropped-Scanned :
    (s : Compliance) (i : ℕ) (a : Address) (r : KycRecord) (rest : List Address) (c : Scan) (k : ℕ)
    → c.state.records a ≡ some r
    → Scanned s i (a ∷ rest) c
    → Scanned s i rest (record c { state = drop_record a r c.state; changed = true; examined = k })
unfolding drop_record occurs
dropped-Scanned s i a r rest c k h ((e, v), o) =
    let from = as_written i (a ∷ rest) c in
    let to =
      as_written i rest
        (record c { state = drop_record a r c.state; changed = true; examined = k }) in
    let page = present_page e i a c.next rest from v (ground arith) in
    (
      (
        e + 1,
        Dropped-Indexed e (e + 1) i a (c.next ++ rest) from to
            (record {
              was_on = page;
              pages_are = λ j. ground arith;
              page_of_is = λ b. ground arith;
              has_record = λ b. ground arith;
              meta_is = refl;
              rest = λ b. ground (
                arith,
                v.listed i b,
                page,
                occurs-++ b c.next rest,
                occurs-++ b c.next (a ∷ rest),
              );
              shorter = ground (arith, length-++ c.next rest, length-++ c.next (a ∷ rest));
            })
            v (omega arith) v.fits,
      ),
      λ q. ground arith,
    )

absent-Scanned :
    (s : Compliance) (i : ℕ) (a : Address) (rest : List Address) (c : Scan)
    → c.state.records a ≡ none
    → Scanned s i (a ∷ rest) c
    → ⊥
absent-Scanned s i a rest c h ((e, v), o) =
    let from = as_written i (a ∷ rest) c in
    let page = present_page e i a c.next rest from v (ground arith) in
    ground (arith, v.recorded a, page)

scan_entry-Scanned :
    (env : Env) (max_records : ℕ) (s : Compliance) (i : ℕ) (a : Address) (rest : List Address)
    (c : Scan)
    → Scanned s i (a ∷ rest) c
    → Scanned s i rest (scan_entry env max_records a c)
unfolding scan_entry
scan_entry-Scanned env max_records s i a rest c v =
    elim (Bool-cases (is_full max_records c.examined)) [
      | inl q ↦
          subst (Scanned s i rest) (sym (scan_entry-full env max_records a c q))
            (kept-Scanned s i c.examined (c.unexamined + 1) a rest c v)
      | inr q ↦ elim (Option-cases (c.state.records a)) [
        | inl h ↦ absurd (absent-Scanned s i a rest c h v)
        | inr (r, h) ↦ elim (Bool-cases (has_lapsed env r)) [
          | inl l ↦
              subst (Scanned s i rest) (sym (scan_entry-lapsed env max_records a c r q h l))
                (dropped-Scanned s i a r rest c (c.examined + 1) h v)
          | inr l ↦
              subst (Scanned s i rest) (sym (scan_entry-live env max_records a c r q h l))
                (kept-Scanned s i (c.examined + 1) c.unexamined a rest c v)
        ]
      ]
    ]

scan_page-Scanned :
    (env : Env) (max_records : ℕ) (s : Compliance) (i : ℕ) (page : List Address) (c : Scan)
    → Scanned s i page c
    → Scanned s i [] (scan_page env max_records page c)
unfolding scan_page
scan_page-Scanned env max_records s i [] c v = v
scan_page-Scanned env max_records s i (a ∷ page) c v =
    scan_page-Scanned env max_records s i page (scan_entry env max_records a c)
      (scan_entry-Scanned env max_records s i a page c v)

start-Scanned :
    (examined i e : ℕ) (s : Compliance)
    → Indexed e s
    → Scanned s i (page_entries i s) (start examined s)
start-Scanned examined i e s v = (
  (
    e,
    SameIndex-Indexed e s (set_page i (page_entries i s) s)
        (record {
          pages_are = λ k. ground arith;
          page_of_is = refl;
          meta_is = refl;
          count_is = refl;
          has_record = λ a. refl;
        })
        v,
  ),
  λ h. record { same_state = refl; same_page = refl },
)

write_back-Indexed :
    (s : Compliance) (i e : ℕ) (c : Scan)
    → Indexed e s
    → Scanned s i [] c
    → (e' : ℕ) × Indexed e' (write_back i c)
write_back-Indexed s i e c old ((e', v), o) = elim (Bool-cases c.changed) [
  | inl q ↦ rw q (e', subst (λ p. Indexed e' (set_page i p c.state)) (append-nil c.next) v)
  | inr q ↦ rw q (e, subst (Indexed e) (sym (o q).same_state) old)
]

prune_pages-Indexed :
    (env : Env) (max_records : ℕ) (indices : List ℕ) (examined e : ℕ) (s : Compliance)
    → Indexed e s
    → (e' : ℕ) × Indexed e' (prune_pages env max_records indices examined s).1
unfolding prune_pages
prune_pages-Indexed env max_records [] examined e s v = (e, v)
prune_pages-Indexed env max_records (i ∷ indices) examined e s v =
    let c = scan_page env max_records (page_entries i s) (start examined s) in
    let (e1, v1) = write_back-Indexed s i e c v (
      scan_page-Scanned env max_records s i (page_entries i s) (start examined s)
        (start-Scanned examined i e s v)) in
    elim (Bool-cases (c.unexamined == 0)) [
      | inl q ↦ rw q (prune_pages-Indexed env max_records indices c.examined e1 (write_back i c) v1)
      | inr q ↦ rw q (e1, v1)
    ]

pub prune_expired-Indexed :
    (env : Env) (admin : Address) (max_records e : ℕ) (s s' : Compliance)
    → state_of (prune_expired env admin max_records s) ≡ ok s'
    → Indexed e s
    → (e' : ℕ) × Indexed e' s'
unfolding prune_expired
prune_expired-Indexed env admin max_records e s s' h v =
    let same : (prune_pages env max_records (page_indices s) 0 s).1 ≡ s' = ground arith in
    subst (λ t. (e' : ℕ) × Indexed e' t) same
      (prune_pages-Indexed env max_records (page_indices s) 0 e s v)
