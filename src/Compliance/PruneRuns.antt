-- ===== src/Compliance/PruneRuns.antt =====
-- contracts/compliance/src/lib.rs, `prune_expired`: a call without a bound.
use stellar_rwa_contracts.Base.{
  zero, suc, ℕ, ◌≡◌, refl, sym, ap, ◌∙◌, Option, none, some, List, [], ◌∷◌, arith, Option-cases,
  inl, inr, ◌==◌, if◌then◌else◌, ◌≢◌, unwrap_or, ◌+◌, ltb,
}
use stellar_rwa_contracts.Base.Occurs.{one_if, occurs, occurs-++}
use stellar_rwa_contracts.Base.Host.{Address, ok, state_of}
use stellar_rwa_contracts.Compliance.State.{
  Env, Compliance, KycRecord, empty, is_some, allowlist_meta, page_entries,
}
use stellar_rwa_contracts.Compliance.Checks.{has_lapsed}
use stellar_rwa_contracts.Compliance.Listing.{
  range, page_indices, entries_of, get_allowlist, get_allowlist_count,
}
use stellar_rwa_contracts.Compliance.Pruning.{
  Scan, drop_record, examine, scan_entry, scan_page, write_back, prune_pages, prune_expired,
}
use stellar_rwa_contracts.Compliance.Index.{Indexed, entries_outside, Indexed-occurs}
use stellar_rwa_contracts.Compliance.IndexPrune.{prune_expired-Indexed}
use stellar_rwa_contracts.Compliance.ScanSteps.{start}
use stellar_rwa_contracts.Compliance.Calls.{Call, run}
use stellar_rwa_contracts.Compliance.Thinning.{prune_expired-Thins}
use stellar_rwa_contracts.Compliance.Histories.{run-empty-Indexed}

-- A record, if it has not lapsed.
abbrev pub unlapsed : Env → Option KycRecord → Option KycRecord
unlapsed env none = none
unlapsed env (some r) = if has_lapsed env r then none else some r

unlapsed_twice : (env : Env) (o : Option KycRecord) → unlapsed env (unlapsed env o) ≡ unlapsed env o
unlapsed_twice env none = refl
unlapsed_twice env (some r) = ground arith

scan_entry-all :
    (env : Env) (a b : Address) (c : Scan)
    → (scan_entry env 0 a c).state.records b
      ≡ (if a == b then unlapsed env (c.state.records b) else c.state.records b)
unfolding scan_entry examine drop_record
scan_entry-all env a b c = elim (Option-cases (c.state.records a)) [
  | inl h ↦ ground arith
  | inr (r, h) ↦ ground arith
]

scan_entry-pages :
    (env : Env) (m : ℕ) (a : Address) (c : Scan)
    → (scan_entry env m a c).state.pages ≡ c.state.pages
unfolding scan_entry examine drop_record
scan_entry-pages env m a c = elim (Option-cases (c.state.records a)) [
  | inl h ↦ ground arith
  | inr (r, h) ↦ ground arith
]

scan_entry-unexamined :
    (env : Env) (a : Address) (c : Scan) → (scan_entry env 0 a c).unexamined ≡ c.unexamined
unfolding scan_entry examine
scan_entry-unexamined env a c = elim (Option-cases (c.state.records a)) [
  | inl h ↦ ground arith
  | inr (r, h) ↦ ground arith
]

scan_page-all :
    (env : Env) (b : Address) (page : List Address) (c : Scan)
    → ((scan_page env 0 page c).state.records b
        ≡ (if ltb 0 (occurs b page) then unlapsed env (c.state.records b) else c.state.records b))
      × ((scan_page env 0 page c).unexamined ≡ c.unexamined)
unfolding scan_page occurs
scan_page-all env b [] c = (refl, refl)
scan_page-all env b (a ∷ page) c =
    let (p, q) = scan_page-all env b page (scan_entry env 0 a c) in
    (
      p ∙ rw (scan_entry-all env a b c) (ground (arith, unlapsed_twice env (c.state.records b))),
      q ∙ scan_entry-unexamined env a c,
    )

scan_page-pages :
    (env : Env) (m : ℕ) (page : List Address) (c : Scan)
    → (scan_page env m page c).state.pages ≡ c.state.pages
unfolding scan_page
scan_page-pages env m [] c = refl
scan_page-pages env m (a ∷ page) c =
    scan_page-pages env m page (scan_entry env m a c) ∙ scan_entry-pages env m a c

write_back-records :
    (i : ℕ) (c : Scan) (b : Address) → (write_back i c).records b ≡ c.state.records b
write_back-records i c b = ground arith

write_back-others :
    (i k : ℕ) (c : Scan) → k ≢ i → page_entries k (write_back i c) ≡ page_entries k c.state
write_back-others i k c h = ground arith

prune_pages-all :
    (env : Env) (b : Address) (j m examined : ℕ) (s : Compliance)
    → ((prune_pages env 0 (range j m) examined s).1.records b ≡ (
        if ltb 0 (occurs b (entries_of (range j m) s))
        then unlapsed env (s.records b)
        else s.records b))
      × ((prune_pages env 0 (range j m) examined s).0 ≡ 0)
unfolding prune_pages entries_of occurs
prune_pages-all env b j zero examined s = (refl, refl)
prune_pages-all env b j (suc m) examined s =
    let c = scan_page env 0 (page_entries j s) (start examined s) in
    let (p, none_left) = scan_page-all env b (page_entries j s) (start examined s) in
    let t = write_back j c in
    let later : entries_of (range (j + 1) m) t ≡ entries_of (range (j + 1) m) s =
      entries_outside j (j + 1) m s t
        (λ k h.
          write_back-others j k c h
          ∙ ap (λ (f : ℕ → Option (List Address)). unwrap_or (f k) [])
              (scan_page-pages env 0 (page_entries j s) (start examined s)))
        (inl (omega arith)) in
    let (q, r) = prune_pages-all env b (j + 1) m c.examined t in
    let here : t.records b ≡ (
        if ltb 0 (occurs b (page_entries j s)) then unlapsed env (s.records b) else s.records b) =
      write_back-records j c b ∙ p in
    rw none_left (
      q
          ∙ rw later (
              rw here (
                ground (
                  arith,
                  occurs-++ b (page_entries j s) (entries_of (range (j + 1) m) s),
                  unlapsed_twice env (s.records b),
                ))),
      r,
    )

prune_all-records :
    (env : Env) (admin : Address) (e n : ℕ) (s s' : Compliance)
    → Indexed e s
    → prune_expired env admin 0 s ≡ ok (n, s')
    → (n ≡ 0) × ((b : Address) → s'.records b ≡ unlapsed env (s.records b))
unfolding prune_expired get_allowlist
prune_all-records env admin e n s s' v h =
    let same : prune_pages env 0 (page_indices s) 0 s ≡ (n, s') = ground arith in
    (
      ap (λ (p : ℕ × Compliance). p.0) (sym same)
          ∙ (prune_pages-all env 0 0 ((allowlist_meta s).0 + 1) 0 s).1,
      λ b.
          ap (λ (p : ℕ × Compliance). p.1.records b) (sym same)
          ∙ (prune_pages-all env b 0 ((allowlist_meta s).0 + 1) 0 s).0
          ∙ rw (Indexed-occurs e s b v) (elim (Option-cases (s.records b)) [
            | inl q ↦ ground arith
            | inr (r, q) ↦ ground arith
          ]),
    )

-- After any history of calls of a new contract: `prune_expired` without a bound, if it succeeds,
-- leaves no entry unexamined, removes every record that has lapsed and keeps every other record,
-- and then `get_allowlist` lists each address that still has a record once and no other;
-- `get_allowlist_count` remains what it was.
pub prune_expired-all :
    (env : Env) (admin : Address) (n : ℕ) (cs : List (Env × Call)) (s' : Compliance)
    → prune_expired env admin 0 (run empty cs) ≡ ok (n, s')
    → (n ≡ 0)
      × ((b : Address) → s'.records b ≡ unlapsed env ((run empty cs).records b))
      × ((b : Address) → occurs b (get_allowlist s') ≡ one_if (is_some (s'.records b)))
      × (get_allowlist_count s' ≡ get_allowlist_count (run empty cs))
unfolding get_allowlist_count
prune_expired-all env admin n cs s' h =
    let (e, v) = run-empty-Indexed cs in
    let (none_left, records) = prune_all-records env admin e n (run empty cs) s' v h in
    let (e', v') = prune_expired-Indexed env admin 0 e (run empty cs) s' (ap state_of h) v in
    (
      none_left,
      records,
      λ b. Indexed-occurs e' s' b v',
      ap (λ (k : Option ℕ). unwrap_or k 0)
          (prune_expired-Thins env admin 0 n (run empty cs) s' h).count_is,
    )
