-- ===== src/Compliance/Thinning.antt =====
-- contracts/compliance/src/lib.rs, `prune_expired`: the records that it removes.
use stellar_rwa_contracts.Base.{
  ℕ, ◌≡◌, refl, sym, ap, subst, ◌∙◌, none, some, true, List, [], ◌∷◌, arith, Option-cases, inl, inr,
  Bool-cases, ◌==◌, ◌⊎◌,
}
use stellar_rwa_contracts.Base.Host.{Address, ok}
use stellar_rwa_contracts.Compliance.State.{Env, Compliance, KycRecord, page_entries}
use stellar_rwa_contracts.Compliance.Checks.{has_lapsed}
use stellar_rwa_contracts.Compliance.Listing.{page_indices}
use stellar_rwa_contracts.Compliance.Pruning.{
  Scan, drop_record, examine, is_full, scan_entry, scan_page, write_back, prune_pages,
  prune_expired,
}
use stellar_rwa_contracts.Compliance.ScanSteps.{
  start, scan_entry-full, scan_entry-lapsed, scan_entry-live,
}

-- Only lapsed records are removed, and nothing else of the storage but pages, page numbers and
-- events changes.
pub record Thins (env : Env) (s s' : Compliance) : Type 0 where
  pub removed :
      (b : Address)
      → (s'.records b ≡ s.records b)
        ⊎ ((r : KycRecord) × (s.records b ≡ some r)
            × (has_lapsed env r ≡ true)
            × (s'.records b ≡ none))
  pub admin_is : s'.admin ≡ s.admin
  pub pending_admin_is : s'.pending_admin ≡ s.pending_admin
  pub meta_is : s'.meta ≡ s.meta
  pub count_is : s'.count ≡ s.count
  pub blocked_is : s'.blocked ≡ s.blocked
  pub blocked_list_is : s'.blocked_list ≡ s.blocked_list
  pub min_holding_is : s'.min_holding ≡ s.min_holding
  pub first_acquired_is : s'.first_acquired ≡ s.first_acquired

Thins-same : (env : Env) (s s' : Compliance) → s' ≡ s → Thins env s s'
Thins-same env s s' e = record {
  removed = λ b. inl (ap (λ (t : Compliance). t.records b) e);
  admin_is = ap (λ (t : Compliance). t.admin) e;
  pending_admin_is = ap (λ (t : Compliance). t.pending_admin) e;
  meta_is = ap (λ (t : Compliance). t.meta) e;
  count_is = ap (λ (t : Compliance). t.count) e;
  blocked_is = ap (λ (t : Compliance). t.blocked) e;
  blocked_list_is = ap (λ (t : Compliance). t.blocked_list) e;
  min_holding_is = ap (λ (t : Compliance). t.min_holding) e;
  first_acquired_is = ap (λ (t : Compliance). t.first_acquired) e;
}

Thins-trans : (env : Env) (s t u : Compliance) → Thins env s t → Thins env t u → Thins env s u
Thins-trans env s t u v w = record {
  removed = λ b. ground (arith, v.removed b, w.removed b);
  admin_is = w.admin_is ∙ v.admin_is;
  pending_admin_is = w.pending_admin_is ∙ v.pending_admin_is;
  meta_is = w.meta_is ∙ v.meta_is;
  count_is = w.count_is ∙ v.count_is;
  blocked_is = w.blocked_is ∙ v.blocked_is;
  blocked_list_is = w.blocked_list_is ∙ v.blocked_list_is;
  min_holding_is = w.min_holding_is ∙ v.min_holding_is;
  first_acquired_is = w.first_acquired_is ∙ v.first_acquired_is;
}

drop_record-Thins :
    (env : Env) (a : Address) (r : KycRecord) (s : Compliance)
    → s.records a ≡ some r
    → has_lapsed env r ≡ true
    → Thins env s (drop_record a r s)
unfolding drop_record
drop_record-Thins env a r s h l = record {
  removed = λ b. elim (Bool-cases (b == a)) [
    | inl q ↦ inr (r, ground arith, l, ground arith)
    | inr q ↦ inl (ground arith)
  ];
  admin_is = refl;
  pending_admin_is = refl;
  meta_is = refl;
  count_is = refl;
  blocked_is = refl;
  blocked_list_is = refl;
  min_holding_is = refl;
  first_acquired_is = refl;
}

scan_entry-Thins :
    (env : Env) (max_records : ℕ) (a : Address) (c : Scan)
    → Thins env c.state (scan_entry env max_records a c).state
unfolding scan_entry examine
scan_entry-Thins env max_records a c = elim (Bool-cases (is_full max_records c.examined)) [
  | inl q ↦
      Thins-same env c.state _ (ap (λ (d : Scan). d.state) (scan_entry-full env max_records a c q))
  | inr q ↦ elim (Option-cases (c.state.records a)) [
    | inl h ↦ Thins-same env c.state _ (ground arith)
    | inr (r, h) ↦ elim (Bool-cases (has_lapsed env r)) [
      | inl l ↦
          subst (Thins env c.state)
            (sym (ap (λ (d : Scan). d.state) (scan_entry-lapsed env max_records a c r q h l)))
            (drop_record-Thins env a r c.state h l)
      | inr l ↦
          Thins-same env c.state _
            (ap (λ (d : Scan). d.state) (scan_entry-live env max_records a c r q h l))
    ]
  ]
]

scan_page-Thins :
    (env : Env) (max_records : ℕ) (page : List Address) (c : Scan)
    → Thins env c.state (scan_page env max_records page c).state
unfolding scan_page
scan_page-Thins env max_records [] c = Thins-same env c.state c.state refl
scan_page-Thins env max_records (a ∷ page) c =
    let d = scan_entry env max_records a c in
    Thins-trans env c.state d.state (scan_page env max_records page d).state
      (scan_entry-Thins env max_records a c) (scan_page-Thins env max_records page d)

write_back-Thins :
    (env : Env) (i : ℕ) (s : Compliance) (c : Scan)
    → Thins env s c.state
    → Thins env s (write_back i c)
write_back-Thins env i s c v = elim (Bool-cases c.changed) [
  | inl q ↦ rw q (record {
    removed = v.removed;
    admin_is = v.admin_is;
    pending_admin_is = v.pending_admin_is;
    meta_is = v.meta_is;
    count_is = v.count_is;
    blocked_is = v.blocked_is;
    blocked_list_is = v.blocked_list_is;
    min_holding_is = v.min_holding_is;
    first_acquired_is = v.first_acquired_is;
  })
  | inr q ↦ rw q v
]

prune_pages-Thins :
    (env : Env) (max_records : ℕ) (indices : List ℕ) (examined : ℕ) (s : Compliance)
    → Thins env s (prune_pages env max_records indices examined s).1
unfolding prune_pages
prune_pages-Thins env max_records [] examined s = Thins-same env s s refl
prune_pages-Thins env max_records (i ∷ indices) examined s =
    let c = scan_page env max_records (page_entries i s) (start examined s) in
    let v =
      write_back-Thins env i s c
        (scan_page-Thins env max_records (page_entries i s) (start examined s)) in
    elim (Bool-cases (c.unexamined == 0)) [
      | inl q ↦ rw q (
          Thins-trans env s (write_back i c)
            (prune_pages env max_records indices c.examined (write_back i c)).1 v
            (prune_pages-Thins env max_records indices c.examined (write_back i c)))
      | inr q ↦ rw q v
    ]

pub prune_expired-Thins :
    (env : Env) (admin : Address) (max_records n : ℕ) (s s' : Compliance)
    → prune_expired env admin max_records s ≡ ok (n, s')
    → Thins env s s'
unfolding prune_expired
prune_expired-Thins env admin max_records n s s' h =
    let same : (prune_pages env max_records (page_indices s) 0 s).1 ≡ s' = ground arith in
    subst (Thins env s) same (prune_pages-Thins env max_records (page_indices s) 0 s)
