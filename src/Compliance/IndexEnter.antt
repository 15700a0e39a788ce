-- ===== src/Compliance/IndexEnter.antt =====
-- contracts/compliance/src/lib.rs: the pages of the allowlist when an address enters it.
use stellar_rwa_contracts.Base.{
  suc, ℕ, ◌≡◌, sym, ap, ◌∙◌, Option, none, some, true, false, [], ◌∷◌, ◌++◌, arith, Option-cases,
  inl, inr, Bool-cases, ◌==◌, if◌then◌else◌, ◌<◌, ◌≤◌, ◌≢◌, ◌⊎◌, unwrap_or, ◌+◌, ◌^◌, length,
}
use stellar_rwa_contracts.Base.Occurs.{one_if, occurs, occurs-++, length-++, empty_of_occurs}
use stellar_rwa_contracts.Base.Host.{Address}
use stellar_rwa_contracts.Compliance.State.{
  Compliance, is_some, allowlist_meta, page_entries, allowlist_page_size,
}
use stellar_rwa_contracts.Compliance.Listing.{range, page_indices, entries_of, get_allowlist}
use stellar_rwa_contracts.Compliance.Index.{on_page, Indexed, length-changed, length-longer}

-- The address `a` enters the page `i`, which has room after its first `n` entries.
pub record Entered (i n : ℕ) (a : Address) (s s' : Compliance) : Type 0 where
  pub was_new : s.records a ≡ none
  pub next_page : (i ≡ (allowlist_meta s).0) ⊎ (i ≡ (allowlist_meta s).0 + 1)
  pub space : n < allowlist_page_size
  pub filled : length (page_entries i s) ≤ n
  pub pages_are :
      (k : ℕ)
      → page_entries k s' ≡ (if k == i then page_entries i s ++ a ∷ [] else page_entries k s)
  pub page_of_is : (b : Address) → s'.page_of b ≡ (if b == a then some i else s.page_of b)
  pub has_record :
      (b : Address) → is_some (s'.records b) ≡ (if b == a then true else is_some (s.records b))
  pub meta_is : s'.meta ≡ some (i, n + 1)
  pub count_is : unwrap_or s'.count 0 ≡ unwrap_or s.count 0 + 1
  pub fits : unwrap_or s.count 0 + 1 < 2 ^ 32

-- Pages after the current one are not used.
pub unused_page :
    (e k : ℕ) (s : Compliance) → Indexed e s → (allowlist_meta s).0 < k → page_entries k s ≡ []
unused_page e k s v h = empty_of_occurs (page_entries k s) (λ a. elim (Option-cases (s.page_of a)) [
  | inl q ↦ ground (arith, v.listed k a)
  | inr (j, q) ↦ ground (arith, v.listed k a, v.within j a q)
])

listing_further :
    (e : ℕ) (s : Compliance)
    → Indexed e s
    → length (entries_of (range 0 ((allowlist_meta s).0 + 1 + 1)) s) ≡ length (get_allowlist s)
unfolding get_allowlist
listing_further e s v =
    let n = (allowlist_meta s).0 + 1 in
    let next : n + 1 ≡ suc n = omega arith in
    let unused : length (page_entries (0 + n) s) ≡ 0 =
      ap length (unused_page e (0 + n) s v (omega arith)) in
    ap (λ k. length (entries_of (range 0 k) s)) next ∙ omega (arith, length-longer 0 n s, unused)

Entered-listing :
    (e i n : ℕ) (a : Address) (s s' : Compliance)
    → Entered i n a s s'
    → Indexed e s
    → length (get_allowlist s') ≡ length (get_allowlist s) + 1
unfolding get_allowlist
Entered-listing e i n a s s' w v =
    let others : (k : ℕ) → k ≢ i → page_entries k s' ≡ page_entries k s =
      λ k ne. ground (arith, w.pages_are k) in
    let changed = length-changed i 0 (i + 1) s s' others (omega arith) (omega arith) in
    let same : length (entries_of (page_indices s') s') ≡ length (entries_of (range 0 (i + 1)) s') =
      ap (λ (m : Option (ℕ × ℕ)). length (entries_of (range 0 ((unwrap_or m (0, 0)).0 + 1)) s'))
        w.meta_is in
    let entered : page_entries i s' ≡ page_entries i s ++ a ∷ [] = ground (arith, w.pages_are i) in
    let longer = ap length entered ∙ length-++ (page_entries i s) (a ∷ []) in
    elim w.next_page [
      | inl q ↦
          let old : length (entries_of (range 0 (i + 1)) s)
              ≡ length (entries_of (page_indices s) s) =
            ap (λ k. length (entries_of (range 0 (k + 1)) s)) q in
          ground (arith, same, changed, longer, old)
      | inr q ↦
          let old : length (entries_of (range 0 (i + 1)) s) ≡ length (get_allowlist s) =
            ap (λ k. length (entries_of (range 0 (k + 1)) s)) q ∙ listing_further e s v in
          ground (arith, same, changed, longer, old)
    ]

Entered-listed :
    (e i n : ℕ) (a : Address) (s s' : Compliance)
    → Entered i n a s s'
    → Indexed e s
    → (k : ℕ) (b : Address) → occurs b (page_entries k s') ≡ one_if (on_page k (s'.page_of b))
unfolding occurs
Entered-listed e i n a s s' w v k b =
    let new : is_some (s.page_of a) ≡ false = sym (v.recorded a) ∙ ap is_some w.was_new in
    elim (Bool-cases (k == i)) [
      | inl q ↦ ground (
        arith,
        w.pages_are k,
        w.page_of_is b,
        occurs-++ b (page_entries i s) (a ∷ []),
        v.listed i b,
        new,
      )
      | inr q ↦ ground (arith, w.pages_are k, w.page_of_is b, v.listed k b, new)
    ]

pub Entered-Indexed :
    (e i n : ℕ) (a : Address) (s s' : Compliance) → Entered i n a s s' → Indexed e s → Indexed e s'
Entered-Indexed e i n a s s' w v =
    let longer = length-++ (page_entries i s) (a ∷ []) in
    record {
      listed = Entered-listed e i n a s s' w v;
      recorded = λ b. ground (arith, w.has_record b, w.page_of_is b, v.recorded b);
      within = λ k b q. ground (arith, w.page_of_is b, w.meta_is, v.within k b, w.next_page);
      room = rw (w.meta_is) (ground (arith, w.pages_are i, longer, w.filled));
      short = rw (w.meta_is) (omega (arith, w.space));
      small = λ k. ground (arith, w.pages_are k, longer, w.filled, w.space, v.small k);
      counted = omega (arith, Entered-listing e i n a s s' w v, v.counted, w.count_is);
      fits = omega (arith, w.fits, w.count_is);
    }
