-- ===== src/Compliance/IndexDrop.antt =====
-- contracts/compliance/src/lib.rs: the pages of the allowlist when an address leaves it.
use stellar_rwa_contracts.Base.{
  ℕ, ◌≡◌, ap, Option, none, some, false, List, [], ◌∷◌, arith, Option-cases, inl, inr, Bool-cases,
  ◌==◌, if◌then◌else◌, ◌<◌, ◌≢◌, unwrap_or, ◌+◌, ◌-◌, ◌^◌, length,
}
use stellar_rwa_contracts.Base.Occurs.{one_if, occurs}
use stellar_rwa_contracts.Base.Host.{Address, ok}
use stellar_rwa_contracts.Compliance.State.{
  Env, Compliance, set_record, is_some, allowlist_meta, page_entries, without,
  remove_from_allowlist,
}
use stellar_rwa_contracts.Compliance.Records.{remove}
use stellar_rwa_contracts.Compliance.Listing.{range, page_indices, entries_of, get_allowlist}
use stellar_rwa_contracts.Compliance.Index.{on_page, Indexed, SameIndex-Indexed, length-changed}

-- The address `a` leaves the page `i`, of which `page` is left.
pub record Dropped (i : ℕ) (a : Address) (page : List Address) (s s' : Compliance) : Type 0 where
  pub was_on : s.page_of a ≡ some i
  pub pages_are : (k : ℕ) → page_entries k s' ≡ (if k == i then page else page_entries k s)
  pub page_of_is : (b : Address) → s'.page_of b ≡ (if b == a then none else s.page_of b)
  pub has_record :
      (b : Address) → is_some (s'.records b) ≡ (if b == a then false else is_some (s.records b))
  pub meta_is : s'.meta ≡ s.meta
  pub rest : (b : Address) → occurs b page ≡ (if b == a then 0 else occurs b (page_entries i s))
  pub shorter : length page + 1 ≡ length (page_entries i s)

Dropped-listed :
    (e i : ℕ) (a : Address) (page : List Address) (s s' : Compliance)
    → Dropped i a page s s'
    → Indexed e s
    → (k : ℕ) (b : Address) → occurs b (page_entries k s') ≡ one_if (on_page k (s'.page_of b))
Dropped-listed e i a page s s' w v k b = elim (Bool-cases (k == i)) [
  | inl q ↦ ground (arith, w.pages_are k, w.page_of_is b, w.rest b, v.listed i b, w.was_on)
  | inr q ↦ ground (arith, w.pages_are k, w.page_of_is b, v.listed k b, w.was_on)
]

-- The listing is one shorter.
Dropped-listing :
    (e i : ℕ) (a : Address) (page : List Address) (s s' : Compliance)
    → Dropped i a page s s'
    → Indexed e s
    → length (get_allowlist s') + 1 ≡ length (get_allowlist s)
unfolding get_allowlist
Dropped-listing e i a page s s' w v =
    let n = (allowlist_meta s).0 + 1 in
    let others : (k : ℕ) → k ≢ i → page_entries k s' ≡ page_entries k s =
      λ k ne. ground (arith, w.pages_are k) in
    let inside : i < 0 + n = omega (arith, v.within i a w.was_on) in
    let changed = length-changed i 0 n s s' others (omega arith) inside in
    let same : length (entries_of (page_indices s') s') ≡ length (entries_of (range 0 n) s') =
      ap (λ (m : Option (ℕ × ℕ)). length (entries_of (range 0 ((unwrap_or m (0, 0)).0 + 1)) s'))
        w.meta_is in
    let left : page_entries i s' ≡ page = ground (arith, w.pages_are i) in
    ground (arith, same, changed, ap length left, w.shorter)

pub Dropped-Indexed :
    (e e' i : ℕ) (a : Address) (page : List Address) (s s' : Compliance)
    → Dropped i a page s s'
    → Indexed e s
    → unwrap_or s'.count 0 + 1 + e ≡ unwrap_or s.count 0 + e'
    → unwrap_or s'.count 0 < 2 ^ 32
    → Indexed e' s'
Dropped-Indexed e e' i a page s s' w v h f = record {
  listed = Dropped-listed e i a page s s' w v;
  recorded = λ b. ground (arith, w.has_record b, w.page_of_is b, v.recorded b);
  within = λ k b q. ground (arith, w.page_of_is b, w.meta_is, v.within k b);
  room = rw (w.meta_is) (ground (arith, w.pages_are (allowlist_meta s).0, w.shorter, v.room));
  short = rw (w.meta_is) v.short;
  small = λ k. ground (arith, w.pages_are k, w.shorter, v.small k, v.small i);
  counted = omega (arith, Dropped-listing e i a page s s' w v, v.counted, h);
  fits = f;
}

occurs-without :
    (a b : Address) (page : List Address)
    → occurs b (without a page) ≡ (if b == a then 0 else occurs b page)
unfolding occurs without
occurs-without a b [] = ground arith
occurs-without a b (x ∷ page) = ground (arith, occurs-without a b page)

length-without :
    (a : Address) (page : List Address) → length (without a page) + occurs a page ≡ length page
unfolding occurs without
length-without a [] = omega arith
length-without a (x ∷ page) = ground (arith, length-without a page)

remove_from_allowlist-Dropped :
    (e i : ℕ) (a : Address) (s : Compliance)
    → Indexed e s
    → s.page_of a ≡ some i
    → Dropped i a (without a (page_entries i s)) s (remove_from_allowlist a (set_record a none s))
unfolding remove_from_allowlist
remove_from_allowlist-Dropped e i a s v h = record {
  was_on = h;
  pages_are = λ k. ground (arith, h);
  page_of_is = λ b. ground (arith, h);
  has_record = λ b. ground (arith, h);
  meta_is = ground (arith, h);
  rest = λ b. occurs-without a b (page_entries i s);
  shorter = ground (arith, length-without a (page_entries i s), v.listed i a, h);
}

removed_count :
    (a : Address) (i : ℕ) (s : Compliance)
    → s.page_of a ≡ some i
    → unwrap_or (remove_from_allowlist a (set_record a none s)).count 0 ≡ unwrap_or s.count 0 - 1
unfolding remove_from_allowlist
removed_count a i s h = ground arith

pub remove-Indexed :
    (env : Env) (admin a : Address) (e : ℕ) (s s' : Compliance)
    → remove env admin a s ≡ ok s'
    → Indexed e s
    → Indexed e s'
unfolding remove
remove-Indexed env admin a e s s' h v = elim (Option-cases (s.page_of a)) [
  | inl q ↦ ground (arith, v.recorded a)
  | inr (i, q) ↦
      let t = remove_from_allowlist a (set_record a none s) in
      let w = remove_from_allowlist-Dropped e i a s v q in
      let down : unwrap_or t.count 0 ≡ unwrap_or s.count 0 - 1 = removed_count a i s q in
      let one = Dropped-listing e i a (without a (page_entries i s)) s t w v in
      SameIndex-Indexed e t s'
        (record {
          pages_are = λ k. ground arith;
          page_of_is = ground arith;
          meta_is = ground arith;
          count_is = ground arith;
          has_record = λ b. ground arith;
        })
        (Dropped-Indexed e e i a (without a (page_entries i s)) s t w v
          (omega (arith, one, v.counted, down)) (omega (arith, v.fits, down)))
]
