-- ===== src/Compliance/Index.antt =====
-- contracts/compliance/src/lib.rs: the pages of the allowlist and the records, and what removing
-- an address does to them.
use stellar_rwa_contracts.Base.{
  zero, suc, ℕ, ◌≡◌, refl, sym, ap, ◌∙◌, Option, none, some, Bool, false, List, [], ◌∷◌, arith, inl,
  inr, Bool-cases, ◌==◌, ◌<◌, ◌≤◌, ◌≢◌, ◌⊎◌, unwrap_or, ◌+◌, ◌^◌, leb, length,
}
use stellar_rwa_contracts.Base.Occurs.{one_if, occurs, occurs-++, length-++}
use stellar_rwa_contracts.Base.Host.{Address}
use stellar_rwa_contracts.Compliance.State.{
  Compliance, is_some, allowlist_meta, page_entries, allowlist_page_size,
}
use stellar_rwa_contracts.Compliance.Listing.{range, page_indices, entries_of, get_allowlist}

-- Whether an address that is on the page `o` is on the page `i`.
abbrev pub on_page : ℕ → Option ℕ → Bool
on_page i none = false
on_page i (some j) = j == i

-- The addresses with a record are those with a page, each stands once on its page and on no other,
-- pages beyond the current one are not used, no page is longer than 200, and the count is that of
-- the listed addresses and `e` more.
pub record Indexed (e : ℕ) (s : Compliance) : Type 0 where
  pub listed :
      (i : ℕ) (a : Address) → occurs a (page_entries i s) ≡ one_if (on_page i (s.page_of a))
  pub recorded : (a : Address) → is_some (s.records a) ≡ is_some (s.page_of a)
  pub within : (i : ℕ) (a : Address) → s.page_of a ≡ some i → i ≤ (allowlist_meta s).0
  pub room : length (page_entries (allowlist_meta s).0 s) ≤ (allowlist_meta s).1
  pub short : (allowlist_meta s).1 ≤ allowlist_page_size
  pub small : (i : ℕ) → length (page_entries i s) ≤ allowlist_page_size
  pub counted : length (get_allowlist s) + e ≡ unwrap_or s.count 0
  pub fits : unwrap_or s.count 0 < 2 ^ 32

-- Nothing that `Indexed` reads has changed.
pub record SameIndex (s s' : Compliance) : Type 0 where
  pub pages_are : (k : ℕ) → page_entries k s' ≡ page_entries k s
  pub page_of_is : s'.page_of ≡ s.page_of
  pub meta_is : s'.meta ≡ s.meta
  pub count_is : s'.count ≡ s.count
  pub has_record : (a : Address) → is_some (s'.records a) ≡ is_some (s.records a)

entries-cong :
    (is : List ℕ) (s s' : Compliance)
    → ((k : ℕ) → page_entries k s' ≡ page_entries k s)
    → entries_of is s' ≡ entries_of is s
unfolding entries_of
entries-cong [] s s' h = refl
entries-cong (i ∷ is) s s' h = rw (entries-cong is s s' h) (rw (h i) refl)

listing-cong :
    (s s' : Compliance)
    → ((k : ℕ) → page_entries k s' ≡ page_entries k s)
    → s'.meta ≡ s.meta
    → get_allowlist s' ≡ get_allowlist s
unfolding get_allowlist
listing-cong s s' h k =
    ap (λ (m : Option (ℕ × ℕ)). entries_of (range 0 ((unwrap_or m (0, 0)).0 + 1)) s') k
    ∙ entries-cong (page_indices s) s s' h

pub SameIndex-Indexed : (e : ℕ) (s s' : Compliance) → SameIndex s s' → Indexed e s → Indexed e s'
SameIndex-Indexed e s s' w v = record {
  listed = λ i a. rw (w.pages_are i) (ground (arith, ap (λ f. f a) w.page_of_is, v.listed i a));
  recorded = λ a. ground (arith, w.has_record a, ap (λ f. f a) w.page_of_is, v.recorded a);
  within = λ i a h. ground (arith, w.meta_is, v.within i a, ap (λ f. f a) w.page_of_is);
  room = rw (w.meta_is) (rw (w.pages_are (allowlist_meta s).0) v.room);
  short = rw (w.meta_is) v.short;
  small = λ i. rw (w.pages_are i) (v.small i);
  counted = rw (listing-cong s s' w.pages_are w.meta_is) (rw (w.count_is) v.counted);
  fits = rw (w.count_is) v.fits;
}

pub entries_outside :
    (i j m : ℕ) (s s' : Compliance)
    → ((k : ℕ) → k ≢ i → page_entries k s' ≡ page_entries k s)
    → (i < j) ⊎ (j + m ≤ i)
    → entries_of (range j m) s' ≡ entries_of (range j m) s
unfolding entries_of
entries_outside i j zero s s' h o = refl
entries_outside i j (suc m) s s' h o =
    rw (entries_outside i (j + 1) m s s' h (ground arith)) (ground (arith, h j))

-- The length of a stretch of pages, where the page `i` of it has changed.
pub length-changed :
    (i j m : ℕ) (s s' : Compliance)
    → ((k : ℕ) → k ≢ i → page_entries k s' ≡ page_entries k s)
    → j ≤ i
    → i < j + m
    → length (entries_of (range j m) s') + length (page_entries i s)
      ≡ length (entries_of (range j m) s) + length (page_entries i s')
unfolding entries_of
length-changed i j zero s s' h p q = absurd (omega arith)
length-changed i j (suc m) s s' h p q = elim (Bool-cases (j == i)) [
  | inl e ↦ rw (entries_outside i (j + 1) m s s' h (ground arith)) (
      ground (
        arith,
        length-++ (page_entries j s) (entries_of (range (j + 1) m) s),
        length-++ (page_entries j s') (entries_of (range (j + 1) m) s),
      ))
  | inr e ↦ ground (
    arith,
    length-changed i (j + 1) m s s' h,
    h j,
    length-++ (page_entries j s) (entries_of (range (j + 1) m) s),
    length-++ (page_entries j s') (entries_of (range (j + 1) m) s'),
  )
]

add_zero : (j : ℕ) → j + 0 ≡ j
add_zero j = omega arith

add_suc : (j m : ℕ) → j + 1 + m ≡ j + suc m
add_suc j m = omega arith

-- One more page at the end of a stretch.
pub length-longer :
    (j m : ℕ) (s : Compliance)
    → length (entries_of (range j (suc m)) s)
      ≡ length (entries_of (range j m) s) + length (page_entries (j + m) s)
unfolding entries_of
length-longer j zero s =
    ground
      (arith, length-++ (page_entries j s) [], ap (λ k. length (page_entries k s)) (add_zero j))
length-longer j (suc m) s =
    rw (length-++ (page_entries j s) (entries_of (range (j + 1) (suc m)) s)) (
      rw (length-longer (j + 1) m s) (
        ground (
          arith,
          length-++ (page_entries j s) (entries_of (range (j + 1) m) s),
          ap (λ k. length (page_entries k s)) (add_suc j m),
        )))

-- Whether the page `o` is the page `j` or a later one.
abbrev from_page : ℕ → Option ℕ → Bool
from_page j none = false
from_page j (some i) = leb j i

from_page-step :
    (j : ℕ) (o : Option ℕ)
    → one_if (on_page j o) + one_if (from_page (j + 1) o) ≡ one_if (from_page j o)
from_page-step j none = refl
from_page-step j (some i) = ground arith

from_page-end : (j : ℕ) (o : Option ℕ) → ((i : ℕ) → o ≡ some i → i < j) → one_if (from_page j o) ≡ 0
from_page-end j none w = refl
from_page-end j (some i) w = ground (arith, w i)

-- The listing counts an address as its page does.
occurs-entries :
    (a : Address) (j m : ℕ) (s : Compliance)
    → ((i : ℕ) → occurs a (page_entries i s) ≡ one_if (on_page i (s.page_of a)))
    → ((i : ℕ) → s.page_of a ≡ some i → i < j + m)
    → occurs a (entries_of (range j m) s) ≡ one_if (from_page j (s.page_of a))
unfolding entries_of occurs
occurs-entries a j zero s h w = sym (from_page-end j (s.page_of a) (λ i e. omega (arith, w i e)))
occurs-entries a j (suc m) s h w =
    occurs-++ a (page_entries j s) (entries_of (range (j + 1) m) s)
    ∙ rw (h j) (
        rw (occurs-entries a (j + 1) m s h (λ i e. omega (arith, w i e)))
          (from_page-step j (s.page_of a)))

from_page-all : (o : Option ℕ) → from_page 0 o ≡ is_some o
from_page-all none = refl
from_page-all (some i) = ground arith

-- An address is listed once if it has a record, and else not at all.
pub Indexed-occurs :
    (e : ℕ) (s : Compliance) (a : Address)
    → Indexed e s
    → occurs a (get_allowlist s) ≡ one_if (is_some (s.records a))
unfolding get_allowlist
Indexed-occurs e s a v =
    occurs-entries a 0 ((allowlist_meta s).0 + 1) s (λ i. v.listed i a)
      (λ i h. omega (arith, v.within i a h))
    ∙ ap one_if (from_page-all (s.page_of a) ∙ sym (v.recorded a))
