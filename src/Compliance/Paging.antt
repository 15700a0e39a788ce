-- ===== src/Compliance/Paging.antt =====
-- contracts/compliance/src/lib.rs, `get_allowlist_page`: the loops over the pages and their entries.
use stellar_rwa_contracts.Base.{
  suc, ℕ, ◌≡◌, sym, ap, ◌∙◌, List, [], ◌∷◌, ◌++◌, arith, inl, inr, Bool-cases, ◌<◌, ◌≤◌, ◌+◌, ◌-◌,
  ltb, leb, length, min, ◌==◌, if◌then◌else◌,
}
use stellar_rwa_contracts.Base.Occurs.{length-++}
use stellar_rwa_contracts.Base.Slices.{
  drop, take, drop_all, take_nothing, length-take, drop-++, take-++,
}
use stellar_rwa_contracts.Base.Host.{Address}
use stellar_rwa_contracts.Compliance.State.{Compliance, page_entries}
use stellar_rwa_contracts.Compliance.Listing.{
  page_indices, entries_of, get_allowlist, cap_limit, walk_page, walk_pages, get_allowlist_page,
}
use mathlib.Core.List.{append_assoc, append-nil}

-- What the loops add to the result: the entries after the skipped ones, up to the limit.
abbrev more : ℕ → ℕ → List Address → ℕ × List Address → List Address
more offset limit entries (skipped, result) =
    take (limit - length result) (drop (offset - skipped) entries)

more-nothing : (offset limit : ℕ) (acc : ℕ × List Address) → more offset limit [] acc ≡ []
unfolding take drop
more-nothing offset limit (k, result) =
    ap (take (limit - length result)) (drop_all (offset - k) [] (omega arith))
    ∙ take_nothing (limit - length result)

more-full :
    (offset limit k : ℕ) (entries result : List Address)
    → limit ≤ length result
    → more offset limit entries (k, result) ≡ []
unfolding take
more-full offset limit k entries result h =
    let none_left : limit - length result ≡ 0 = omega arith in
    ap (λ (n : ℕ). take n (drop (offset - k) entries)) none_left

more-skipped :
    (offset limit k : ℕ) (a : Address) (entries result : List Address)
    → k < offset
    → more offset limit (a ∷ entries) (k, result) ≡ more offset limit entries (k + 1, result)
unfolding drop
more-skipped offset limit k a entries result h =
    let one : offset - k ≡ suc (offset - (k + 1)) = omega arith in
    ap (λ (n : ℕ). take (limit - length result) (drop n (a ∷ entries))) one

more-taken :
    (offset limit k : ℕ) (a : Address) (entries result : List Address)
    → offset ≤ k
    → length result < limit
    → result ++ more offset limit (a ∷ entries) (k, result)
      ≡ (result ++ a ∷ []) ++ more offset limit entries (k, result ++ a ∷ [])
unfolding take drop
more-taken offset limit k a entries result p q =
    let none_left : offset - k ≡ 0 = omega arith in
    let one : limit - length result ≡ suc (limit - length (result ++ a ∷ [])) =
      omega (arith, length-++ result (a ∷ [])) in
    ap (λ (n : ℕ). result ++ take (limit - length result) (drop n (a ∷ entries))) none_left
    ∙ ap (λ (n : ℕ). result ++ take n (a ∷ entries)) one
    ∙ sym (append_assoc result (a ∷ []) (take (limit - length (result ++ a ∷ [])) entries))
    ∙ ap
        (λ (n : ℕ). (result ++ a ∷ []) ++ take (limit - length (result ++ a ∷ [])) (drop n entries))
        (sym none_left)

both :
    (m n : ℕ) (xs ys : List Address) → m ≡ n → xs ≡ ys → ◌≡◌ {A = ℕ × List Address} (m, xs) (n, ys)
both m n xs ys p q = ap (λ (k : ℕ). (k, xs)) p ∙ ap (λ (zs : List Address). (n, zs)) q

-- The loop over the entries of a page.
walk_page-more :
    (offset limit : ℕ) (entries : List Address) (k : ℕ) (result : List Address)
    → k ≤ offset
    → walk_page offset limit entries (k, result)
      ≡ (min offset (k + length entries), result ++ more offset limit entries (k, result))
unfolding walk_page
walk_page-more offset limit [] k result h =
    both _ _ _ _ (omega arith) (
      sym (append-nil result) ∙ ap (λ t. result ++ t) (sym (more-nothing offset limit (k, result))))
walk_page-more offset limit (a ∷ entries) k result h = elim (Bool-cases (ltb k offset)) [
  | inl q ↦ rw q (
      walk_page-more offset limit entries (k + 1) result (ground arith)
      ∙ both _ _ _ _ (omega arith) (
          ap (λ t. result ++ t)
            (sym (more-skipped offset limit k a entries result (ground arith)))))
  | inr q ↦ elim (Bool-cases (leb limit (length result))) [
    | inl l ↦ rw q (
        rw l (
          both _ _ _ _ (ground arith) (
            sym (append-nil result)
            ∙ ap (λ t. result ++ t)
                (sym (more-full offset limit k (a ∷ entries) result (ground arith))))))
    | inr l ↦ rw q (
        rw l (
          walk_page-more offset limit entries k (result ++ a ∷ []) h
          ∙ both _ _ _ _ (ground arith)
              (sym (more-taken offset limit k a entries result (ground arith) (ground arith)))))
  ]
]

-- What is added of two stretches is what is added of the one and then of the other.
more-++ :
    (offset limit k : ℕ) (xs ys result : List Address)
    → k ≤ offset
    → result ++ more offset limit (xs ++ ys) (k, result)
      ≡ (result ++ more offset limit xs (k, result))
        ++ more offset limit ys
            (min offset (k + length xs), result ++ more offset limit xs (k, result))
more-++ offset limit k xs ys result h =
    let l = limit - length result in
    let d = offset - k in
    let e = limit - length (result ++ take l (drop d xs)) in
    let skips : d - length xs ≡ offset - min offset (k + length xs) = omega arith in
    let takes : l - length (drop d xs) ≡ e =
      omega (arith, length-++ result (take l (drop d xs)), length-take l (drop d xs)) in
    ap (λ t. result ++ take l t) (drop-++ d xs ys)
    ∙ ap (λ t. result ++ t) (take-++ l (drop d xs) (drop (d - length xs) ys))
    ∙ sym (
        append_assoc result (take l (drop d xs))
          (take (l - length (drop d xs)) (drop (d - length xs) ys)))
    ∙ ap (λ (n : ℕ). (result ++ take l (drop d xs)) ++ take n (drop (d - length xs) ys)) takes
    ∙ ap (λ (n : ℕ). (result ++ take l (drop d xs)) ++ take e (drop n ys)) skips

-- The loop over the pages.
walk_pages-more :
    (offset limit : ℕ) (is : List ℕ) (s : Compliance) (k : ℕ) (result : List Address)
    → k ≤ offset
    → (walk_pages offset limit is s (k, result)).1
      ≡ result ++ more offset limit (entries_of is s) (k, result)
unfolding walk_pages entries_of
walk_pages-more offset limit [] s k result h =
    sym (append-nil result) ∙ ap (λ t. result ++ t) (sym (more-nothing offset limit (k, result)))
walk_pages-more offset limit (i ∷ is) s k result h =
    let page = page_entries i s in
    let rest = entries_of is s in
    let result' = result ++ more offset limit page (k, result) in
    elim (Bool-cases (leb limit (length result))) [
      | inl q ↦ rw q (
          sym (append-nil result)
          ∙ ap (λ t. result ++ t)
              (sym (more-full offset limit k (page ++ rest) result (ground arith))))
      | inr q ↦ rw q (
          ap (λ (acc : ℕ × List Address). (walk_pages offset limit is s acc).1)
            (walk_page-more offset limit page k result h)
          ∙ walk_pages-more offset limit is s (min offset (k + length page)) result' (omega arith)
          ∙ sym (more-++ offset limit k page rest result h))
    ]

sub_zero : (n : ℕ) → n - 0 ≡ n
sub_zero n = omega arith

-- At most 200, which 0 stands for too.
abbrev pub page_length : ℕ → ℕ
page_length limit = if limit == 0 then 200 else min limit 200

cap_limit-page_length : (limit : ℕ) → cap_limit limit ≡ page_length limit
cap_limit-page_length limit = ground arith

-- For every offset, limit and state: `get_allowlist_page` returns the entries of `get_allowlist`
-- after the first `offset`, up to the limit, where a limit of 0 or beyond 200 stands for 200.
pub get_allowlist_page-slice :
    (offset limit : ℕ) (s : Compliance)
    → get_allowlist_page offset limit s ≡ take (page_length limit) (drop offset (get_allowlist s))
unfolding get_allowlist_page get_allowlist
get_allowlist_page-slice offset limit s =
    walk_pages-more offset (cap_limit limit) (page_indices s) s 0 [] (omega arith)
    ∙ ap (λ (n : ℕ). take n (drop (offset - 0) (get_allowlist s)))
        (sub_zero (cap_limit limit) ∙ cap_limit-page_length limit)
    ∙ ap (λ (n : ℕ). take (page_length limit) (drop n (get_allowlist s))) (sub_zero offset)
