-- ===== src/Registry/Paging.antt =====
-- contracts/registry/src/lib.rs: the pages of an index, put together.
use native.Mathlib.Nat.{zero-mul}
use stellar_rwa_contracts.Base.{
  zero, suc, ℕ, ◌≡◌, refl, sym, ap, subst, ◌∙◌, Option, none, some, List, [], ◌∷◌, ◌++◌, arith, inl,
  inr, Bool-cases, ◌⊎◌, ◌<◌, ◌≤◌, ◌+◌, ◌-◌, ◌*◌, ◌^◌, leb, min, length,
}
use stellar_rwa_contracts.Base.Dict.{Dict, lookup}
use stellar_rwa_contracts.Base.Slices.{
  drop, take, take_all, drop_all, length-drop, take_add, take_same, take_nothing,
}
use stellar_rwa_contracts.Registry.State.{AssetEntry, max_page_size}
use stellar_rwa_contracts.Registry.Pages.{
  fetch, fetch_assets_page, get_page, push_front, saturating,
}

push_front-++ :
    (o : Option AssetEntry) (xs ys : List AssetEntry)
    → push_front o (xs ++ ys) ≡ push_front o xs ++ ys
push_front-++ none xs ys = refl
push_front-++ (some e) xs ys = refl

fetch-++ :
    (assets : Dict AssetEntry) (xs ys : List ℕ)
    → fetch assets (xs ++ ys) ≡ fetch assets xs ++ fetch assets ys
unfolding fetch
fetch-++ assets [] ys = refl
fetch-++ assets (x ∷ xs) ys =
    ap (push_front (lookup x assets)) (fetch-++ assets xs ys)
    ∙ push_front-++ (lookup x assets) (fetch assets xs) (fetch assets ys)

-- The end of a page, less its start.
page_length :
    (len offset limit : ℕ)
    → len < 2 ^ 32
    → offset < len
    → (min len (saturating 32 (offset + limit)) - offset ≡ limit)
      ⊎ ((len - offset ≤ min len (saturating 32 (offset + limit)) - offset)
          × (len - offset ≤ limit))
page_length len offset limit h k = ground arith

page_end :
    (ids : List ℕ) (offset limit : ℕ)
    → length ids < 2 ^ 32
    → offset < length ids
    → take (min (length ids) (saturating 32 (offset + limit)) - offset) (drop offset ids)
      ≡ take limit (drop offset ids)
page_end ids offset limit h k = take_same _ limit (drop offset ids) (
    subst
      (λ n.
        (min (length ids) (saturating 32 (offset + limit)) - offset ≡ limit)
        ⊎ ((n ≤ min (length ids) (saturating 32 (offset + limit)) - offset) × (n ≤ limit)))
      (sym (length-drop offset ids)) (page_length (length ids) offset limit h k))

saturating_small : (n m : ℕ) → n < m → m < 2 ^ 32 → saturating 32 n ≡ n
saturating_small n m h k = omega arith

-- A page is the part of the index that it says.
page-take :
    (assets : Dict AssetEntry) (ids : List ℕ) (offset limit : ℕ)
    → length ids < 2 ^ 32
    → fetch_assets_page assets ids (saturating 32 offset) limit
      ≡ fetch assets (take limit (drop offset ids))
unfolding fetch_assets_page take fetch
page-take assets ids offset limit h = elim (Bool-cases (leb (length ids) offset)) [
  | inl e ↦
      let past : length ids ≤ offset = ground arith in
      rw (drop_all offset ids past) (rw (take_nothing limit) (ground arith))
  | inr e ↦
      let inside : offset < length ids = ground arith in
      rw (saturating_small offset (length ids) inside h)
        (ground (arith, ap (fetch assets) (page_end ids offset limit h inside)))
]

-- The first pages of an index, one after the other.
unfoldable pub pages : Dict AssetEntry → List ℕ → ℕ → ℕ → List AssetEntry
pages assets ids size zero = []
pages assets ids size (suc n) = pages assets ids size n ++ get_page assets ids n size

suc_mul : (n z : ℕ) → suc n * z ≡ n * z + z
suc_mul n z = grind arith

pages-take :
    (assets : Dict AssetEntry) (ids : List ℕ) (size n : ℕ)
    → length ids < 2 ^ 32
    → size ≤ max_page_size
    → pages assets ids size n ≡ fetch assets (take (n * size) ids)
unfolding pages get_page fetch take
pages-take assets ids size zero h k = rw (zero-mul size) refl
pages-take assets ids size (suc n) h k =
    let capped : min size max_page_size ≡ size = omega arith in
    let page : get_page assets ids n size ≡ fetch assets (take size (drop (n * size) ids)) =
      rw capped (page-take assets ids (n * size) size h) in
    rw (pages-take assets ids size n h k) (
      rw page (
        sym (fetch-++ assets (take (n * size) ids) (take size (drop (n * size) ids)))
        ∙ ap (fetch assets) (sym (take_add (n * size) size ids))
        ∙ ap (λ m. fetch assets (take m ids)) (sym (suc_mul n size))))

-- For an index whose length is a `u32` and a page size of at most 100: once the first `n` pages
-- have room for the whole index, they are, one after the other, the stored entries of all its ids
-- in order.
pub pages-fetch :
    (assets : Dict AssetEntry) (ids : List ℕ) (size n : ℕ)
    → length ids < 2 ^ 32
    → size ≤ max_page_size
    → length ids ≤ n * size
    → pages assets ids size n ≡ fetch assets ids
pages-fetch assets ids size n h k l =
    pages-take assets ids size n h k ∙ ap (fetch assets) (take_all (n * size) ids l)
