-- ===== src/Fuzz/Sums.antt =====
-- fuzz/fuzz_targets/asset_token_transfer_batch.rs: the sums of its arrays.
use stellar_rwa_contracts.Base.{
  ℕ, zero, suc, ◌≡◌, refl, ap, ◌∙◌, ◌+◌, ◌^◌, ◌<◌, ◌≤◌, true, some, arith, inl, inr, Bool-cases,
  ◌==◌,
}
use stellar_rwa_contracts.Base.Int.{ℤ, pos, pos_part, ◌+ℤ◌, ◌≤ℤ◌, checked_add}
use stellar_rwa_contracts.Fuzz.Mirror.{set_at}
use stellar_rwa_contracts.Fuzz.Conserve.{all_non_negative, sum_from, same_items}

abbrev pub NonNegative : (ℕ → ℤ) → Type 0
NonNegative f = (i : ℕ) → pos 0 ≤ℤ f i

-- The sum of `n` items from the index `i` on.
abbrev pub total : ℕ → ℕ → (ℕ → ℤ) → ℕ
total zero i f = 0
total (suc n) i f = pos_part (f i) + total n (suc i) f

pub sum_from-total :
    (n i : ℕ) (f : ℕ → ℤ) (t : ℕ)
    → NonNegative f
    → t + total n i f < 2 ^ 127
    → sum_from n i f (pos t) ≡ some (pos (t + total n i f))
unfolding sum_from checked_add ◌+ℤ◌
sum_from-total zero i f t p lt = ground arith
sum_from-total (suc n) i f t p lt =
    let step : checked_add (pos t) (f i) ≡ some (pos (t + pos_part (f i))) = ground (arith, p i) in
    rw step (
      sum_from-total n (suc i) f (t + pos_part (f i)) p (omega arith)
      ∙ ap (λ m. some (pos m)) (omega arith))

total-below : (n i j : ℕ) (v : ℤ) (f : ℕ → ℤ) → j < i → total n i (set_at j v f) ≡ total n i f
total-below zero i j v f lt = refl
total-below (suc n) i j v f lt = ground (arith, total-below n (suc i) j v f)

eq_of_test : (j i : ℕ) → j == i ≡ true → j ≡ i
eq_of_test j i q = ground arith

pub total-set :
    (n i j : ℕ) (v : ℤ) (f : ℕ → ℤ)
    → i ≤ j
    → j < i + n
    → total n i (set_at j v f) + pos_part (f j) ≡ total n i f + pos_part v
total-set zero i j v f le lt = absurd (omega arith)
total-set (suc n) i j v f le lt = elim (Bool-cases (j == i)) [
  | inl q ↦ ground (arith, total-below n (suc i) j v f, ap f (eq_of_test j i q))
  | inr q ↦ ground (arith, total-set n (suc i) j v f)
]

pub item-le-total : (n i j : ℕ) (f : ℕ → ℤ) → i ≤ j → j < i + n → pos_part (f j) ≤ total n i f
item-le-total zero i j f le lt = absurd (omega arith)
item-le-total (suc n) i j f le lt = elim (Bool-cases (j == i)) [
  | inl q ↦ ground (arith, ap f (eq_of_test j i q))
  | inr q ↦ ground (arith, item-le-total n (suc i) j f)
]

pub all_non_negative-holds : (n i : ℕ) (f : ℕ → ℤ) → NonNegative f → all_non_negative n i f ≡ true
unfolding all_non_negative
all_non_negative-holds zero i f p = refl
all_non_negative-holds (suc n) i f p = ground (arith, p i, all_non_negative-holds n (suc i) f p)

pub same_items_refl : (n i : ℕ) (f : ℕ → ℤ) → same_items n i f f ≡ true
unfolding same_items
same_items_refl zero i f = refl
same_items_refl (suc n) i f = ground (arith, same_items_refl n (suc i) f)
