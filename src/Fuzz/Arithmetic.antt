-- ===== src/Fuzz/Arithmetic.antt =====
-- fuzz/fuzz_targets/dividend_arithmetic.rs. `none` is a panic; in the loop, `error tt` is the
-- target's early `return` and `trap` is a panic.
use stellar_rwa_contracts.Base.{
  ℕ, zero, suc, max, Option, none, some, List, [], ◌∷◌, ltb, length, if◌then◌else◌,
}
use stellar_rwa_contracts.Base.Int.{
  ℤ, pos, ◌/ℤ◌, leb_ℤ, ltb_ℤ, checked_add, checked_sub, checked_mul,
}
use stellar_rwa_contracts.Base.Host.{Result, ok, err, error, trap}
use stellar_rwa_contracts.Fuzz.Harness.{◌>>=◌, ◌>>◌, assert}

pub record Holder : Type 0 where
  pub balance : ℕ

pub record Input : Type 0 where
  pub total_amount_raw : ℕ
  pub holders : List Holder

-- `filter` and `map`.
unfoldable pub positive_balances : List Holder → List ℤ
positive_balances [] = []
positive_balances (h ∷ hs) =
    let rest = positive_balances hs in if ltb 0 h.balance then pos h.balance ∷ rest else rest

unfoldable pub take : ℕ → List ℤ → List ℤ
take zero bs = []
take (suc n) [] = []
take (suc n) (b ∷ bs) = b ∷ take n bs

-- `sum`, added to `total`; an overflow panics.
unfoldable pub sum : List ℤ → ℤ → Option ℤ
sum [] total = some total
sum (b ∷ bs) total = checked_add total b >>= sum bs

-- The loop over the holders.
unfoldable pub pay : ℤ → ℤ → List ℤ → ℤ → Result (Unit {0}) ℤ
pay total_amount supply [] total_paid = ok total_paid
pay total_amount supply (balance ∷ bs) total_paid = elim (checked_mul total_amount balance) [
  | none ↦ err (error tt)
  | some product ↦ elim (checked_add total_paid (product /ℤ supply)) [
    | none ↦ err trap
    | some paid ↦ pay total_amount supply bs paid
  ]
]

-- The two invariants, for `n` holders.
unfoldable pub check_paid : ℤ → ℕ → ℤ → Option (Unit {0})
check_paid total_amount n total_paid = do
  assert (leb_ℤ total_paid total_amount)
  dust ← checked_sub total_amount total_paid
  assert (leb_ℤ (pos 0) dust)
  assert (ltb_ℤ dust (pos n))

abbrev pub check_loop : ℤ → ℕ → Result (Unit {0}) ℤ → Option (Unit {0})
check_loop total_amount n (ok total_paid) = check_paid total_amount n total_paid
check_loop total_amount n (err (error _)) = some tt
check_loop total_amount n (err trap) = none

unfoldable pub check_holders : ℤ → List ℤ → Option (Unit {0})
unfolding sum pay check_paid
check_holders total_amount [] = some tt
check_holders total_amount (b ∷ bs) = do
  supply ← sum (b ∷ bs) (pos 0)
  (if leb_ℤ supply (pos 0)
      then some tt
      else check_loop total_amount (length (b ∷ bs)) (pay total_amount supply (b ∷ bs) (pos 0)))

unfoldable pub fuzz_one : Input → Option (Unit {0})
unfolding check_holders positive_balances take
fuzz_one input =
    check_holders (pos (max input.total_amount_raw 1)) (take 64 (positive_balances input.holders))
