-- ===== src/Fuzz/ArithmeticRuns.antt =====
-- fuzz/fuzz_targets/dividend_arithmetic.rs: whether its assertions hold.
use native.Mathlib.Nat.{mul-le-mul_left}
use stellar_rwa_contracts.Base.{
  ℕ, zero, suc, max, ◌≡◌, refl, ap, ◌∙◌, ◌+◌, ◌*◌, ◌^◌, ◌<◌, ◌≤◌, false, some, List, [], ◌∷◌, arith,
  inl, inr, Bool-cases, ltb, length,
}
use stellar_rwa_contracts.Base.Int.{
  ℤ, pos, pos_part, ◌+ℤ◌, ◌*ℤ◌, ◌/ℤ◌, ◌-ℤ◌, leb_ℤ, checked_add, checked_sub, checked_mul,
}
use stellar_rwa_contracts.Base.Host.{ok}
use stellar_rwa_contracts.Dividend.State.{Snapshot}
use stellar_rwa_contracts.Dividend.Shares.{
  floor_share, total_balance, shares_of, everyone, shares-le-total, total-lt-shares,
}
use stellar_rwa_contracts.Fuzz.Arithmetic.{
  Holder, Input, positive_balances, take, sum, pay, check_paid, check_holders, fuzz_one,
}

-- The balances as a snapshot.
abbrev seats : List ℤ → Snapshot
seats [] = []
seats (b ∷ bs) = (0, b) ∷ seats bs

-- Each balance is positive and a `u16`.
abbrev AllSmall : List ℤ → Type 0
AllSmall [] = Unit
AllSmall (b ∷ bs) = ((n : ℕ) × (b ≡ pos n) × (0 < n) × (n < 2 ^ 16)) × AllSmall bs

abbrev pub AllU16 : List Holder → Type 0
AllU16 [] = Unit
AllU16 (h ∷ hs) = (h.balance < 2 ^ 16) × AllU16 hs

positive_balances-AllSmall : (hs : List Holder) → AllU16 hs → AllSmall (positive_balances hs)
unfolding positive_balances
positive_balances-AllSmall [] u = tt
positive_balances-AllSmall (h ∷ hs) (lt, u) =
    let rest = positive_balances-AllSmall hs u in
    elim (Bool-cases (ltb 0 h.balance)) [
      | inl p ↦ rw p ((h.balance, refl, ground (arith, p), lt), rest)
      | inr p ↦ rw p rest
    ]

take-AllSmall : (n : ℕ) (bs : List ℤ) → AllSmall bs → AllSmall (take n bs)
unfolding take
take-AllSmall zero bs u = tt
take-AllSmall (suc n) [] u = tt
take-AllSmall (suc n) (b ∷ bs) (v, u) = (v, take-AllSmall n bs u)

length-take : (n : ℕ) (bs : List ℤ) → length (take n bs) ≤ n
unfolding take
length-take zero bs = ground arith
length-take (suc n) [] = ground arith
length-take (suc n) (b ∷ bs) = ground (arith, length-take n bs)

add_exact : (t n : ℕ) → t + n < 2 ^ 127 → checked_add (pos t) (pos n) ≡ some (pos (t + n))
unfolding checked_add ◌+ℤ◌
add_exact t n lt = ground arith

mul_exact : (t n : ℕ) → t < 2 ^ 32 → n < 2 ^ 16 → checked_mul (pos t) (pos n) ≡ some (pos (t * n))
unfolding checked_mul ◌*ℤ◌
mul_exact t n lt u =
    let le : t * n ≤ t * 2 ^ 16 = mul-le-mul_left t (omega arith) in
    let fits : t * n < 2 ^ 127 = omega (arith, le) in ground (arith, fits)

sum-total :
    (bs : List ℤ) (t : ℕ)
    → AllSmall bs
    → t + length bs * 2 ^ 16 < 2 ^ 127
    → (sum bs (pos t) ≡ some (pos (t + total_balance (seats bs))))
      × (length bs ≤ total_balance (seats bs))
unfolding sum
sum-total [] t u lt = (ap (λ n. some (pos n)) (omega arith), ground arith)
sum-total (b ∷ bs) t ((n, e, p, q), u) lt =
    let (s, le) = sum-total bs (t + n) u (ground arith) in
    let head = ap pos_part e in
    (
      rw e (rw (add_exact t n (ground arith)) (s ∙ ap (λ m. some (pos m)) (omega (arith, head)))),
      ground (arith, le, head),
    )

pay-shares :
    (t s : ℕ) (bs : List ℤ) (paid : ℕ)
    → AllSmall bs
    → t < 2 ^ 32
    → paid + shares_of everyone t s (seats bs) < 2 ^ 127
    → pay (pos t) (pos s) bs (pos paid) ≡ ok (pos (paid + shares_of everyone t s (seats bs)))
unfolding pay ◌/ℤ◌
pay-shares t s [] paid u lt le = ap (λ n. ok (pos n)) (omega arith)
pay-shares t s (b ∷ bs) paid ((n, e, p, q), u) lt le =
    let head : pos_part b ≡ n = ap pos_part e in
    let share = floor_share t n s in
    let same_share : floor_share t (pos_part b) s ≡ share = ap (λ m. floor_share t m s) head in
    let rest = pay-shares t s bs (paid + share) u lt (omega (arith, same_share)) in
    rw e (
      rw (pay, mul_exact t n lt q)
        (rw (add_exact paid share (omega (arith, same_share)))
          (rest ∙ ap (λ m. ok (pos m)) (omega (arith, same_share)))))

length-seats : (bs : List ℤ) → length (seats bs) ≡ length bs
length-seats [] = refl
length-seats (b ∷ bs) = ap suc (length-seats bs)

not_zero : (s : ℕ) → 0 < s → leb_ℤ (pos s) (pos 0) ≡ false
not_zero s p = ground arith

check_paid-passes :
    (t n paid : ℕ)
    → t < 2 ^ 32
    → paid ≤ t
    → t < paid + n
    → check_paid (pos t) n (pos paid) ≡ some tt
unfolding check_paid checked_sub ◌-ℤ◌
check_paid-passes t n paid lt le gt = ground arith

check_holders-passes :
    (t : ℕ) (bs : List ℤ)
    → t < 2 ^ 32
    → length bs ≤ 64
    → AllSmall bs
    → check_holders (pos t) bs ≡ some tt
unfolding check_holders
check_holders-passes t [] lt le u = refl
check_holders-passes t (b ∷ bs) lt le u =
    let s = total_balance (seats (b ∷ bs)) in
    let es = seats (b ∷ bs) in
    let (e, many) = sum-total (b ∷ bs) 0 u (omega (arith, le)) in
    let supply : sum (b ∷ bs) (pos 0) ≡ some (pos s) = e ∙ ap (λ m. some (pos m)) (omega arith) in
    let positive : 0 < s = omega (arith, many) in
    let most = shares-le-total everyone t s es positive refl in
    let least = total-lt-shares t s es positive (omega arith) refl in
    let paid : pay (pos t) (pos s) (b ∷ bs) (pos 0) ≡ ok (pos (shares_of everyone t s es)) =
      pay-shares t s (b ∷ bs) 0 u lt (omega (arith, most)) ∙ ap (λ m. ok (pos m)) (omega arith) in
    rw supply (
      rw (not_zero s positive) (
        rw paid (
          check_paid-passes t (length (b ∷ bs)) (shares_of everyone t s es) lt most
            (omega (arith, least, length-seats (b ∷ bs))))))

-- For every drawn `u32` total and `u16` balances no assertion fails and no sum overflows: what is
-- paid to the first 64 holders of a positive balance, each the total times the balance divided by the sum
-- of the balances, is at most the total, and the rest is less than one unit for each of them.
pub arithmetic-passes :
    (input : Input)
    → input.total_amount_raw < 2 ^ 32
    → AllU16 input.holders
    → fuzz_one input ≡ some tt
unfolding fuzz_one
arithmetic-passes input lt u =
    let bs = positive_balances input.holders in
    check_holders-passes (max input.total_amount_raw 1) (take 64 bs) (omega arith)
      (length-take 64 bs) (take-AllSmall 64 bs (positive_balances-AllSmall input.holders u))
