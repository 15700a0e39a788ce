-- ===== src/Fuzz/MirrorRuns.antt =====
-- fuzz/fuzz_targets/asset_token_transfer_batch.rs: whether its assertions hold.
use stellar_rwa_contracts.Base.{
  ℕ, ◌-◌, zero, suc, ◌≡◌, refl, ap, ◌∙◌, ◌*◌, ◌%◌, ◌^◌, ◌<◌, ◌≤◌, true, false, some, List, [], ◌∷◌,
  arith, inl, inr, Bool-cases, if◌then◌else◌,
}
use stellar_rwa_contracts.Base.Int.{ℤ, pos, pos_part}
use stellar_rwa_contracts.Base.Host.{Result, ok, err, error, trap}
use stellar_rwa_contracts.Fuzz.Harness.{assert}
use stellar_rwa_contracts.Fuzz.Mirror.{
  accounts, max_entries, balance_cap, Error, Entry, Input, Ledger, transfer_all, transfer_batch,
}
use stellar_rwa_contracts.Fuzz.Conserve.{
  ledger_of, transfers_of, all_positive, all_compliant, all_to, sum_from, same_items, check_after,
  check_result, check_one,
}
use stellar_rwa_contracts.Fuzz.Sums.{total, sum_from-total, all_non_negative-holds, same_items_refl}
use stellar_rwa_contracts.Fuzz.MirrorSteps.{
  Steady, amounts, AfterAll, AllBelow, transfer_all-AfterAll,
}

check_after-passes :
    (t from : ℕ) (es : List (ℕ × ℤ)) (l l' : Ledger)
    → t < 2 ^ 127
    → l.paused ≡ false
    → Steady t l
    → AfterAll t l from es l (ok l')
    → check_after from es l l' ≡ some tt
unfolding check_after
check_after-passes t from es l l' lt u v (w, p, c, e) =
    let before : sum_from accounts 0 l.balances (pos 0) ≡ some (pos t) =
      sum_from-total accounts 0 l.balances 0 v.non_negative (omega (arith, v.sum_is))
      ∙ ap (λ n. some (pos n)) (omega (arith, v.sum_is)) in
    let later : sum_from accounts 0 l'.balances (pos 0) ≡ some (pos t) =
      sum_from-total accounts 0 l'.balances 0 w.non_negative (omega (arith, w.sum_is))
      ∙ ap (λ n. some (pos n)) (omega (arith, w.sum_is)) in
    let end_ : (if all_to from es
          then assert (same_items accounts 0 l'.balances l.balances)
          else some tt)
        ≡ some tt =
      elim (Bool-cases (all_to from es)) [
        | inl q ↦ rw q (
            ap assert (
              ap (λ (m : Ledger). same_items accounts 0 m.balances l.balances) (e q)
              ∙ same_items_refl accounts 0 l.balances))
        | inr q ↦ rw q refl
      ] in
    rw u (
      rw p (
        rw c (
          rw (all_non_negative-holds accounts 0 l'.balances w.non_negative)
            (rw before (rw later (rw end_ (ground arith)))))))

check_result-passes :
    (t from : ℕ) (es : List (ℕ × ℤ)) (l : Ledger) (r : Result Error Ledger)
    → t < 2 ^ 127
    → l.paused ≡ false
    → Steady t l
    → AfterAll t l from es l r
    → check_result from es l r ≡ some tt
check_result-passes t from es l (ok l') lt u v h = check_after-passes t from es l l' lt u v h
check_result-passes t from es l (err (error _)) lt u v h = refl
check_result-passes t from es l (err trap) lt u v h = absurd h

-- The reason that an error of the target's `transfer_batch` has. It has none for an overflow.
abbrev pub Explained : Ledger → ℕ → List (ℕ × ℤ) → Result Error Ledger → Type 0
Explained l from es (ok _) = (l.paused ≡ false) × (l.compliant from ≡ true)
Explained l from es (err (error Error.paused)) = l.paused ≡ true
Explained l from es (err (error Error.sender_not_compliant)) = l.compliant from ≡ false
Explained l from es (err (error Error.invalid_amount)) = all_positive es ≡ false
Explained l from es (err (error Error.recipient_not_compliant)) = all_compliant l es ≡ false
Explained l from es (err (error Error.insufficient_balance)) =
    pos_part (l.balances from) < amounts es
Explained l from es (err (error Error.overflow)) = ⊥
Explained l from es (err trap) = ⊥

AfterAll-Explained :
    (t from : ℕ) (es : List (ℕ × ℤ)) (l : Ledger) (r : Result Error Ledger)
    → l.paused ≡ false
    → l.compliant from ≡ true
    → AfterAll t l from es l r
    → Explained l from es r
AfterAll-Explained t from es l (ok _) p c h = (p, c)
AfterAll-Explained t from es l (err (error Error.invalid_amount)) p c h = h
AfterAll-Explained t from es l (err (error Error.recipient_not_compliant)) p c h = h
AfterAll-Explained t from es l (err (error Error.insufficient_balance)) p c h = h
AfterAll-Explained t from es l (err (error Error.paused)) p c h = absurd h
AfterAll-Explained t from es l (err (error Error.sender_not_compliant)) p c h = absurd h
AfterAll-Explained t from es l (err (error Error.overflow)) p c h = h
AfterAll-Explained t from es l (err trap) p c h = h

check_batch-passes :
    (t from : ℕ) (es : List (ℕ × ℤ)) (l : Ledger)
    → t < 2 ^ 127
    → from < accounts
    → AllBelow es
    → Steady t l
    → (check_result from es l (transfer_batch l from es) ≡ some tt)
      × Explained l from es (transfer_batch l from es)
unfolding transfer_batch
check_batch-passes t from es l lt fb bs v = elim (Bool-cases l.paused) [
  | inl p ↦ simp (p) (refl, refl)
  | inr p ↦ elim (Bool-cases (l.compliant from)) [
    | inl c ↦
        let after_all = transfer_all-AfterAll t l from es l lt fb bs v in
        simp (p, c)
          (
            check_result-passes t from es l (transfer_all l from es l) lt p v after_all,
            AfterAll-Explained t from es l (transfer_all l from es l) p c after_all,
          )
    | inr c ↦ simp (p, c) (refl, refl)
  ]
]

total-bound : (n i : ℕ) (f : ℕ → ℤ) (c : ℕ) → ((j : ℕ) → pos_part (f j) ≤ c) → total n i f ≤ n * c
total-bound zero i f c h = omega arith
total-bound (suc n) i f c h = omega (arith, h i, total-bound n (suc i) f c h)

transfers_of-AllBelow : (n : ℕ) (es : List Entry) → AllBelow (transfers_of n es)
unfolding transfers_of
transfers_of-AllBelow zero es = tt
transfers_of-AllBelow (suc n) [] = tt
transfers_of-AllBelow (suc n) (e ∷ es) = (omega arith, transfers_of-AllBelow n es)

-- What the target draws: the sender and the entries of the batch.
abbrev pub sender : Input → ℕ
sender input = input.from % accounts

abbrev pub batch : Input → List (ℕ × ℤ)
batch input = transfers_of max_entries input.transfers

-- Whatever batch, balances and flags the target draws, no assertion of it fails: if its copy of
-- `transfer_batch` accepts the batch, the token was not paused, every amount is positive, every
-- recipient is compliant, no balance is negative, the sums of the balances do not overflow and are
-- the same, and a batch of transfers to the sender changes no balance. And the copy never fails by
-- an overflow, by its error or by a panic: if it accepts, the token is not paused and the sender
-- is compliant, and if it refuses, the reason of its error holds: the token is paused, the sender
-- is not compliant, some amount is not positive, some recipient is not compliant, or the sender
-- has less than the sum of the amounts.
pub check_one-passes :
    (input : Input)
    → (check_one input ≡ some tt)
      × Explained
          (ledger_of input)
          (sender input)
          (batch input)
          (transfer_batch (ledger_of input) (sender input) (batch input))
unfolding check_one
check_one-passes input =
    let from = input.from % accounts in
    let l = ledger_of input in
    let es = transfers_of max_entries input.transfers in
    let t = total accounts 0 l.balances in
    let lt : t < 2 ^ 127 =
      omega (arith, total-bound accounts 0 l.balances (balance_cap - 1) (λ j. omega arith)) in
    let v : Steady t l = record { non_negative = λ i. omega arith; sum_is = refl } in
    check_batch-passes t from es l lt (omega arith)
      (transfers_of-AllBelow max_entries input.transfers) v
