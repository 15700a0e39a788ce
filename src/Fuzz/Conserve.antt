-- ===== src/Fuzz/Conserve.antt =====
-- fuzz/fuzz_targets/asset_token_transfer_batch.rs, `check_one`: `none` is a panic. `input.from` and
-- `e.to` are any numbers, since only their remainders are used.
use stellar_rwa_contracts.Base.{
  ℕ, zero, suc, ◌%◌, Bool, true, not, ◌&&◌, Option, none, some, List, [], ◌∷◌, ◌==◌, if◌then◌else◌,
}
use stellar_rwa_contracts.Base.Int.{ℤ, pos, leb_ℤ, ltb_ℤ, checked_add}
use stellar_rwa_contracts.Base.Host.{Result, ok, err, error, trap}
use stellar_rwa_contracts.Fuzz.Harness.{◌>>=◌, ◌>>◌, assert}
use stellar_rwa_contracts.Fuzz.Mirror.{
  accounts, max_entries, balance_cap, Error, value, Entry, Input, Ledger, transfer_batch,
}

abbrev pub ledger_of : Input → Ledger
ledger_of input = record {
  balances = λ i. pos (input.balances i % balance_cap);
  compliant = input.compliant;
  paused = input.paused;
}

-- The first `n` entries.
unfoldable pub transfers_of : ℕ → List Entry → List (ℕ × ℤ)
transfers_of zero es = []
transfers_of (suc n) [] = []
transfers_of (suc n) (e ∷ es) = (e.to % accounts, value e.amount) ∷ transfers_of n es

unfoldable pub all_positive : List (ℕ × ℤ) → Bool
all_positive [] = true
all_positive ((_, amount) ∷ es) = ltb_ℤ (pos 0) amount && all_positive es

unfoldable pub all_compliant : Ledger → List (ℕ × ℤ) → Bool
all_compliant ledger [] = true
all_compliant ledger ((to, _) ∷ es) = ledger.compliant to && all_compliant ledger es

unfoldable pub all_to : ℕ → List (ℕ × ℤ) → Bool
all_to from [] = true
all_to from ((to, _) ∷ es) = to == from && all_to from es

-- `n` items of the array, from the index `i` on.
unfoldable pub all_non_negative : ℕ → ℕ → (ℕ → ℤ) → Bool
all_non_negative zero i f = true
all_non_negative (suc n) i f = leb_ℤ (pos 0) (f i) && all_non_negative n (suc i) f

-- `sum` of `n` items, from the index `i` on, added to `total`; an overflow panics.
unfoldable pub sum_from : ℕ → ℕ → (ℕ → ℤ) → ℤ → Option ℤ
sum_from zero i f total = some total
sum_from (suc n) i f total = checked_add total (f i) >>= sum_from n (suc i) f

abbrev pub eq_ℤ : ℤ → ℤ → Bool
eq_ℤ a b = leb_ℤ a b && leb_ℤ b a

unfoldable pub same_items : ℕ → ℕ → (ℕ → ℤ) → (ℕ → ℤ) → Bool
same_items zero i f g = true
same_items (suc n) i f g = eq_ℤ (f i) (g i) && same_items n (suc i) f g

-- What is asserted after a batch that succeeded.
unfoldable pub check_after : ℕ → List (ℕ × ℤ) → Ledger → Ledger → Option (Unit {0})
unfolding all_positive all_compliant all_to all_non_negative sum_from same_items
check_after from transfers ledger after = do
  assert (not ledger.paused)
  assert (all_positive transfers)
  assert (all_compliant ledger transfers)
  assert (all_non_negative accounts 0 after.balances)
  supply_before ← sum_from accounts 0 ledger.balances (pos 0)
  supply_after ← sum_from accounts 0 after.balances (pos 0)
  assert (eq_ℤ supply_before supply_after)
  (if all_to from transfers
      then assert (same_items accounts 0 after.balances ledger.balances)
      else some tt)

abbrev pub check_result : ℕ → List (ℕ × ℤ) → Ledger → Result Error Ledger → Option (Unit {0})
check_result from transfers ledger (ok after) = check_after from transfers ledger after
check_result from transfers ledger (err (error _)) = some tt
check_result from transfers ledger (err trap) = none

unfoldable pub check_one : Input → Option (Unit {0})
unfolding check_after transfer_batch transfers_of
check_one input =
    let from = input.from % accounts in
    let ledger = ledger_of input in
    let transfers = transfers_of max_entries input.transfers in
    check_result from transfers ledger (transfer_batch ledger from transfers)
