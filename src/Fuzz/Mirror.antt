-- ===== src/Fuzz/Mirror.antt =====
-- fuzz/fuzz_targets/asset_token_transfer_batch.rs. An array is a function of the index. In the
-- results of `transfer_batch`, `error` is an `Err`, and `trap` is the panic of an overflow.
use stellar_rwa_contracts.Base.{ℕ, ◌-◌, ◌/◌, ◌^◌, Bool, not, List, [], ◌∷◌, ◌==◌, if◌then◌else◌}
use stellar_rwa_contracts.Base.Int.{ℤ, pos, negsuc, leb_ℤ, ltb_ℤ, checked_add, checked_sub}
use stellar_rwa_contracts.Base.Host.{Result, ◌>>=◌, ◌>>◌, ok, panic_if, or_panic, or_trap}

abbrev pub accounts : ℕ
accounts = 8

abbrev pub max_entries : ℕ
max_entries = 16

abbrev pub balance_cap : ℕ
balance_cap = (2 ^ 127 - 1) / accounts

pub data Error : Type 0 where
  paused sender_not_compliant recipient_not_compliant : Error
  invalid_amount insufficient_balance overflow : Error

pub data EdgeAmount : Type 0 where
  zero one minus_one min max : EdgeAmount
  raw : ℤ → EdgeAmount

abbrev pub value : EdgeAmount → ℤ
value EdgeAmount.zero = pos 0
value EdgeAmount.one = pos 1
value EdgeAmount.minus_one = negsuc 0
value EdgeAmount.min = negsuc (2 ^ 127 - 1)
value EdgeAmount.max = pos (2 ^ 127 - 1)
value (EdgeAmount.raw v) = v

pub record Entry : Type 0 where
  pub to : ℕ
  pub amount : EdgeAmount

pub record Input : Type 0 where
  pub paused : Bool
  pub compliant : ℕ → Bool
  pub balances : ℕ → ℕ
  pub from : ℕ
  pub transfers : List Entry

pub record Ledger : Type 0 where
  pub balances : ℕ → ℤ
  pub compliant : ℕ → Bool
  pub paused : Bool

-- `array[i] = v`
abbrev pub set_at : ℕ → ℤ → (ℕ → ℤ) → ℕ → ℤ
set_at i v f j = if i == j then v else f j

-- The end of the loop's body, where the recipient is not the sender.
unfoldable pub move_amount : ℕ → ℕ → ℤ → Ledger → Result Error Ledger
move_amount from to amount next = do
  new_to ← or_panic (checked_add (next.balances to) amount) Error.overflow
  new_from ← or_trap (checked_sub (next.balances from) amount)
  ok (record next { balances = set_at to new_to (set_at from new_from next.balances) })

-- The body of the loop, for one entry.
unfoldable pub transfer_one : Ledger → ℕ → ℕ × ℤ → Ledger → Result Error Ledger
unfolding move_amount
transfer_one ledger from (to, amount) next = do
  panic_if (leb_ℤ amount (pos 0)) Error.invalid_amount
  panic_if (not (ledger.compliant to)) Error.recipient_not_compliant
  panic_if (ltb_ℤ (next.balances from) amount) Error.insufficient_balance
  (if from == to then ok next else move_amount from to amount next)

unfoldable pub transfer_all : Ledger → ℕ → List (ℕ × ℤ) → Ledger → Result Error Ledger
unfolding transfer_one
transfer_all ledger from [] next = ok next
transfer_all ledger from (e ∷ es) next = do
  next ← transfer_one ledger from e next
  transfer_all ledger from es next

unfoldable pub transfer_batch : Ledger → ℕ → List (ℕ × ℤ) → Result Error Ledger
unfolding transfer_all
transfer_batch ledger from transfers = do
  panic_if ledger.paused Error.paused
  panic_if (not (ledger.compliant from)) Error.sender_not_compliant
  transfer_all ledger from transfers ledger
