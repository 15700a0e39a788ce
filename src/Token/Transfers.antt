-- ===== src/Token/Transfers.antt =====
-- contracts/asset-token/src/lib.rs, `transfer` and `transfer_batch`.
use stellar_rwa_contracts.Base.{not, List, [], ◌∷◌, ◌==◌, if◌then◌else◌}
use stellar_rwa_contracts.Base.Int.{ℤ, ltb_ℤ, checked_add, checked_sub}
use stellar_rwa_contracts.Base.Host.{
  Address, ◌>>=◌, ◌>>◌, ok, panic_if, or_panic, or_trap, require_auth,
}
use stellar_rwa_contracts.Token.State.{
  Env, Token, Event, Outcome, publish, metadata, compliant, check_amount, balance, set_balance,
  is_paused, sender_not_compliant, recipient_not_compliant, insufficient_balance, overflow,
}

-- The end of `transfer` where the two parties differ: the debit, then the credit.
unfoldable pub move_balance : Address → Address → ℤ → ℤ → Token → Outcome
unfolding balance set_balance
move_balance from to amount from_bal s = do
  let to_bal = balance s to
  new_from_bal ← or_trap (checked_sub from_bal amount)
  let s = set_balance from new_from_bal s
  new_to_bal ← or_panic (checked_add to_bal amount) overflow
  let s = set_balance to new_to_bal s
  ok (publish (Event.transfer from to amount new_from_bal new_to_bal) s)

-- From the balance check on, `transfer` and an entry of `transfer_batch` are alike.
unfoldable pub settle : Address → Address → ℤ → Token → Outcome
unfolding balance
settle from to amount s = do
  let from_bal = balance s from
  panic_if (ltb_ℤ from_bal amount) insufficient_balance
  (if from == to
      then ok (publish (Event.transfer from to amount from_bal from_bal) s)
      else move_balance from to amount from_bal s)

unfoldable pub transfer : Env → Address → Address → ℤ → Token → Outcome
unfolding metadata compliant check_amount
transfer env from to amount s = do
  require_auth env.authorized from
  check_amount amount
  meta ← metadata s
  panic_if meta.paused is_paused
  sender_ok ← compliant env meta.compliance_contract from
  panic_if (not sender_ok) sender_not_compliant
  recipient_ok ← compliant env meta.compliance_contract to
  panic_if (not recipient_ok) recipient_not_compliant
  settle from to amount s

-- The body of the loop of `transfer_batch`; `compliance` is the gate read before the loop.
unfoldable pub transfer_entry : Env → Address → Address → Address × ℤ → Token → Outcome
unfolding compliant check_amount
transfer_entry env compliance from (to, amount) s = do
  check_amount amount
  recipient_ok ← compliant env compliance to
  panic_if (not recipient_ok) recipient_not_compliant
  settle from to amount s

unfoldable pub transfer_entries : Env → Address → Address → List (Address × ℤ) → Token → Outcome
transfer_entries env compliance from [] s = ok s
transfer_entries env compliance from (e ∷ es) s =
    transfer_entry env compliance from e s >>= λ s'. transfer_entries env compliance from es s'

unfoldable pub transfer_batch : Env → Address → List (Address × ℤ) → Token → Outcome
unfolding metadata compliant
transfer_batch env from transfers s = do
  require_auth env.authorized from
  meta ← metadata s
  panic_if meta.paused is_paused
  sender_ok ← compliant env meta.compliance_contract from
  panic_if (not sender_ok) sender_not_compliant
  transfer_entries env meta.compliance_contract from transfers s
