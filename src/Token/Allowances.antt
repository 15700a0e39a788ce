-- ===== src/Token/Allowances.antt =====
-- contracts/asset-token/src/lib.rs, the SEP-41 allowances: `approve`, `allowance` and
-- `transfer_from`. An entry outlives its `expiration_ledger` or is gone after it; it reads as 0
-- either way, so the lifetime of a temporary entry is not part of the state.
use stellar_rwa_contracts.Base.{
  ℕ, ◌-◌, not, ◌&&◌, ◌||◌, none, some, ltb, leb, ◌==◌, if◌then◌else◌, unwrap_or,
}
use stellar_rwa_contracts.Base.Int.{ℤ, pos, ltb_ℤ, checked_add, checked_sub}
use stellar_rwa_contracts.Base.Host.{
  Address, Result, err, trap, ◌>>=◌, ◌>>◌, ok, panic_if, or_panic, or_trap, require_auth,
}
use stellar_rwa_contracts.Token.State.{
  Env, Token, Event, Error, AllowanceValue, Outcome, publish, metadata, compliant, check_amount,
  balance, set_balance, is_paused, sender_not_compliant, recipient_not_compliant, invalid_amount,
  invalid_input, insufficient_balance, insufficient_allowance, overflow,
}

unfoldable pub set_allowance : Address → Address → AllowanceValue → Token → Token
set_allowance from spender v s = record s {
  allowances = λ a b. if a == from && b == spender then some v else s.allowances a b;
}

-- `extend_ttl` of the temporary entry, which the host refuses beyond its limit.
abbrev pub extend_ttl : Env → ℤ → ℕ → Result Error (Unit {0})
extend_ttl env amount expiration_ledger =
    if ltb_ℤ (pos 0) amount && not (env.accepts_ttl (expiration_ledger - env.sequence))
    then err trap
    else ok tt

unfoldable pub approve : Env → Address → Address → ℤ → ℕ → Token → Outcome
unfolding metadata set_allowance
approve env from spender amount expiration_ledger s = do
  require_auth env.authorized from
  panic_if (ltb_ℤ amount (pos 0)) invalid_amount
  meta ← metadata s
  panic_if meta.paused is_paused
  panic_if (ltb_ℤ (pos 0) amount && ltb expiration_ledger env.sequence) invalid_input
  let v : AllowanceValue = record { amount = amount; expiration_ledger = expiration_ledger }
  let s = set_allowance from spender v s
  extend_ttl env amount expiration_ledger
  ok (publish (Event.approve from spender amount expiration_ledger) s)

unfoldable pub allowance : Env → Address → Address → Token → ℤ
allowance env from spender s = elim (s.allowances from spender) [
  | none ↦ pos 0
  | some v ↦ if leb env.sequence v.expiration_ledger then v.amount else pos 0
]

abbrev no_allowance : AllowanceValue
no_allowance = record { amount = pos 0; expiration_ledger = 0 }

unfoldable pub current_allowance : Address → Address → Token → AllowanceValue
current_allowance from spender s = unwrap_or (s.allowances from spender) no_allowance

-- The debit, then the credit to the balance that is read after it.
unfoldable pub debit_credit : Address → Address → ℤ → Token → Result Error (ℤ × ℤ × Token)
unfolding balance set_balance
debit_credit from to amount s = do
  let from_bal = balance s from
  panic_if (ltb_ℤ from_bal amount) insufficient_balance
  new_from_bal ← or_trap (checked_sub from_bal amount)
  let s = set_balance from new_from_bal s
  let to_bal = balance s to
  new_to_bal ← or_panic (checked_add to_bal amount) overflow
  ok (new_from_bal, new_to_bal, set_balance to new_to_bal s)

-- From the allowance check on.
unfoldable pub spend : Env → Address → Address → Address → ℤ → Token → Outcome
unfolding set_allowance current_allowance
spend env spender from to amount s = do
  let current = current_allowance from spender s
  panic_if (ltb current.expiration_ledger env.sequence || ltb_ℤ current.amount amount)
      insufficient_allowance
  moved ← debit_credit from to amount s
  left ← or_trap (checked_sub current.amount amount)
  let v : AllowanceValue = record { amount = left; expiration_ledger = current.expiration_ledger }
  let s = set_allowance from spender v moved.2
  ok (publish (Event.transfer from to amount moved.0 moved.1) s)

unfoldable pub transfer_from : Env → Address → Address → Address → ℤ → Token → Outcome
unfolding metadata compliant check_amount
transfer_from env spender from to amount s = do
  require_auth env.authorized spender
  check_amount amount
  meta ← metadata s
  panic_if meta.paused is_paused
  sender_ok ← compliant env meta.compliance_contract from
  panic_if (not sender_ok) sender_not_compliant
  recipient_ok ← compliant env meta.compliance_contract to
  panic_if (not recipient_ok) recipient_not_compliant
  spend env spender from to amount s
