-- ===== src/Token/Supply.antt =====
-- contracts/asset-token/src/lib.rs, `mint`, `mint_batch` and `burn`.
use stellar_rwa_contracts.Base.{not, List, [], ◌∷◌}
use stellar_rwa_contracts.Base.Int.{ℤ, ltb_ℤ, checked_add, checked_sub}
use stellar_rwa_contracts.Base.Host.{
  Address, Result, ◌>>=◌, ◌>>◌, ok, panic_if, or_panic, or_trap, require_auth,
}
use stellar_rwa_contracts.Token.State.{
  Env, Token, Event, Error, Outcome, publish, metadata, set_metadata, require_admin, compliant,
  check_amount, balance, set_balance, is_paused, sender_not_compliant, recipient_not_compliant,
  insufficient_balance, overflow,
}

-- The credit of a mint to one recipient, and the supply after it.
unfoldable pub credit : Address → ℤ → ℤ × Token → Result Error (ℤ × Token)
unfolding balance set_balance
credit to amount (supply, s) = do
  new_supply ← or_panic (checked_add supply amount) overflow
  let to_bal = balance s to
  new_to_bal ← or_panic (checked_add to_bal amount) overflow
  ok (new_supply, set_balance to new_to_bal s)

unfoldable pub mint : Env → Address → Address → ℤ → Token → Outcome
unfolding require_admin compliant check_amount
mint env admin to amount s = do
  meta ← require_admin env admin s
  check_amount amount
  panic_if meta.paused is_paused
  recipient_ok ← compliant env meta.compliance_contract to
  panic_if (not recipient_ok) recipient_not_compliant
  credited ← credit to amount (meta.total_supply, s)
  let s = set_metadata (record meta { total_supply = credited.0 }) credited.1
  ok (publish (Event.mint to amount) s)

-- The body of the loop of `mint_batch`, on the supply so far.
unfoldable pub mint_entry : Env → Address → Address × ℤ → ℤ × Token → Result Error (ℤ × Token)
unfolding compliant check_amount
mint_entry env compliance (to, amount) (supply, s) = do
  check_amount amount
  recipient_ok ← compliant env compliance to
  panic_if (not recipient_ok) recipient_not_compliant
  credited ← credit to amount (supply, s)
  ok (credited.0, publish (Event.mint to amount) credited.1)

unfoldable pub mint_entries :
    Env → Address → List (Address × ℤ) → ℤ × Token → Result Error (ℤ × Token)
mint_entries env compliance [] acc = ok acc
mint_entries env compliance (e ∷ es) acc =
    mint_entry env compliance e acc >>= λ acc'. mint_entries env compliance es acc'

unfoldable pub mint_batch : Env → Address → List (Address × ℤ) → Token → Outcome
unfolding require_admin
mint_batch env admin recipients s = do
  meta ← require_admin env admin s
  panic_if meta.paused is_paused
  minted ← mint_entries env meta.compliance_contract recipients (meta.total_supply, s)
  ok (set_metadata (record meta { total_supply = minted.0 }) minted.1)

unfoldable pub burn : Env → Address → ℤ → Token → Outcome
unfolding metadata compliant check_amount balance set_balance
burn env from amount s = do
  require_auth env.authorized from
  check_amount amount
  meta ← metadata s
  panic_if meta.paused is_paused
  sender_ok ← compliant env meta.compliance_contract from
  panic_if (not sender_ok) sender_not_compliant
  let from_bal = balance s from
  panic_if (ltb_ℤ from_bal amount) insufficient_balance
  new_from_bal ← or_trap (checked_sub from_bal amount)
  let s = set_balance from new_from_bal s
  new_supply ← or_panic (checked_sub meta.total_supply amount) overflow
  let s = set_metadata (record meta { total_supply = new_supply }) s
  ok (publish (Event.burn from amount) s)
