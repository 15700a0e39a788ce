-- ===== src/Token/Calls.antt =====
-- contracts/asset-token/src/lib.rs: the calls that can change the token's state, and histories of
-- them. The host discards what a failed call wrote.
use stellar_rwa_contracts.Base.{ℕ, Option, List, [], ◌∷◌}
use stellar_rwa_contracts.Base.Int.{ℤ}
use stellar_rwa_contracts.Base.Host.{Address, after}
use stellar_rwa_contracts.Token.State.{Env, Token, Text, Outcome}
use stellar_rwa_contracts.Token.Genesis
use stellar_rwa_contracts.Token.Transfers
use stellar_rwa_contracts.Token.Allowances
use stellar_rwa_contracts.Token.Supply
use stellar_rwa_contracts.Token.Admin

pub data Call : Type 0 where
  initialize : Address → Text → Text → Text → ℤ → ℕ → Address → Text → ℤ → Call
  transfer mint : Address → Address → ℤ → Call
  transfer_batch mint_batch : Address → List (Address × ℤ) → Call
  burn : Address → ℤ → Call
  approve : Address → Address → ℤ → ℕ → Call
  transfer_from : Address → Address → Address → ℤ → Call
  pause unpause cancel_admin_proposal accept_admin : Address → Call
  set_guardian : Address → Option Address → Call
  update_valuation : Address → ℤ → Call
  set_compliance propose_admin : Address → Address → Call

unfoldable pub execute : Env → Call → Token → Outcome
execute env (Call.initialize a n y t supply d c about v) =
    Genesis.initialize env a n y t supply d c about v
execute env (Call.transfer from to x) = Transfers.transfer env from to x
execute env (Call.mint admin to x) = Supply.mint env admin to x
execute env (Call.transfer_batch from xs) = Transfers.transfer_batch env from xs
execute env (Call.mint_batch admin xs) = Supply.mint_batch env admin xs
execute env (Call.burn from x) = Supply.burn env from x
execute env (Call.approve from spender x e) = Allowances.approve env from spender x e
execute env (Call.transfer_from spender from to x) = Allowances.transfer_from env spender from to x
execute env (Call.pause caller) = Admin.pause env caller
execute env (Call.unpause admin) = Admin.unpause env admin
execute env (Call.cancel_admin_proposal admin) = Admin.cancel_admin_proposal env admin
execute env (Call.accept_admin new_admin) = Admin.accept_admin env new_admin
execute env (Call.set_guardian admin guardian) = Admin.set_guardian env admin guardian
execute env (Call.update_valuation admin v) = Admin.update_valuation env admin v
execute env (Call.set_compliance admin c) = Admin.set_compliance env admin c
execute env (Call.propose_admin admin new_admin) = Admin.propose_admin env admin new_admin

unfoldable pub step : Token → Env × Call → Token
unfolding execute
step s (env, c) = after s (execute env c s)

-- The state after a history of calls, each with what it saw of the host.
unfoldable pub run : Token → List (Env × Call) → Token
run s [] = s
run s (c ∷ cs) = run (step s c) cs
