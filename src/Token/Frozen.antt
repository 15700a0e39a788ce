-- ===== src/Token/Frozen.antt =====
-- contracts/asset-token/src/lib.rs, `pause`: the calls while the token is paused.
use stellar_rwa_contracts.Base.{◌≡◌, some, true, arith}
use stellar_rwa_contracts.Token.State.{Env, Token, AssetMetadata}
use stellar_rwa_contracts.Token.Genesis.{initialize}
use stellar_rwa_contracts.Token.Transfers.{transfer, transfer_batch}
use stellar_rwa_contracts.Token.Allowances.{approve, transfer_from}
use stellar_rwa_contracts.Token.Supply.{mint, mint_batch, burn}
use stellar_rwa_contracts.Token.Admin.{
  pause, unpause, set_guardian, update_valuation, set_compliance, propose_admin,
  cancel_admin_proposal, accept_admin,
}
use stellar_rwa_contracts.Token.Calls.{Call, step}
use stellar_rwa_contracts.Token.Keeping.{supply_of}

-- The balances, the allowances and the supply are as they were.
abbrev pub Frozen : Token → Token → Type 0
Frozen s s' =
    (s'.balances ≡ s.balances)
    × (s'.allowances ≡ s.allowances)
    × (supply_of s'.metadata ≡ supply_of s.metadata)

-- While the token is paused no call changes a balance, an allowance or the supply.
pub step-Frozen :
    (s : Token) (m : AssetMetadata) (env : Env) (c : Call)
    → s.metadata ≡ some m
    → m.paused ≡ true
    → Frozen s (step s (env, c))
unfolding step initialize transfer mint transfer_batch mint_batch burn approve transfer_from pause
    unpause cancel_admin_proposal accept_admin set_guardian update_valuation set_compliance
    propose_admin
step-Frozen s m env (Call.initialize a n y t supply d c about v) e p = ground arith
step-Frozen s m env _ e p = ground arith
