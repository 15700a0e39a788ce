-- ===== src/Registry/Calls.antt =====
-- contracts/registry/src/lib.rs: the calls that can change the contract's state, and histories of
-- them. The host discards what a failed call wrote.
use stellar_rwa_contracts.Base.{ℕ, List, [], ◌∷◌}
use stellar_rwa_contracts.Base.Int.{ℤ}
use stellar_rwa_contracts.Base.Host.{Address, after, state_of}
use stellar_rwa_contracts.Base.Text.{Text}
use stellar_rwa_contracts.Registry.State.{Env, Registry, Outcome}
use stellar_rwa_contracts.Registry.Assets
use stellar_rwa_contracts.Registry.Admin

pub data Call : Type 0 where
  initialize accept_admin cancel_admin_proposal : Address → Call
  propose_admin : Address → Address → Call
  register_asset : Address → Address → Text → Text → ℤ → Call
  deactivate_asset reactivate_asset : Address → ℕ → Call
  update_valuation : Address → ℕ → ℤ → Call

unfoldable pub execute : Env → Call → Registry → Outcome
execute env (Call.initialize admin) = Admin.initialize env admin
execute env (Call.accept_admin a) = Admin.accept_admin env a
execute env (Call.cancel_admin_proposal a) = Admin.cancel_admin_proposal env a
execute env (Call.propose_admin a new) = Admin.propose_admin env a new
execute env (Call.register_asset issuer token name kind v) =
    λ s. state_of (Assets.register_asset env issuer token name kind v s)
execute env (Call.deactivate_asset a id) = Assets.deactivate_asset env a id
execute env (Call.reactivate_asset a id) = Assets.reactivate_asset env a id
execute env (Call.update_valuation a id v) = Assets.update_valuation env a id v

unfoldable pub step : Registry → Env × Call → Registry
unfolding execute
step s (env, c) = after s (execute env c s)

-- The state after a history of calls, each with what it saw of the host.
unfoldable pub run : Registry → List (Env × Call) → Registry
run s [] = s
run s (c ∷ cs) = run (step s c) cs
