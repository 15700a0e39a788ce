-- ===== src/Dividend/Calls.antt =====
-- contracts/dividend/src/lib.rs: the calls that can change the contract's state, and histories of
-- them. The host discards what a failed call wrote.
use stellar_rwa_contracts.Base.{ℕ, List, [], ◌∷◌}
use stellar_rwa_contracts.Base.Int.{ℤ}
use stellar_rwa_contracts.Base.Host.{Address, after, state_of}
use stellar_rwa_contracts.Dividend.State.{Env, Dividend, Snapshot, Outcome}
use stellar_rwa_contracts.Dividend.Creation
use stellar_rwa_contracts.Dividend.Claims
use stellar_rwa_contracts.Dividend.Recovery
use stellar_rwa_contracts.Dividend.Admin

pub data Call : Type 0 where
  initialize accept_admin cancel_admin_proposal : Address → Call
  propose_admin : Address → Address → Call
  create_distribution : Address → Address → Address → ℤ → Snapshot → Call
  create_distribution_deadline : Address → Address → Address → ℤ → Snapshot → ℕ → Call
  claim : ℕ → Address → Call
  reclaim_unclaimed cancel_distribution : Address → ℕ → Call

unfoldable pub execute : Env → Call → Dividend → Outcome
execute env (Call.initialize admin) = Admin.initialize env admin
execute env (Call.accept_admin a) = Admin.accept_admin env a
execute env (Call.cancel_admin_proposal a) = Admin.cancel_admin_proposal env a
execute env (Call.propose_admin a new) = Admin.propose_admin env a new
execute env (Call.create_distribution a t p x es) =
    λ s. state_of (Creation.create_distribution env a t p x es s)
execute env (Call.create_distribution_deadline a t p x es d) =
    λ s. state_of (Creation.create_distribution_deadline env a t p x es d s)
execute env (Call.claim id holder) = Claims.claim env id holder
execute env (Call.reclaim_unclaimed a id) = λ s. state_of (Recovery.reclaim_unclaimed env a id s)
execute env (Call.cancel_distribution a id) = Recovery.cancel_distribution env a id

unfoldable pub step : Dividend → Env × Call → Dividend
unfolding execute
step s (env, c) = after s (execute env c s)

-- The state after a history of calls, each with what it saw of the host.
unfoldable pub run : Dividend → List (Env × Call) → Dividend
run s [] = s
run s (c ∷ cs) = run (step s c) cs
