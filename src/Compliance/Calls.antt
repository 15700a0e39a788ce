-- ===== src/Compliance/Calls.antt =====
-- contracts/compliance/src/lib.rs: the calls that can change the contract's state, and histories of
-- them. The host discards what a failed call wrote. `is_allowed` is one of them: it publishes events.
use stellar_rwa_contracts.Base.{ℕ, List, [], ◌∷◌}
use stellar_rwa_contracts.Base.Text.{Text}
use stellar_rwa_contracts.Base.Host.{Address, after, state_of}
use stellar_rwa_contracts.Compliance.State.{Env, Compliance, AllowlistEntry, Outcome}
use stellar_rwa_contracts.Compliance.Admin
use stellar_rwa_contracts.Compliance.Records
use stellar_rwa_contracts.Compliance.Jurisdictions
use stellar_rwa_contracts.Compliance.Checks
use stellar_rwa_contracts.Compliance.Pruning

pub data Call : Type 0 where
  initialize accept_admin cancel_admin_proposal is_allowed : Address → Call
  propose_admin suspend reinstate remove record_acquisition : Address → Address → Call
  add_to_allowlist : Address → Address → Text → ℕ → Call
  add_to_allowlist_batch : Address → List AllowlistEntry → Call
  block_jurisdiction unblock_jurisdiction : Address → Text → Call
  prune_expired : Address → ℕ → Call
  set_min_holding_period : Address → Address → ℕ → Call

unfoldable pub execute : Env → Call → Compliance → Outcome
execute env (Call.initialize admin) = Admin.initialize env admin
execute env (Call.accept_admin a) = Admin.accept_admin env a
execute env (Call.cancel_admin_proposal a) = Admin.cancel_admin_proposal env a
execute env (Call.is_allowed a) = λ s. state_of (Checks.is_allowed env a s)
execute env (Call.propose_admin a new) = Admin.propose_admin env a new
execute env (Call.suspend a who) = Records.suspend env a who
execute env (Call.reinstate a who) = Records.reinstate env a who
execute env (Call.remove a who) = Records.remove env a who
execute env (Call.record_acquisition a who) = Records.record_acquisition env a who
execute env (Call.add_to_allowlist a who j e) = Records.add_to_allowlist env a who j e
execute env (Call.add_to_allowlist_batch a es) = Records.add_to_allowlist_batch env a es
execute env (Call.block_jurisdiction a j) = Jurisdictions.block_jurisdiction env a j
execute env (Call.unblock_jurisdiction a j) = Jurisdictions.unblock_jurisdiction env a j
execute env (Call.prune_expired a n) = λ s. state_of (Pruning.prune_expired env a n s)
execute env (Call.set_min_holding_period a who n) = Records.set_min_holding_period env a who n

unfoldable pub step : Compliance → Env × Call → Compliance
unfolding execute
step s (env, c) = after s (execute env c s)

-- The state after a history of calls, each with what it saw of the host.
unfoldable pub run : Compliance → List (Env × Call) → Compliance
run s [] = s
run s (c ∷ cs) = run (step s c) cs
