-- ===== src/Compliance/Authority.antt =====
-- contracts/compliance/src/lib.rs: the calls without the authorization of the admin.
use stellar_rwa_contracts.Base.{◌≡◌, refl, none, some, true, false, arith, inl, inr, ◌⊎◌}
use stellar_rwa_contracts.Base.Host.{Address, Result-cases, ok, state_of}
use stellar_rwa_contracts.Compliance.State.{Env, Compliance, require_admin}
use stellar_rwa_contracts.Compliance.Jurisdictions.{block_jurisdiction, unblock_jurisdiction}
use stellar_rwa_contracts.Compliance.Records.{
  add_to_allowlist, add_to_allowlist_batch, suspend, reinstate, remove, set_min_holding_period,
  record_acquisition,
}
use stellar_rwa_contracts.Compliance.Checks.{
  check_unlocked, check_holding, check_record, is_allowed,
}
use stellar_rwa_contracts.Compliance.Pruning.{prune_expired}
use stellar_rwa_contracts.Compliance.Admin.{
  initialize, propose_admin, cancel_admin_proposal, accept_admin,
}
use stellar_rwa_contracts.Compliance.Calls.{Call, execute, step}
use stellar_rwa_contracts.Compliance.Allowed.{SameStorage}

-- What a call of `accept_admin` by `b` needs, and does.
abbrev pub Accepts : Env → Call → Address → Compliance → Compliance → Type 0
Accepts env c b s s' =
    (c ≡ Call.accept_admin b)
    × (env.authorized b ≡ true)
    × (s.pending_admin ≡ some b)
    × SameStorage (record s { admin = some b; pending_admin = none }) s'

module _ (env : Env) (a : Address) (s s' : Compliance) where
  is_allowed-SameStorage : (b : Address) → state_of (is_allowed env b s) ≡ ok s' → SameStorage s s'
  unfolding is_allowed check_record check_holding check_unlocked
  is_allowed-SameStorage b h = ground arith

  execute-needs_admin :
      (c : Call)
      → s.admin ≡ some a
      → env.authorized a ≡ false
      → execute env c s ≡ ok s'
      → SameStorage s s' ⊎ ((b : Address) × Accepts env c b s s')
  unfolding execute initialize accept_admin cancel_admin_proposal propose_admin suspend reinstate
      remove require_admin set_min_holding_period record_acquisition block_jurisdiction
      unblock_jurisdiction add_to_allowlist add_to_allowlist_batch prune_expired
  execute-needs_admin (Call.is_allowed b) p q h = inl (is_allowed-SameStorage b h)
  execute-needs_admin (Call.accept_admin b) p q h =
      inr (b, (refl, ground arith, ground arith, ground arith))
  execute-needs_admin (Call.initialize b) p q h = absurd (ground arith)
  execute-needs_admin (Call.cancel_admin_proposal b) p q h = absurd (ground arith)
  execute-needs_admin (Call.propose_admin b d) p q h = absurd (ground arith)
  execute-needs_admin (Call.suspend b d) p q h = absurd (ground arith)
  execute-needs_admin (Call.reinstate b d) p q h = absurd (ground arith)
  execute-needs_admin (Call.remove b d) p q h = absurd (ground arith)
  execute-needs_admin (Call.record_acquisition b d) p q h = absurd (ground arith)
  execute-needs_admin (Call.add_to_allowlist b d j x) p q h = absurd (ground arith)
  execute-needs_admin (Call.add_to_allowlist_batch b es) p q h = absurd (ground arith)
  execute-needs_admin (Call.block_jurisdiction b j) p q h = absurd (ground arith)
  execute-needs_admin (Call.unblock_jurisdiction b j) p q h = absurd (ground arith)
  execute-needs_admin (Call.prune_expired b n) p q h = absurd (ground arith)
  execute-needs_admin (Call.set_min_holding_period b d n) p q h = absurd (ground arith)

-- A call that the stored admin has not authorized leaves the whole storage but the events as it is,
-- unless it is one of `accept_admin` by the proposed address, which has authorized it: then that
-- address becomes the admin, nothing is proposed any more, and all else but the events is as it was.
pub step-needs_admin :
    (env : Env) (a : Address) (c : Call) (s : Compliance)
    → s.admin ≡ some a
    → env.authorized a ≡ false
    → SameStorage s (step s (env, c)) ⊎ ((b : Address) × Accepts env c b s (step s (env, c)))
unfolding step
step-needs_admin env a c s p q = elim (Result-cases (execute env c s)) [
  | inl (t, h) ↦ rw h (execute-needs_admin env a s t c p q h)
  | inr (f, h) ↦ rw h (inl refl)
]
