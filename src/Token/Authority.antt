-- ===== src/Token/Authority.antt =====
-- contracts/asset-token/src/lib.rs: who may change the metadata.
use stellar_rwa_contracts.Base.{
  ◌≡◌, none, some, true, false, List, [], ◌∷◌, arith, Option-cases, Bool-cases, inl, inr, ◌≢◌, ◌⊎◌,
  ◌==◌,
}
use stellar_rwa_contracts.Base.Int.{ℤ, ◌≤ℤ◌, -ℤ_parts, checked_sub-cases}
use stellar_rwa_contracts.Base.Host.{Address, Result-cases, ok}
use stellar_rwa_contracts.Token.State.{Env, Token, AssetMetadata, balance}
use stellar_rwa_contracts.Token.Genesis.{initialize}
use stellar_rwa_contracts.Token.Transfers.{
  transfer, transfer_entry, transfer_entries, transfer_batch,
}
use stellar_rwa_contracts.Token.Allowances.{approve, debit_credit, spend, transfer_from}
use stellar_rwa_contracts.Token.Supply.{mint, mint_batch, burn}
use stellar_rwa_contracts.Token.Admin.{
  pause, unpause, set_guardian, update_valuation, set_compliance, propose_admin,
  cancel_admin_proposal, accept_admin,
}
use stellar_rwa_contracts.Token.Calls.{Call, step}
use stellar_rwa_contracts.Token.TransferEffect.{settle-Moved}

entry-metadata :
    (env : Env) (c from : Address) (e : Address × ℤ) (s s' : Token)
    → transfer_entry env c from e s ≡ ok s'
    → s'.metadata ≡ s.metadata
unfolding transfer_entry
entry-metadata env c from (to, x) s s' h = ground (arith, settle-Moved from to x s s')

entries-metadata :
    (env : Env) (c from : Address) (es : List (Address × ℤ)) (s s' : Token)
    → transfer_entries env c from es s ≡ ok s'
    → s'.metadata ≡ s.metadata
unfolding transfer_entries
entries-metadata env c from [] s s' h = ground arith
entries-metadata env c from (e ∷ es) s s' h = elim (Result-cases (transfer_entry env c from e s)) [
  | inl (t, k) ↦
      ground (arith, entry-metadata env c from e s t k, entries-metadata env c from es t s')
  | inr (f, k) ↦ ground arith
]

transfer_batch-metadata :
    (env : Env) (from : Address) (es : List (Address × ℤ)) (s s' : Token)
    → transfer_batch env from es s ≡ ok s'
    → s'.metadata ≡ s.metadata
unfolding transfer_batch
transfer_batch-metadata env from es s s' h = elim (Option-cases s.metadata) [
  | inl e ↦ ground arith
  | inr (m, e) ↦ ground (arith, entries-metadata env m.compliance_contract from es s s')
]

spend-metadata :
    (env : Env) (spender from to : Address) (x : ℤ) (s s' : Token)
    → spend env spender from to x s ≡ ok s'
    → s'.metadata ≡ s.metadata
unfolding spend debit_credit
spend-metadata env spender from to x s s' h = ground (arith, checked_sub-cases (balance s from) x)

-- The admin of an initialized token changes only in `accept_admin`, which the new admin itself
-- has authorized, and only to the address that was proposed.
step-admin :
    (s : Token) (m m' : AssetMetadata) (env : Env) (c : Call)
    → s.metadata ≡ some m
    → (step s (env, c)).metadata ≡ some m'
    → m'.admin ≢ m.admin
    → (c ≡ Call.accept_admin m'.admin)
      × (m.pending_admin ≡ some m'.admin)
      × (env.authorized m'.admin ≡ true)
unfolding step initialize transfer mint mint_batch burn approve transfer_from pause unpause
    cancel_admin_proposal accept_admin set_guardian update_valuation set_compliance propose_admin
step-admin s m m' env (Call.initialize a n y t supply d c about v) e h ne = ground arith
step-admin s m m' env (Call.transfer from to x) e h ne =
    ground (arith, settle-Moved from to x s (step s (env, Call.transfer from to x)))
step-admin s m m' env (Call.transfer_batch from es) e h ne =
    ground
      (arith, transfer_batch-metadata env from es s (step s (env, Call.transfer_batch from es)))
step-admin s m m' env (Call.transfer_from sp from to x) e h ne =
    ground
      (arith, spend-metadata env sp from to x s (step s (env, Call.transfer_from sp from to x)))
step-admin s m m' env _ e h ne = ground arith

-- What nobody can do without the admin's authorization.
pub record Untouched (m m' : AssetMetadata) : Type 0 where
  pub valuation : m'.valuation ≡ m.valuation
  pub compliance : m'.compliance_contract ≡ m.compliance_contract
  pub guardian : m'.guardian ≡ m.guardian
  pub still_paused : m.paused ≡ true → m'.paused ≡ true
  pub proposal : (m'.pending_admin ≡ m.pending_admin) ⊎ (m'.pending_admin ≡ none)
  pub supply : m'.total_supply ≤ℤ m.total_supply

-- A call that the admin has not authorized leaves the valuation, the compliance contract and the
-- guardian as they were, ends no pause, proposes no new admin, and does not raise the supply.
step-Untouched :
    (s : Token) (m m' : AssetMetadata) (env : Env) (c : Call)
    → s.metadata ≡ some m
    → (step s (env, c)).metadata ≡ some m'
    → env.authorized m.admin ≡ false
    → Untouched m m'
unfolding step initialize transfer mint mint_batch burn approve transfer_from pause unpause
    cancel_admin_proposal accept_admin set_guardian update_valuation set_compliance propose_admin
step-Untouched s m m' env (Call.initialize a n y t supply d c about v) e h unsigned = ground arith
step-Untouched s m m' env (Call.transfer from to x) e h unsigned =
    ground (arith, settle-Moved from to x s (step s (env, Call.transfer from to x)))
step-Untouched s m m' env (Call.transfer_batch from es) e h unsigned =
    ground
      (arith, transfer_batch-metadata env from es s (step s (env, Call.transfer_batch from es)))
step-Untouched s m m' env (Call.transfer_from sp from to x) e h unsigned =
    ground
      (arith, spend-metadata env sp from to x s (step s (env, Call.transfer_from sp from to x)))
step-Untouched s m m' env (Call.burn from x) e h unsigned =
    ground (arith, checked_sub-cases m.total_supply x, -ℤ_parts m.total_supply x)
step-Untouched s m m' env _ e h unsigned = ground arith

-- A call on an initialized token changes the admin only as an `accept_admin` of the proposed address,
-- which has authorized it; and if the admin has not authorized the call, it leaves the valuation,
-- the compliance contract and the guardian as they were, ends no pause, proposes no new admin, and
-- does not raise the supply.
pub step-authority :
    (s : Token) (m m' : AssetMetadata) (env : Env) (c : Call)
    → s.metadata ≡ some m
    → (step s (env, c)).metadata ≡ some m'
    → ((m'.admin ≡ m.admin)
        ⊎ ((c ≡ Call.accept_admin m'.admin)
            × (m.pending_admin ≡ some m'.admin)
            × (env.authorized m'.admin ≡ true)))
      × ((env.authorized m.admin ≡ true) ⊎ Untouched m m')
step-authority s m m' env c e h = (
  elim (Bool-cases (m'.admin == m.admin)) [
    | inl q ↦ inl (ground arith)
    | inr q ↦ inr (step-admin s m m' env c e h (ground arith))
  ],
  elim (Bool-cases (env.authorized m.admin)) [
    | inl q ↦ inl q
    | inr q ↦ inr (step-Untouched s m m' env c e h q)
  ],
)
