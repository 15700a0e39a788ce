-- ===== src/Token/Consent.antt =====
-- contracts/asset-token/src/lib.rs: whose consent a change of a balance needs.
use stellar_rwa_contracts.Base.{ℕ, ◌≡◌, some, true, false, List, arith, inl, inr, ◌⊎◌}
use stellar_rwa_contracts.Base.Int.{ℤ, pos, ◌-ℤ◌, ◌≤ℤ◌, ◌<ℤ◌, -ℤ_parts, +ℤ_parts, checked_sub-cases}
use stellar_rwa_contracts.Base.Dict.{lookup-insert}
use stellar_rwa_contracts.Base.Host.{Address, Result-cases, ok, err, after}
use stellar_rwa_contracts.Token.State.{Env, Token, AssetMetadata, Outcome, balance}
use stellar_rwa_contracts.Token.Genesis.{initialize}
use stellar_rwa_contracts.Token.Transfers.{settle, transfer, transfer_entries, transfer_batch}
use stellar_rwa_contracts.Token.Allowances.{approve, allowance, spend, transfer_from}
use stellar_rwa_contracts.Token.Supply.{credit, mint, mint_entries, mint_batch, burn}
use stellar_rwa_contracts.Token.Admin.{
  pause, unpause, set_guardian, update_valuation, set_compliance, propose_admin,
  cancel_admin_proposal, accept_admin,
}
use stellar_rwa_contracts.Token.Calls.{Call, execute, step}
use stellar_rwa_contracts.Token.TransferEffect.{settle-balance}
use stellar_rwa_contracts.Token.Spending.{spend-eq, spend-covered}
use stellar_rwa_contracts.Token.Flows.{transfer_entries-Moves, credit-Moves, mint_entries-Rises}

-- What `transfer_from` needs to lower the balance of `a`.
abbrev pub Spends : Env → Token → Address → Call → Type 0
Spends env s a (Call.transfer_from spender from to x) =
    (from ≡ a) × (env.authorized spender ≡ true) × (x ≤ℤ allowance env a spender s)
Spends env s a _ = ⊥

-- A call lowers the balance of `a` only with consent and raises it only for an allowed `a`.
abbrev Respects : Env → AssetMetadata → Address → Call → Token → Outcome → Type 0
Respects env m a call s (ok s') =
    ((balance s a ≤ℤ balance s' a) ⊎ ((env.authorized a ≡ true) ⊎ Spends env s a call))
    × ((balance s' a ≤ℤ balance s a)
        ⊎ (env.is_allowed m.compliance_contract a ≡ some true) × (m.paused ≡ false))
Respects env m a call s (err _) = Unit {0}

module _ (env : Env) (m : AssetMetadata) (a : Address) (s : Token) (i : s.metadata ≡ some m) where
  transfer-Respects :
      (from to : Address) (x : ℤ)
      → Respects env m a (Call.transfer from to x) s (transfer env from to x s)
  unfolding transfer
  transfer-Respects from to x = elim (Result-cases (settle from to x s)) [
    | inl (t, e) ↦
        ground (
          arith,
          settle-balance from to a x s t,
          +ℤ_parts (balance s a) x,
          -ℤ_parts (balance s a) x,
        )
    | inr (f, e) ↦ ground arith
  ]

  transfer_batch-Respects :
      (from : Address) (es : List (Address × ℤ))
      → Respects env m a (Call.transfer_batch from es) s (transfer_batch env from es s)
  unfolding transfer_batch
  transfer_batch-Respects from es =
      elim (Result-cases (transfer_entries env m.compliance_contract from es s)) [
        | inl (t, e) ↦
            ground (arith, transfer_entries-Moves env m.compliance_contract a from es s t e)
        | inr (f, e) ↦ ground arith
      ]

  mint-Respects :
      (admin to : Address) (x : ℤ)
      → Respects env m a (Call.mint admin to x) s (mint env admin to x s)
  unfolding mint balance
  mint-Respects admin to x = elim (Result-cases (credit to x (m.total_supply, s))) [
    | inl ((k, t), e) ↦
        ground (arith, credit-Moves env m.compliance_contract a to x m.total_supply k s t)
    | inr (f, e) ↦ ground arith
  ]

  mint_batch-Respects :
      (admin : Address) (es : List (Address × ℤ))
      → Respects env m a (Call.mint_batch admin es) s (mint_batch env admin es s)
  unfolding mint_batch balance
  mint_batch-Respects admin es =
      elim (Result-cases (mint_entries env m.compliance_contract es (m.total_supply, s))) [
        | inl ((k, t), e) ↦
            ground (arith, mint_entries-Rises env m.compliance_contract a es m.total_supply k s t)
        | inr (f, e) ↦ ground arith
      ]

  burn-Respects :
      (from : Address) (x : ℤ) → Respects env m a (Call.burn from x) s (burn env from x s)
  unfolding burn
  burn-Respects from x = ground (
    arith,
    checked_sub-cases (balance s from) x,
    lookup-insert a from (balance s from -ℤ x) s.balances,
    -ℤ_parts (balance s from) x,
  )

  transfer_from-Respects :
      (spender from to : Address) (x : ℤ)
      → Respects env m a
          (Call.transfer_from spender from to x)
          s
          (transfer_from env spender from to x s)
  unfolding transfer_from
  transfer_from-Respects spender from to x = elim (Result-cases (spend env spender from to x s)) [
    | inl (t, e) ↦ ground (
      arith,
      spend-covered env spender from to x s t,
      λ (p : pos 0 <ℤ x). (spend-eq env spender from to x s t p e).0 a,
      +ℤ_parts (balance s a) x,
      -ℤ_parts (balance s a) x,
    )
    | inr (f, e) ↦ ground arith
  ]

  approve-Respects :
      (from spender : Address) (x : ℤ) (e : ℕ)
      → Respects env m a (Call.approve from spender x e) s (approve env from spender x e s)
  unfolding approve balance
  approve-Respects from spender x e = ground arith

  execute-Respects : (c : Call) → Respects env m a c s (execute env c s)
  unfolding execute balance initialize pause unpause cancel_admin_proposal accept_admin set_guardian
      update_valuation set_compliance propose_admin
  execute-Respects (Call.initialize b n y t supply d c about v) = ground arith
  execute-Respects (Call.transfer from to x) = transfer-Respects from to x
  execute-Respects (Call.mint b to x) = mint-Respects b to x
  execute-Respects (Call.transfer_batch from es) = transfer_batch-Respects from es
  execute-Respects (Call.mint_batch b es) = mint_batch-Respects b es
  execute-Respects (Call.burn from x) = burn-Respects from x
  execute-Respects (Call.transfer_from spender from to x) = transfer_from-Respects spender from to x
  execute-Respects (Call.approve from spender x e) = approve-Respects from spender x e
  execute-Respects _ = ground arith

module _ (s : Token) (m : AssetMetadata) (env : Env) (c : Call) (a : Address) where
  after-consent :
      (r : Outcome)
      → Respects env m a c s r
      → balance (after s r) a <ℤ balance s a
      → (env.authorized a ≡ true) ⊎ Spends env s a c
  after-consent (ok t) (inl le, _) h = absurd (omega arith)
  after-consent (ok t) (inr k, _) h = k
  after-consent (err f) k h = absurd (omega arith)

  after-compliant :
      (r : Outcome)
      → Respects env m a c s r
      → balance s a <ℤ balance (after s r) a
      → (env.is_allowed m.compliance_contract a ≡ some true) × (m.paused ≡ false)
  after-compliant (ok t) (_, inl le) h = absurd (omega arith)
  after-compliant (ok t) (_, inr k) h = k
  after-compliant (err f) k h = absurd (omega arith)

  -- A call on an initialized token that lowers the balance of `a` was authorized by `a`, or is a
  -- `transfer_from` out of `a` that its spender authorized and that lies within the live
  -- allowance.
  pub step-consent :
      s.metadata ≡ some m
      → balance (step s (env, c)) a <ℤ balance s a
      → (env.authorized a ≡ true) ⊎ Spends env s a c
  unfolding step
  step-consent i h = after-consent (execute env c s) (execute-Respects env m a s i c) h

  -- A call on an initialized token that raises the balance of `a` finds the token not paused and
  -- `a` allowed by its compliance contract.
  pub step-compliant :
      s.metadata ≡ some m
      → balance s a <ℤ balance (step s (env, c)) a
      → (env.is_allowed m.compliance_contract a ≡ some true) × (m.paused ≡ false)
  unfolding step
  step-compliant i h = after-compliant (execute env c s) (execute-Respects env m a s i c) h
