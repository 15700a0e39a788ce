-- ===== src/Token/Holding.antt =====
-- contracts/asset-token/src/lib.rs: an account that authorizes no call and has approved no spender.
use stellar_rwa_contracts.Base.{
  ℕ, ◌≡◌, ap, ◌∙◌, Bool-cases, none, some, true, false, List, arith, inl, inr,
}
use stellar_rwa_contracts.Base.Int.{ℤ, pos, ◌-ℤ◌, ◌≤ℤ◌, ltb_ℤ, checked_sub-cases}
use stellar_rwa_contracts.Base.Host.{Address, Result-cases, ok}
use stellar_rwa_contracts.Token.State.{Env, Token, AssetMetadata, balance, check_amount}
use stellar_rwa_contracts.Token.Genesis.{initialize}
use stellar_rwa_contracts.Token.Transfers.{transfer, transfer_batch}
use stellar_rwa_contracts.Token.Allowances.{
  approve, allowance, current_allowance, debit_credit, spend, transfer_from,
}
use stellar_rwa_contracts.Token.Supply.{credit, mint, mint_entries, mint_batch, burn}
use stellar_rwa_contracts.Token.Admin.{
  pause, unpause, set_guardian, update_valuation, set_compliance, propose_admin,
  cancel_admin_proposal, accept_admin,
}
use stellar_rwa_contracts.Token.Calls.{Call, execute, step}
use stellar_rwa_contracts.Token.TransferEffect.{transfer-Moved}
use stellar_rwa_contracts.Token.Consent.{Spends, step-consent}
use stellar_rwa_contracts.Token.Stays.{
  Stays, transfer_entries-Stays, debit_credit-Stays, credit-Stays, mint_entries-Stays,
}

-- The token is initialized, and `a` has no allowance stored for anybody.
pub record Holds (a : Address) (s : Token) : Type 0 where
  pub started : (m : AssetMetadata) × (s.metadata ≡ some m)
  pub no_spender : (b : Address) → s.allowances a b ≡ none

module _ (env : Env) (a : Address) (unsigned : env.authorized a ≡ false) where
  kept : (s s' : Token) → Stays s s' → Holds a s → Holds a s'
  kept s s' (e, i) v = record {
    started = let (m, h) = v.started in (m, i ∙ h);
    no_spender = λ b. ap (λ f. f a b) e ∙ v.no_spender b;
  }

  remade :
      (s s' : Token) (m : AssetMetadata)
      → s'.allowances ≡ s.allowances
      → s'.metadata ≡ some m
      → Holds a s
      → Holds a s'
  remade s s' m e i v = record {
    started = (m, i);
    no_spender = λ b. ap (λ f. f a b) e ∙ v.no_spender b;
  }

  module _ (s s' : Token) (v : Holds a s) (m : AssetMetadata) (i : s.metadata ≡ some m) where
    moves-Holds : (from to : Address) (x : ℤ) → transfer env from to x s ≡ ok s' → Holds a s'
    moves-Holds from to x h = let w = transfer-Moved env from to x s s' h in kept s s' (w.2, w.1) v

    batch-Holds :
        (from : Address) (es : List (Address × ℤ))
        → transfer_batch env from es s ≡ ok s'
        → Holds a s'
    unfolding transfer_batch
    batch-Holds from es h =
        kept s s' (transfer_entries-Stays env m.compliance_contract from es s s' (ground arith)) v

    mint-Holds : (admin to : Address) (x : ℤ) → mint env admin to x s ≡ ok s' → Holds a s'
    unfolding mint
    mint-Holds admin to x h = elim (Result-cases (credit to x (m.total_supply, s))) [
      | inr (f, e) ↦ ground arith
      | inl ((k, t), e) ↦
          let w = credit-Stays to x m.total_supply k s t e in
          remade s s' (record m { total_supply = k }) (ground (arith, w.0)) (ground arith) v
    ]

    mint_batch-Holds :
        (admin : Address) (es : List (Address × ℤ)) → mint_batch env admin es s ≡ ok s' → Holds a s'
    unfolding mint_batch
    mint_batch-Holds admin es h =
        elim (Result-cases (mint_entries env m.compliance_contract es (m.total_supply, s))) [
          | inr (f, e) ↦ ground arith
          | inl ((k, t), e) ↦
              let w = mint_entries-Stays env m.compliance_contract es m.total_supply k s t e in
              remade s s' (record m { total_supply = k }) (ground (arith, w.0)) (ground arith) v
        ]

    burn-Holds : (from : Address) (x : ℤ) → burn env from x s ≡ ok s' → Holds a s'
    unfolding burn
    burn-Holds from x h = record {
      started = (
        record m { total_supply = m.total_supply -ℤ x },
        ground (arith, checked_sub-cases (balance s from) x, checked_sub-cases m.total_supply x),
      );
      no_spender = λ b. ground (
        arith,
        v.no_spender b,
        checked_sub-cases (balance s from) x,
        checked_sub-cases m.total_supply x,
      );
    }

    approve-Holds :
        (from spender : Address) (x : ℤ) (e : ℕ)
        → approve env from spender x e s ≡ ok s'
        → Holds a s'
    unfolding approve
    approve-Holds from spender x e h = record {
      started = (m, ground arith);
      no_spender = λ b. ground (arith, v.no_spender b);
    }

    spends-Holds :
        (spender from to : Address) (x : ℤ)
        → transfer_from env spender from to x s ≡ ok s'
        → Holds a s'
    unfolding transfer_from spend current_allowance
    spends-Holds spender from to x h = elim (Result-cases (debit_credit from to x s)) [
      | inr (f, e) ↦ ground arith
      | inl ((y, z, t), e) ↦
          let (al, me) = debit_credit-Stays from to x y z s t e in
          let cs = checked_sub-cases (current_allowance from spender s).amount x in
          record {
            started = (m, ground (arith, me, cs));
            no_spender =
                λ b. ground (arith, v.no_spender b, v.no_spender spender, ap (λ f. f a b) al, cs);
          }
    ]

    execute-Holds : (c : Call) → execute env c s ≡ ok s' → Holds a s'
    unfolding execute initialize pause unpause cancel_admin_proposal accept_admin set_guardian
        update_valuation set_compliance propose_admin
    execute-Holds (Call.transfer from to x) h = moves-Holds from to x h
    execute-Holds (Call.transfer_batch from es) h = batch-Holds from es h
    execute-Holds (Call.mint b to x) h = mint-Holds b to x h
    execute-Holds (Call.mint_batch b es) h = mint_batch-Holds b es h
    execute-Holds (Call.burn from x) h = burn-Holds from x h
    execute-Holds (Call.approve from spender x e) h = approve-Holds from spender x e h
    execute-Holds (Call.transfer_from spender from to x) h = spends-Holds spender from to x h
    execute-Holds (Call.initialize b n y t supply d c about z) h = ground arith
    execute-Holds (Call.pause b) h =
        remade s s' (record m { paused = true }) (ground arith) (ground arith) v
    execute-Holds (Call.unpause b) h =
        remade s s' (record m { paused = false }) (ground arith) (ground arith) v
    execute-Holds (Call.cancel_admin_proposal b) h =
        remade s s' (record m { pending_admin = none }) (ground arith) (ground arith) v
    execute-Holds (Call.accept_admin b) h =
        remade s s' (record m { admin = b; pending_admin = none }) (ground arith) (ground arith) v
    execute-Holds (Call.set_guardian b g) h =
        remade s s' (record m { guardian = g }) (ground arith) (ground arith) v
    execute-Holds (Call.update_valuation b z) h =
        remade s s' (record m { valuation = z }) (ground arith) (ground arith) v
    execute-Holds (Call.set_compliance b c) h =
        remade s s' (record m { compliance_contract = c }) (ground arith) (ground arith) v
    execute-Holds (Call.propose_admin b n) h =
        remade s s' (record m { pending_admin = some n }) (ground arith) (ground arith) v

  no_spending : (s : Token) (c : Call) → Holds a s → Spends env s a c → step s (env, c) ≡ s
  unfolding step execute transfer_from allowance check_amount
  no_spending s (Call.transfer_from spender from to x) v (e, y, le) =
      let x_le : x ≤ℤ pos 0 = ground (arith, v.no_spender spender, le) in ground (arith, x_le)
  no_spending s _ v h = absurd h

  -- A call that the account `a` has not authorized leaves it without allowances.
  pub step-Holds : (s : Token) (c : Call) → Holds a s → Holds a (step s (env, c))
  unfolding step
  step-Holds s c v = elim (Result-cases (execute env c s)) [
    | inl (t, h) ↦ rw h (execute-Holds s t v v.started.0 v.started.1 c h)
    | inr (f, h) ↦ rw h v
  ]

  -- Such a call does not lower its balance.
  pub step-Holds_balance :
      (s : Token) (c : Call) → Holds a s → balance s a ≤ℤ balance (step s (env, c)) a
  step-Holds_balance s c v = elim (Bool-cases (ltb_ℤ (balance (step s (env, c)) a) (balance s a))) [
    | inr q ↦ ground (arith, q)
    | inl q ↦ elim (step-consent s v.started.0 env c a v.started.1 (ground (arith, q))) [
      | inl y ↦ absurd (ground (arith, y, unsigned))
      | inr k ↦ absurd (ground (arith, q, ap (λ (t : Token). balance t a) (no_spending s c v k)))
    ]
  ]
