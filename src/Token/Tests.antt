-- ===== src/Token/Tests.antt =====
-- contracts/asset-token/src/lib.rs: the token on concrete states.
use stellar_rwa_contracts.Base.{
  ◌≡◌, refl, none, some, true, false, List, [], ◌∷◌, arith, ◌≤◌, ◌↔◌, ◌⊎◌, ◌+◌, ◌/◌, ◌==◌, ◌&&◌,
  if◌then◌else◌,
}
use stellar_rwa_contracts.Base.Int.{
  pos, ◌+ℤ◌, ◌-ℤ◌, ◌*ℤ◌, ◌/ℤ◌, ◌≤ℤ◌, ◌<ℤ◌, abs, checked_add, checked_sub, checked_mul,
}
use stellar_rwa_contracts.Base.Dict.{lookup, insert, sum}
use stellar_rwa_contracts.Base.Host.{Address, ok, succeeds, after}
use stellar_rwa_contracts.Token.State.{
  Env, Token, AssetMetadata, AllowanceValue, Event, empty, balance, set_balance, metadata,
  require_admin, compliant, check_amount,
}
use stellar_rwa_contracts.Token.Transfers.{transfer, transfer_batch}
use stellar_rwa_contracts.Token.Allowances.{
  set_allowance, approve, allowance, current_allowance, debit_credit, spend, transfer_from,
}
use stellar_rwa_contracts.Token.Admin.{check_change, update_valuation, accept_admin}
use stellar_rwa_contracts.Token.Calls.{Call, execute, step, run}
use stellar_rwa_contracts.Token.Backing.{Backed, run-empty-Backed}
use stellar_rwa_contracts.Token.TransferEffect.{moved, MayTransfer, transfer-succeeds}
use stellar_rwa_contracts.Token.Batch.{transfer_each, transfer_batch-iff-each}
use stellar_rwa_contracts.Token.Spending.{allowance-approve, transfer_from-spends}
use stellar_rwa_contracts.Token.Frozen.{Frozen, step-Frozen}
use stellar_rwa_contracts.Token.Authority.{Untouched, step-authority}
use stellar_rwa_contracts.Token.Valuation.{update_valuation-bound}
use stellar_rwa_contracts.Token.Consent.{Spends, step-consent}

-- Everybody has authorized the call, and is allowed.
abbrev env : Env
env = record {
  authorized = λ _. true;
  sequence = 10;
  is_allowed = λ _ _. some true;
  accepts_ttl = λ _. true;
}

-- Only 2 has authorized the call.
abbrev env_two : Env
env_two = record env { authorized = λ a. a == 2 }

-- Only 3 has authorized the call.
abbrev env_three : Env
env_three = record env { authorized = λ a. a == 3 }

abbrev meta : AssetMetadata
meta = record {
  name = 65 ∷ [];
  symbol = 65 ∷ [];
  asset_type = 66 ∷ [];
  total_supply = pos 100;
  decimals = 2;
  admin = 1;
  compliance_contract = 9;
  asset_description = 67 ∷ [];
  valuation = pos 1000;
  paused = false;
  guardian = none;
  pending_admin = some 2;
}

abbrev lent : AllowanceValue
lent = record { amount = pos 20; expiration_ledger = 50 }

-- 1 holds 60 and 2 holds 40; 1 lets 3 spend 20.
abbrev held : Token
held = record {
  metadata = some meta;
  balances = (1, pos 60) ∷ (2, pos 40) ∷ [];
  allowances = λ a b. if a == 1 && b == 3 then some lent else none;
  events = Event.mint 1 (pos 100) ∷ [];
}

held-Backed : Backed held
unfolding sum ◌+ℤ◌
held-Backed = record { nonneg = ground arith; backed = refl; counted = refl }

abbrev history : List (Env × Call)
history =
    (env, Call.initialize 1 (65 ∷ []) (65 ∷ []) (66 ∷ []) (pos 100) 2 9 (67 ∷ []) (pos 1000))
    ∷ (env, Call.transfer 1 2 (pos 30))
    ∷ (env, Call.burn 2 (pos 5))
    ∷ (env, Call.mint_batch 1 ((4, pos 7) ∷ []))
    ∷ []

run-empty-Backed_example : Backed (run empty history)
run-empty-Backed_example = run-empty-Backed history

transfer-succeeds_example :
    (succeeds (transfer env 1 2 (pos 25) held) ≡ true) ↔ MayTransfer env meta 1 2 (pos 25) held
transfer-succeeds_example = transfer-succeeds env meta 1 2 (pos 25) held held-Backed refl refl

abbrev after_transfer : Token
after_transfer = after held (transfer env 1 2 (pos 25) held)

abbrev after_batch : Token
after_batch = after held (transfer_batch env 1 ((2, pos 5) ∷ (4, pos 6) ∷ []) held)

transfer_batch-iff-each_example :
    (transfer_batch env 1 ((2, pos 5) ∷ (4, pos 6) ∷ []) held ≡ ok after_batch)
    ↔ (transfer_each env 1 ((2, pos 5) ∷ (4, pos 6) ∷ []) held ≡ ok after_batch)
transfer_batch-iff-each_example =
    transfer_batch-iff-each env 1 (2, pos 5) ((4, pos 6) ∷ []) held after_batch

abbrev after_approve : Token
after_approve = after held (approve env 2 3 (pos 8) 20 held)

allowance-approve_example :
    (allowance env 2 3 after_approve ≡ pos 8)
    × (after_approve.balances ≡ held.balances)
    × (after_approve.metadata ≡ held.metadata)
unfolding approve metadata set_allowance
allowance-approve_example = allowance-approve env env 2 3 2 3 (pos 8) 20 held after_approve refl

abbrev after_spend : Token
after_spend = after held (transfer_from env_three 3 1 2 (pos 15) held)

transfer_from-spends_example :
    (env_three.authorized 3 ≡ true)
    × (pos 0 <ℤ pos 15)
    × (pos 15 ≤ℤ allowance env_three 1 3 held)
    × ((a : Address) → balance after_spend a ≡ moved 1 2 (pos 15) a (balance held a))
    × ((a b : Address)
        → allowance env_three a b after_spend ≡ (
            if a == 1 && b == 3
            then allowance env_three 1 3 held -ℤ pos 15
            else allowance env_three a b held))
unfolding transfer_from metadata compliant check_amount spend set_allowance current_allowance
    debit_credit balance set_balance checked_add checked_sub ◌+ℤ◌ ◌-ℤ◌ lookup insert
transfer_from-spends_example = transfer_from-spends env_three 3 1 2 (pos 15) held after_spend refl

abbrev stopped : AssetMetadata
stopped = record meta { paused = true }

abbrev held_stopped : Token
held_stopped = record held { metadata = some stopped }

step-Frozen_example : Frozen held_stopped (step held_stopped (env, Call.transfer 1 2 (pos 5)))
step-Frozen_example = step-Frozen held_stopped stopped env (Call.transfer 1 2 (pos 5)) refl refl

step-authority_example :
    ((2 ≡ meta.admin)
      ⊎ ((Call.accept_admin 2 ≡ Call.accept_admin 2)
          × (meta.pending_admin ≡ some 2)
          × (env_two.authorized 2 ≡ true)))
    × ((env_two.authorized 1 ≡ true)
        ⊎ Untouched meta (record meta { admin = 2; pending_admin = none }))
unfolding step execute accept_admin metadata
step-authority_example =
    step-authority held meta (record meta { admin = 2; pending_admin = none }) env_two
      (Call.accept_admin 2) refl refl

abbrev after_appraisal : Token
after_appraisal = after held (update_valuation env 1 (pos 1400) held)

update_valuation-bound_example :
    (pos 0 <ℤ pos 1400)
    × (1400 ≤ 1000 + 1000 / 2)
    × (1000 ≤ 1400 + 1000 / 2)
    × (after_appraisal.metadata ≡ some (record meta { valuation = pos 1400 }))
    × (env.authorized 1 ≡ true)
    × (meta.admin ≡ meta.admin)
unfolding update_valuation require_admin metadata check_change abs checked_sub checked_mul ◌-ℤ◌ ◌*ℤ◌
    ◌/ℤ◌
update_valuation-bound_example =
    update_valuation-bound env 1 held after_appraisal meta 1000 (pos 1400) refl refl (omega arith)
      refl

step-consent_example :
    (env_three.authorized 1 ≡ true) ⊎ Spends env_three held 1 (Call.transfer_from 3 1 2 (pos 15))
unfolding step execute transfer_from metadata compliant check_amount spend set_allowance
    current_allowance debit_credit balance set_balance checked_add checked_sub ◌+ℤ◌ ◌-ℤ◌ lookup
    insert
step-consent_example =
    step-consent held meta env_three (Call.transfer_from 3 1 2 (pos 15)) 1 refl (omega arith)
