-- ===== src/Wired/PaymentTests.antt =====
-- contracts/dividend/src/lib.rs with a payment token of contracts/asset-token/src/lib.rs, on a
-- concrete history.
use stellar_rwa_contracts.Base.{refl, none, some, true, false, not, [], ◌∷◌, arith, inl, ◌==◌}
use stellar_rwa_contracts.Base.Int.{
  pos, ◌+ℤ◌, ◌-ℤ◌, ◌*ℤ◌, ◌/ℤ◌, ◌≤ℤ◌, checked_add, checked_sub, checked_mul,
}
use stellar_rwa_contracts.Base.Dict.{lookup, insert, sum_by}
use stellar_rwa_contracts.Base.Host.{after}
use stellar_rwa_contracts.Token.State.{
  Token, AssetMetadata, Env as TokenEnv, metadata, compliant, check_amount, balance, set_balance,
}
use stellar_rwa_contracts.Token.Transfers.{transfer, settle, move_balance}
use stellar_rwa_contracts.Dividend.State.{
  Env, Dividend, Payment, empty, pay, load, has_claimed, load_supply, find_balance,
  snapshot_balance, require_admin_or_asset_admin, next_id,
}
use stellar_rwa_contracts.Dividend.Creation.{
  contains, check_eligible, store_distribution, create_distribution_deadline,
}
use stellar_rwa_contracts.Dividend.Claims.{
  share, entitlement, claimable, settle_claim, pay_claim, claim,
}
use stellar_rwa_contracts.Dividend.Admin.{initialize}
use stellar_rwa_contracts.Dividend.Calls.{Call, execute, step, run}
use stellar_rwa_contracts.Dividend.Escrow.{owed}
use stellar_rwa_contracts.Wired.Payments.{World, WorldStep, Reached, Reached-covers}

-- The dividend contract is at 7 and the token at 8.
abbrev env : Env
env = record {
  authorized = λ a. not (a == 7);
  sequence = 10;
  this = 7;
  asset_supply = λ _. some (pos 100);
  asset_admin = λ _. some 5;
  carries_out = λ _. true;
}

abbrev host : TokenEnv
host = record {
  authorized = λ _. true;
  sequence = 10;
  is_allowed = λ _ _. some true;
  accepts_ttl = λ _. true;
}

abbrev meta : AssetMetadata
meta = record {
  name = 65 ∷ [];
  symbol = 65 ∷ [];
  asset_type = 66 ∷ [];
  total_supply = pos 500;
  decimals = 2;
  admin = 1;
  compliance_contract = 9;
  asset_description = [];
  valuation = pos 1000;
  paused = false;
  guardian = none;
  pending_admin = none;
}

-- 1 has all of it.
abbrev held : Token
held = record {
  metadata = some meta;
  balances = (1, pos 500) ∷ [];
  allowances = λ _ _. none;
  events = [];
}

abbrev funding_call : Call
funding_call = Call.create_distribution_deadline 1 9 8 (pos 100) ((2, pos 1) ∷ (3, pos 2) ∷ []) 50

abbrev started : Dividend
started = run empty ((env, Call.initialize 1) ∷ [])

abbrev funded : Dividend
funded = run empty ((env, Call.initialize 1) ∷ (env, funding_call) ∷ [])

abbrev claimed : Dividend
claimed = run empty ((env, Call.initialize 1) ∷ (env, funding_call) ∷ (env, Call.claim 1 2) ∷ [])

abbrev into : Payment
into = record { token = 8; from = 1; to = 7; amount = pos 100 }

abbrev out_of : Payment
out_of = record { token = 8; from = 7; to = 2; amount = pos 33 }

abbrev paid_in : Token
paid_in = after held (transfer host 1 7 (pos 100) held)

abbrev paid_out : Token
paid_out = after paid_in (transfer host 7 2 (pos 33) paid_in)

abbrev last : World
last = record { token = paid_out; dividend = claimed }

reached : Reached 7 8 last
unfolding run step execute initialize create_distribution_deadline require_admin_or_asset_admin
    check_eligible contains store_distribution pay next_id claim claimable entitlement load
    load_supply snapshot_balance find_balance has_claimed share pay_claim settle_claim checked_add
    checked_sub checked_mul ◌+ℤ◌ ◌-ℤ◌ ◌*ℤ◌ ◌/ℤ◌ lookup insert transfer settle move_balance metadata
    compliant check_amount balance set_balance
reached =
    let w0 : World = record { token = held; dividend = empty } in
    let w1 : World = record { token = held; dividend = started } in
    let w2 : World = record { token = paid_in; dividend = funded } in
    let r0 : Reached 7 8 w0 =
      Reached.start held (record { started = (meta, refl); no_spender = λ b. refl })
        (omega arith) in
    let r1 : Reached 7 8 w1 =
      Reached.next w0 w1 r0
        (WorldStep.unpaid_call env (Call.initialize 1) w0 refl refl (inl refl)) in
    let r2 : Reached 7 8 w2 =
      Reached.next w1 w2 r1
        (WorldStep.paid_call env funding_call w1 host into paid_in refl refl refl refl refl) in
    Reached.next w2 last r2
      (WorldStep.paid_call env (Call.claim 1 2) w2 host out_of paid_out refl refl refl refl refl)

Reached-covers_example : sum_by (owed 8) last.dividend.dists ≤ℤ balance last.token 7
Reached-covers_example = Reached-covers 7 8 last reached
