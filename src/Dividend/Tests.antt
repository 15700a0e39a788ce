-- ===== src/Dividend/Tests.antt =====
-- contracts/dividend/src/lib.rs: the dividend contract on concrete states.
use stellar_rwa_contracts.Base.{
  ◌≡◌, refl, some, true, false, not, List, [], ◌∷◌, ◌++◌, arith, ◌==◌, ◌↔◌,
}
use stellar_rwa_contracts.Base.Int.{
  ℤ, pos, ◌+ℤ◌, ◌-ℤ◌, ◌*ℤ◌, ◌/ℤ◌, ◌≤ℤ◌, ◌<ℤ◌, checked_add, checked_sub, checked_mul,
}
use stellar_rwa_contracts.Base.Dict.{lookup, insert}
use stellar_rwa_contracts.Base.Host.{succeeds, state_of}
use stellar_rwa_contracts.Dividend.State.{
  Env, Dividend, Distribution, Snapshot, empty, pay, load, has_claimed, load_supply, find_balance,
  snapshot_balance, require_admin, require_admin_or_asset_admin, next_id,
}
use stellar_rwa_contracts.Dividend.Creation.{
  contains, check_eligible, store_distribution, create_distribution_deadline,
}
use stellar_rwa_contracts.Dividend.Claims.{
  share, entitlement, claimable, settle_claim, pay_claim, claim,
}
use stellar_rwa_contracts.Dividend.Recovery.{reclaim_unclaimed, cancel_distribution}
use stellar_rwa_contracts.Dividend.Admin.{initialize}
use stellar_rwa_contracts.Dividend.Calls.{Call, execute, step, run}
use stellar_rwa_contracts.Dividend.Escrow.{Solvent}
use stellar_rwa_contracts.Dividend.Solvency.{run-empty-Solvent}
use stellar_rwa_contracts.Dividend.Funding.{Tracked}
use stellar_rwa_contracts.Dividend.Histories.{Stored, run-empty-Tracked}
use stellar_rwa_contracts.Dividend.ClaimEffect.{MayClaim, Claimed, claim-succeeds, claim-Claimed}
use stellar_rwa_contracts.Dividend.Dust.{claimable_by_all, claimable-within-total}
use stellar_rwa_contracts.Dividend.Finality.{claim-once}
use stellar_rwa_contracts.Dividend.Closing.{PaysNothing, completed-final}
use stellar_rwa_contracts.Dividend.Recoveries.{MayRecover, Recovered, expired, reclaim-Recovered}
use stellar_rwa_contracts.Dividend.Consent.{Governed, step-Governed}
use stellar_rwa_contracts.Dividend.CreateEffect.{MayCreate, create-succeeds, create-Stored}

-- The contract is at 7. Everybody but the contract has authorized the call, the asset token
-- answers with a supply of 100 and the admin 5, and payments are carried out.
abbrev env : Env
env = record {
  authorized = λ a. not (a == 7);
  sequence = 10;
  this = 7;
  asset_supply = λ _. some (pos 100);
  asset_admin = λ _. some 5;
  carries_out = λ _. true;
}

-- The same, after the deadline.
abbrev late : Env
late = record env { sequence = 60 }

abbrev holders : Snapshot
holders = (2, pos 1) ∷ (3, pos 2) ∷ []

-- 1 distributes 100 units of the token 8 to the holders of the asset 9, by the ledger 50.
abbrev history : List (Env × Call)
history =
    (env, Call.initialize 1)
    ∷ (env, Call.create_distribution_deadline 1 9 8 (pos 100) holders 50)
    ∷ []

-- 2 has claimed 33 units.
abbrev claimed_history : List (Env × Call)
claimed_history = history ++ (env, Call.claim 1 2) ∷ []

abbrev dist : Distribution
dist = record {
  id = 1;
  asset_token = 9;
  payment_token = 8;
  total_amount = pos 100;
  distributed = pos 0;
  created_at = 10;
  completed = false;
  deadline = 50;
  cancelled = false;
}

abbrev open_state : Dividend
open_state = run empty history

abbrev claimed_state : Dividend
claimed_state = run empty claimed_history

open-Tracked : Tracked open_state
open-Tracked = run-empty-Tracked history

claimed-Tracked : Tracked claimed_state
claimed-Tracked = run-empty-Tracked claimed_history

run-empty-Tracked_example : Tracked claimed_state
run-empty-Tracked_example = run-empty-Tracked claimed_history

run-empty-Solvent_example : Solvent 7 claimed_state
run-empty-Solvent_example =
    run-empty-Solvent 7 claimed_history (refl, refl, (refl, refl, (refl, refl, tt)))

claim-succeeds_example :
    (succeeds (claim env 1 2 open_state) ≡ true) ↔ ((x : ℤ) × MayClaim env 1 2 x dist open_state)
unfolding run step execute initialize create_distribution_deadline require_admin_or_asset_admin
    check_eligible contains store_distribution pay next_id claim claimable entitlement load
    load_supply snapshot_balance find_balance has_claimed share pay_claim settle_claim
    reclaim_unclaimed cancel_distribution require_admin checked_add checked_sub checked_mul ◌+ℤ◌
    ◌-ℤ◌ ◌*ℤ◌ ◌/ℤ◌ lookup insert
claim-succeeds_example = claim-succeeds env 1 2 dist open_state open-Tracked refl refl

claim-Claimed_example : (x : ℤ) × Claimed env 1 2 x dist open_state claimed_state
unfolding run step execute initialize create_distribution_deadline require_admin_or_asset_admin
    check_eligible contains store_distribution pay next_id claim claimable entitlement load
    load_supply snapshot_balance find_balance has_claimed share pay_claim settle_claim
    reclaim_unclaimed cancel_distribution require_admin checked_add checked_sub checked_mul ◌+ℤ◌
    ◌-ℤ◌ ◌*ℤ◌ ◌/ℤ◌ lookup insert
claim-Claimed_example = claim-Claimed env 1 2 dist open_state claimed_state open-Tracked refl refl

abbrev partly : Distribution
partly = record dist { distributed = pos 33 }

claimable-within-total_example :
    (pos 33 +ℤ pos 66 ≤ℤ pos 100) × (pos 100 <ℤ pos 33 +ℤ pos 66 +ℤ pos 2)
unfolding run step execute initialize create_distribution_deadline require_admin_or_asset_admin
    check_eligible contains store_distribution pay next_id claim claimable entitlement load
    load_supply snapshot_balance find_balance has_claimed share pay_claim settle_claim
    reclaim_unclaimed cancel_distribution require_admin checked_add checked_sub checked_mul ◌+ℤ◌
    ◌-ℤ◌ ◌*ℤ◌ ◌/ℤ◌ lookup insert claimable_by_all
claimable-within-total_example =
    claimable-within-total claimed_state 1 partly holders 3 (pos 66) claimed-Tracked refl refl refl
      refl (omega arith) refl

claim-once_example :
    succeeds (claim env 1 2 (run claimed_state ((env, Call.claim 1 3) ∷ []))) ≡ false
unfolding run step execute initialize create_distribution_deadline require_admin_or_asset_admin
    check_eligible contains store_distribution pay next_id claim claimable entitlement load
    load_supply snapshot_balance find_balance has_claimed share pay_claim settle_claim
    reclaim_unclaimed cancel_distribution require_admin checked_add checked_sub checked_mul ◌+ℤ◌
    ◌-ℤ◌ ◌*ℤ◌ ◌/ℤ◌ lookup insert
claim-once_example =
    claim-once env env 1 2 open_state claimed_state ((env, Call.claim 1 3) ∷ []) refl

abbrev reclaimed_history : List (Env × Call)
reclaimed_history = claimed_history ++ (late, Call.reclaim_unclaimed 1 1) ∷ []

abbrev reclaimed_state : Dividend
reclaimed_state = run empty reclaimed_history

abbrev reclaimed : Distribution
reclaimed = record dist { distributed = pos 100; completed = true }

completed-final_example :
    (lookup 1 (run reclaimed_state ((env, Call.claim 1 3) ∷ [])).dists ≡ some reclaimed)
    × PaysNothing env 1 3 (run reclaimed_state ((env, Call.claim 1 3) ∷ []))
unfolding run step execute initialize create_distribution_deadline require_admin_or_asset_admin
    check_eligible contains store_distribution pay next_id claim claimable entitlement load
    load_supply snapshot_balance find_balance has_claimed share pay_claim settle_claim
    reclaim_unclaimed cancel_distribution require_admin checked_add checked_sub checked_mul ◌+ℤ◌
    ◌-ℤ◌ ◌*ℤ◌ ◌/ℤ◌ lookup insert
completed-final_example =
    completed-final reclaimed_state 1 reclaimed ((env, Call.claim 1 3) ∷ []) env 3
      (run-empty-Tracked reclaimed_history) refl refl

reclaim-Recovered_example :
    (pos 67 ≡ pos 100 -ℤ pos 33)
    × (pos 0 <ℤ pos 67)
    × (expired late partly ≡ true)
    × MayRecover late 1 (pos 67) partly claimed_state
    × Recovered late 1 1 (pos 67) partly reclaimed claimed_state reclaimed_state
unfolding run step execute initialize create_distribution_deadline require_admin_or_asset_admin
    check_eligible contains store_distribution pay next_id claim claimable entitlement load
    load_supply snapshot_balance find_balance has_claimed share pay_claim settle_claim
    reclaim_unclaimed cancel_distribution require_admin checked_add checked_sub checked_mul ◌+ℤ◌
    ◌-ℤ◌ ◌*ℤ◌ ◌/ℤ◌ lookup insert
reclaim-Recovered_example =
    reclaim-Recovered late 1 1 partly claimed_state refl (pos 67) reclaimed_state refl

step-Governed_example : Governed env open_state (step open_state (env, Call.claim 1 2))
step-Governed_example = step-Governed env (Call.claim 1 2) open_state

abbrev started : Dividend
started = run empty ((env, Call.initialize 1) ∷ [])

create-succeeds_example :
    (succeeds (state_of (create_distribution_deadline env 5 9 8 (pos 100) holders 50 started))
      ≡ true)
    ↔ MayCreate env 5 9 8 (pos 100) holders 50 started
create-succeeds_example = create-succeeds env 5 9 8 (pos 100) holders 50 started

create-Stored_example :
    Stored env 9 8 (pos 100) holders 50 1 (pos 3) started open_state
    × (open_state.payments
        ≡ (record { token = 8; from = 1; to = 7; amount = pos 100 }) ∷ started.payments)
unfolding run step execute initialize create_distribution_deadline require_admin_or_asset_admin
    check_eligible contains store_distribution pay next_id claim claimable entitlement load
    load_supply snapshot_balance find_balance has_claimed share pay_claim settle_claim
    reclaim_unclaimed cancel_distribution require_admin checked_add checked_sub checked_mul ◌+ℤ◌
    ◌-ℤ◌ ◌*ℤ◌ ◌/ℤ◌ lookup insert
create-Stored_example = create-Stored env 1 9 8 (pos 100) holders 50 1 started open_state refl
