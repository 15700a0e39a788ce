-- ===== src/Fuzz/Tests.antt =====
-- fuzz/fuzz_targets: the targets on concrete inputs.
use stellar_rwa_contracts.Base.{
  ◌⊎◌, ◌<◌, ℕ, ◌≡◌, refl, Bool, true, false, none, some, List, [], ◌∷◌, arith, ◌+◌, ltb, ◌==◌,
  if◌then◌else◌,
}
use stellar_rwa_contracts.Base.Int.{ℤ, pos}
use stellar_rwa_contracts.Base.Host.{Address}
use stellar_rwa_contracts.Base.Dict.{lookup}
use stellar_rwa_contracts.Compliance.State.{Compliance, empty}
use stellar_rwa_contracts.Token.State.{Token, AssetMetadata, balance, Env}
use stellar_rwa_contracts.Token.Transfers.{transfer_batch as contract_batch}
use stellar_rwa_contracts.Fuzz.Race.{Op, Race, fuzz_one as fuzz_race}
use stellar_rwa_contracts.Fuzz.RaceRuns.{fuzz_one-passes}
use stellar_rwa_contracts.Fuzz.IsAllowed.{FuzzInput as AllowedInput, fuzz_one as fuzz_is_allowed}
use stellar_rwa_contracts.Fuzz.IsAllowedRuns.{oracle-passes}
use stellar_rwa_contracts.Fuzz.Expiry.{
  FuzzInput as ExpiryInput, check_past, fuzz_one as fuzz_expiry,
}
use stellar_rwa_contracts.Fuzz.ExpiryRuns.{expiry-passes}
use stellar_rwa_contracts.Fuzz.Batch.{FuzzEntry, fuzz_one as fuzz_batch}
use stellar_rwa_contracts.Fuzz.BatchRuns.{batch-passes}
use stellar_rwa_contracts.Fuzz.Mirror.{EdgeAmount, Input, Ledger, transfer_batch}
use stellar_rwa_contracts.Fuzz.Conserve.{ledger_of, check_one}
use stellar_rwa_contracts.Fuzz.MirrorRuns.{Explained, sender, batch, check_one-passes}
use stellar_rwa_contracts.Fuzz.Refines.{Agree, placed, mirrors-transfer_batch}
use stellar_rwa_contracts.Fuzz.Arithmetic.{Holder, fuzz_one as fuzz_arithmetic}
use stellar_rwa_contracts.Fuzz.ArithmeticRuns.{arithmetic-passes}

abbrev users : ℕ → Address
users i = 10 + i

abbrev ops : List Op
ops =
    Op.approve 0 0
    ∷ Op.approve 1 3
    ∷ Op.block_jur 3
    ∷ Op.suspend 0
    ∷ Op.advance_ledger 50
    ∷ Op.reinstate 0
    ∷ Op.unblock_jur 3
    ∷ Op.check
    ∷ []

fuzz_one-passes_example : (c : Race) × (fuzz_race 7 1 users ops ≡ some c)
fuzz_one-passes_example = fuzz_one-passes 7 1 users ops

abbrev held_input : AllowedInput
held_input = record {
  has_record = true;
  suspended = false;
  expires_after = 5000;
  block_jurisdiction = false;
  min_holding_period = 100;
  acquisition_offset = 10;
  check_offset = 60;
}

oracle-passes_example : (s : Compliance) × (fuzz_is_allowed 0 held_input 1 2 3 ≡ some s)
oracle-passes_example = oracle-passes 0 held_input 1 2 3 (omega arith)

abbrev short_input : ExpiryInput
short_input = record {
  creation_ledger = 100;
  expires_offset = 20;
  check_offsets = 0 ∷ 19 ∷ 20 ∷ 21 ∷ [];
}

expiry-passes_example :
    ((s : Compliance) × (fuzz_expiry 0 short_input 1 2 ≡ some s))
    × ((short_input.expires_offset ≡ 0) ⊎ (100 < 120))
    × (check_past 100 100 1 2 empty ≡ some empty)
expiry-passes_example = expiry-passes 0 short_input 1 2 100 100 empty (omega arith) (omega arith)

abbrev entries : List FuzzEntry
entries =
    record { jurisdiction_idx = 3; expires_offset = pos 0 }
    ∷ record { jurisdiction_idx = 12; expires_offset = pos 40 }
    ∷ []

batch-passes_example : (s : Compliance) × (fuzz_batch 0 1 users entries ≡ some s)
batch-passes_example = batch-passes 0 1 users entries (λ i j e. omega (arith, e)) (omega arith)

abbrev batch_input : Input
batch_input = record {
  paused = false;
  compliant = λ i. not_seven i;
  balances = λ i. 100 + i;
  from = 9;
  transfers =
      record { to = 2; amount = EdgeAmount.one }
      ∷ record { to = 1; amount = EdgeAmount.raw (pos 60) }
      ∷ record { to = 11; amount = EdgeAmount.raw (pos 40) }
      ∷ [];
}
  where
    not_seven : ℕ → Bool
    not_seven i = ltb i 7

check_one-passes_example :
    (check_one batch_input ≡ some tt)
    × Explained
        (ledger_of batch_input)
        (sender batch_input)
        (batch batch_input)
        (transfer_batch (ledger_of batch_input) (sender batch_input) (batch batch_input))
check_one-passes_example = check_one-passes batch_input

abbrev meta : AssetMetadata
meta = record {
  name = 65 ∷ [];
  symbol = 65 ∷ [];
  asset_type = 65 ∷ [];
  total_supply = pos 30;
  decimals = 0;
  admin = 1;
  compliance_contract = 9;
  asset_description = [];
  valuation = pos 1000;
  paused = false;
  guardian = none;
  pending_admin = none;
}

abbrev token : Token
token = record {
  metadata = some meta;
  balances = (10, pos 30) ∷ [];
  allowances = λ _ _. none;
  events = [];
}

abbrev env : Env
env = record {
  authorized = λ a. a == 10;
  sequence = 0;
  is_allowed = λ c a. some (ltb a 13);
  accepts_ttl = λ _. true;
}

abbrev ledger : Ledger
ledger = record {
  balances = λ i. if i == 0 then pos 30 else pos 0;
  compliant = λ i. ltb (users i) 13;
  paused = false;
}

abbrev transfers : List (ℕ × ℤ)
transfers = (1, pos 10) ∷ (0, pos 5) ∷ (2, pos 20) ∷ []

mirrors-transfer_batch_example :
    Agree users
      (contract_batch env 10 (placed users transfers) token)
      (transfer_batch ledger 0 transfers)
unfolding balance lookup
mirrors-transfer_batch_example =
    mirrors-transfer_batch env users (λ i j e. omega (arith, e)) 0 transfers token meta ledger refl
      refl refl (λ i. refl) (λ i. ground arith) (λ i. ground arith)

abbrev holders : List Holder
holders = record { balance = 7 } ∷ record { balance = 0 } ∷ record { balance = 2 } ∷ []

arithmetic-passes_example :
    fuzz_arithmetic (record { total_amount_raw = 100; holders = holders }) ≡ some tt
arithmetic-passes_example =
    arithmetic-passes (record { total_amount_raw = 100; holders = holders }) (omega arith)
      (omega arith, (omega arith, (omega arith, tt)))
