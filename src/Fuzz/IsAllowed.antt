-- ===== src/Fuzz/IsAllowed.antt =====
-- fuzz/fuzz_targets/compliance_is_allowed.rs
use stellar_rwa_contracts.Base.{
  ℕ, ◌+◌, min, Bool, true, not, ◌&&◌, ◌||◌, Option, some, [], ◌∷◌, ltb, leb, ◌==◌, if◌then◌else◌,
}
use stellar_rwa_contracts.Base.Text.{Text}
use stellar_rwa_contracts.Base.Host.{Address}
use stellar_rwa_contracts.Compliance.State.{Compliance, empty}
use stellar_rwa_contracts.Compliance.Checks.{is_allowed}
use stellar_rwa_contracts.Compliance.Calls.{Call, step}
use stellar_rwa_contracts.Fuzz.Harness.{
  ◌>>=◌, ◌>>◌, assert, same, mock, expect, client, saturating_add,
}

pub record FuzzInput : Type 0 where
  pub has_record : Bool
  pub suspended : Bool
  pub expires_after : ℕ
  pub block_jurisdiction : Bool
  pub min_holding_period : ℕ
  pub acquisition_offset : ℕ
  pub check_offset : ℕ

abbrev pub creation_ledger : ℕ
creation_ledger = 1000

abbrev pub us : Text
us = 85 ∷ 83 ∷ []

abbrev pub expires_at : FuzzInput → ℕ
expires_at i =
    if i.expires_after == 0 then 0 else saturating_add creation_ledger (min i.expires_after 1000000)

abbrev pub acq_ledger : FuzzInput → ℕ
acq_ledger i = saturating_add creation_ledger (min i.acquisition_offset 1000000)

abbrev pub check_ledger : FuzzInput → ℕ
check_ledger i = saturating_add creation_ledger (min i.check_offset 2000000)

-- Whether `add_to_allowlist` is called.
abbrev pub record_was_created : FuzzInput → Bool
record_was_created i = i.has_record && (expires_at i == 0 || ltb creation_ledger (expires_at i))

-- The record of the user, by two calls with `try_`.
unfoldable pub set_record : FuzzInput → Address → Address → Compliance → Compliance
unfolding step
set_record i admin user s =
    if record_was_created i
    then (let s =
          step s (mock creation_ledger, Call.add_to_allowlist admin user us (expires_at i)) in
        if i.suspended then step s (mock creation_ledger, Call.suspend admin user) else s)
    else s

unfoldable pub set_blocked : FuzzInput → Address → Compliance → Option Compliance
unfolding client
set_blocked i admin s =
    if i.block_jurisdiction
    then client creation_ledger (Call.block_jurisdiction admin us) s
    else some s

unfoldable pub set_holding : FuzzInput → Address → Address → Compliance → Option Compliance
unfolding client
set_holding i admin user s =
    if ltb 0 i.min_holding_period
    then (client creation_ledger
          (Call.set_min_holding_period admin user (min i.min_holding_period 2000000)) s
        >>= client (acq_ledger i) (Call.record_acquisition admin user))
    else some s

abbrev pub holding_ok : FuzzInput → Bool
holding_ok i =
    if record_was_created i && ltb 0 i.min_holding_period
    then leb (acq_ledger i + min i.min_holding_period 2000000) (check_ledger i)
    else true

abbrev pub expected : FuzzInput → Bool
expected i =
    (record_was_created i && not i.suspended)
    && not
        (record_was_created i && (not (expires_at i == 0) && leb (expires_at i) (check_ledger i)))
    && not i.block_jurisdiction
    && holding_ok i

-- `start` is the ledger sequence of a new test host.
unfoldable pub fuzz_one : ℕ → FuzzInput → Address → Address → Address → Option Compliance
unfolding client set_record set_blocked set_holding is_allowed
fuzz_one start i admin user stranger = do
  s ← client start (Call.initialize admin) empty
  s ← set_blocked i admin (set_record i admin user s)
  s ← set_holding i admin user s
  actual ← expect (is_allowed (mock (check_ledger i)) user s)
  assert (same actual.0 (expected i))
  unknown ← expect (is_allowed (mock (check_ledger i)) stranger actual.1)
  assert (not unknown.0)
  some unknown.1
