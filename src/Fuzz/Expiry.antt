-- ===== src/Fuzz/Expiry.antt =====
-- fuzz/fuzz_targets/compliance_expiry.rs
use stellar_rwa_contracts.Base.{
  ℕ, ◌-◌, ◌^◌, min, Bool, true, not, Option, some, List, [], ◌∷◌, ltb, leb, ◌==◌, if◌then◌else◌,
}
use stellar_rwa_contracts.Base.Host.{Address, succeeds}
use stellar_rwa_contracts.Compliance.State.{Compliance, empty}
use stellar_rwa_contracts.Compliance.Checks.{is_allowed}
use stellar_rwa_contracts.Compliance.Calls.{Call, execute}
use stellar_rwa_contracts.Fuzz.Harness.{
  ◌>>=◌, ◌>>◌, assert, same, mock, expect, client, saturating_add,
}
use stellar_rwa_contracts.Fuzz.IsAllowed.{us}

pub record FuzzInput : Type 0 where
  pub creation_ledger : ℕ
  pub expires_offset : ℕ
  pub check_offsets : List ℕ

-- `u32::MAX - 1_000_000` at most.
abbrev pub creation : FuzzInput → ℕ
creation i = min i.creation_ledger (2 ^ 32 - 1 - 1000000)

-- One round of a loop over the offsets: the answer must be `right`.
unfoldable pub check_at : ℕ → Bool → Address → Compliance → Option Compliance
unfolding is_allowed
check_at now right user s = do
  answer ← expect (is_allowed (mock now) user s)
  assert (same answer.0 right)
  some answer.1

-- The loop of a record that never expires.
unfoldable pub check_forever : ℕ → List ℕ → Address → Compliance → Option Compliance
unfolding check_at
check_forever creation [] user s = some s
check_forever creation (offset ∷ offsets) user s =
    check_at (saturating_add creation offset) true user s >>= check_forever creation offsets user

-- The loop of a record that expires: its two assertions are one, by the branch.
unfoldable pub check_until : ℕ → ℕ → List ℕ → Address → Compliance → Option Compliance
unfolding check_at
check_until creation expires_at [] user s = some s
check_until creation expires_at (offset ∷ offsets) user s =
    let now = saturating_add creation offset in
    check_at now (ltb now expires_at) user s >>= check_until creation expires_at offsets user

-- An expiry in the past must be refused.
unfoldable pub check_past : ℕ → ℕ → Address → Address → Compliance → Option Compliance
unfolding execute
check_past creation expires_at admin user s =
    (assert (
        not (succeeds (execute (mock creation) (Call.add_to_allowlist admin user us expires_at) s)))
      >> some s)

unfoldable pub check_future : FuzzInput → ℕ → Address → Address → Compliance → Option Compliance
unfolding client check_until
check_future i expires_at admin user s =
    (client (creation i) (Call.add_to_allowlist admin user us expires_at) s
      >>= check_until (creation i) expires_at i.check_offsets user)

-- `start` is the ledger sequence of a new test host.
unfoldable pub fuzz_one : ℕ → FuzzInput → Address → Address → Option Compliance
unfolding client check_forever check_past check_future
fuzz_one start i admin user = do
  s ← client start (Call.initialize admin) empty
  let expires_at = saturating_add (creation i) i.expires_offset
  (if i.expires_offset == 0
      then client (creation i) (Call.add_to_allowlist admin user us 0) s
        >>= check_forever (creation i) i.check_offsets user
      else if leb expires_at (creation i)
      then check_past (creation i) expires_at admin user s
      else check_future i expires_at admin user s)
