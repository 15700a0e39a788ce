-- ===== src/Compliance/Records.antt =====
-- contracts/compliance/src/lib.rs: the calls that change the KYC records and the holding periods.
use stellar_rwa_contracts.Base.{
  ℕ, false, not, ◌&&◌, Option, none, some, List, [], ◌∷◌, leb, ◌==◌, if◌then◌else◌,
}
use stellar_rwa_contracts.Base.Tables.{update}
use stellar_rwa_contracts.Base.Text.{Text}
use stellar_rwa_contracts.Base.Host.{Address, ◌>>=◌, ◌>>◌, ok, panic_if}
use stellar_rwa_contracts.Compliance.State.{
  Env, Compliance, ComplianceStatus, AllowlistEntry, KycRecord, Event, Outcome, publish, set_record,
  is_some, is_suspended, require_admin, load_record, append_to_allowlist, remove_from_allowlist,
  invalid_expiry, not_suspended, record_not_found,
}
use stellar_rwa_contracts.Compliance.Jurisdictions.{normalize_jurisdiction}

-- The event of an approval, with what was recorded before.
abbrev pub approval : Address → Text → ℕ → Option KycRecord → Event
approval address jurisdiction expires_at none =
    Event.approved address jurisdiction expires_at jurisdiction 0 false
approval address jurisdiction expires_at (some r) =
    Event.approved address jurisdiction expires_at r.jurisdiction r.expires_at
      (is_suspended r.status)

-- A new address gets a slot on a page.
abbrev pub slot_for : Option KycRecord → Address → Compliance → Outcome
slot_for prev address s = if not (is_some prev) then append_to_allowlist address s else ok s

-- What `add_to_allowlist` and the body of the loop of `add_to_allowlist_batch` share.
unfoldable pub approve_entry : Env → AllowlistEntry → Compliance → Outcome
unfolding normalize_jurisdiction append_to_allowlist
approve_entry env entry s = do
  let now = env.sequence
  panic_if (not (entry.expires_at == 0) && leb entry.expires_at now) invalid_expiry
  jurisdiction ← normalize_jurisdiction entry.jurisdiction
  let prev = s.records entry.address
  let new : KycRecord = record {
    address = entry.address;
    status = ComplianceStatus.approved;
    jurisdiction = jurisdiction;
    verified_at = now;
    expires_at = entry.expires_at;
  }
  s ← slot_for prev entry.address (set_record entry.address (some new) s)
  ok (publish (approval entry.address jurisdiction entry.expires_at prev) s)

unfoldable pub add_to_allowlist : Env → Address → Address → Text → ℕ → Compliance → Outcome
unfolding require_admin approve_entry
add_to_allowlist env admin address jurisdiction expires_at s = do
  require_admin env admin s
  approve_entry env
      (record { address = address; jurisdiction = jurisdiction; expires_at = expires_at }) s

unfoldable pub approve_entries : Env → List AllowlistEntry → Compliance → Outcome
approve_entries env [] s = ok s
approve_entries env (e ∷ es) s = approve_entry env e s >>= λ s'. approve_entries env es s'

unfoldable pub add_to_allowlist_batch : Env → Address → List AllowlistEntry → Compliance → Outcome
unfolding require_admin
add_to_allowlist_batch env admin entries s = do
  require_admin env admin s
  approve_entries env entries s

unfoldable pub suspend : Env → Address → Address → Compliance → Outcome
unfolding require_admin load_record
suspend env admin address s = do
  require_admin env admin s
  found ← load_record address s
  let changed : KycRecord = record found { status = ComplianceStatus.suspended }
  ok (publish (Event.suspend address) (set_record address (some changed) s))

unfoldable pub reinstate : Env → Address → Address → Compliance → Outcome
unfolding require_admin load_record
reinstate env admin address s = do
  require_admin env admin s
  found ← load_record address s
  panic_if (not (is_suspended found.status)) not_suspended
  let changed : KycRecord = record found { status = ComplianceStatus.approved }
  ok (publish (Event.reinstate address) (set_record address (some changed) s))

unfoldable pub remove : Env → Address → Address → Compliance → Outcome
unfolding require_admin remove_from_allowlist
remove env admin address s = do
  require_admin env admin s
  panic_if (not (is_some (s.records address))) record_not_found
  let s = remove_from_allowlist address (set_record address none s)
  ok (publish (Event.removed address) s)

unfoldable pub set_min_holding_period : Env → Address → Address → ℕ → Compliance → Outcome
unfolding require_admin
set_min_holding_period env admin holder min_ledgers s = do
  require_admin env admin s
  let period = if min_ledgers == 0 then none else some min_ledgers
  ok (
      publish (Event.minhld holder min_ledgers)
        (record s { min_holding = update holder period s.min_holding }))

unfoldable pub record_acquisition : Env → Address → Address → Compliance → Outcome
unfolding require_admin
record_acquisition env admin holder s = do
  require_admin env admin s
  (if not (is_some (s.first_acquired holder))
      then ok (
          publish (Event.acquired holder env.sequence)
            (record s { first_acquired = update holder (some env.sequence) s.first_acquired }))
      else ok s)

unfoldable pub get_record : Address → Compliance → Option KycRecord
get_record address s = s.records address

abbrev status : Option KycRecord → Option ComplianceStatus
status none = none
status (some r) = some r.status

unfoldable pub status_of : Address → Compliance → Option ComplianceStatus
unfolding get_record
status_of address s = status (get_record address s)

unfoldable pub get_min_holding_period : Address → Compliance → Option ℕ
get_min_holding_period holder s = s.min_holding holder

unfoldable pub get_first_acquired_ledger : Address → Compliance → Option ℕ
get_first_acquired_ledger holder s = s.first_acquired holder
