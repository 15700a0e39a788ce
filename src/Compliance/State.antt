-- ===== src/Compliance/State.antt =====
-- contracts/compliance/src/lib.rs: the stored data, the errors, the constants and the internal
-- helpers. Extending the lifetime of an entry (`bump_instance`, `extend_ttl`) has no effect on the
-- values.
use stellar_rwa_contracts.Base.{
  ℕ, ◌+◌, ◌-◌, ◌^◌, Bool, true, false, not, Option, none, some, List, [], ◌∷◌, ◌++◌, ltb, leb, ◌==◌,
  if◌then◌else◌, unwrap_or,
}
use stellar_rwa_contracts.Base.Tables.{update}
use stellar_rwa_contracts.Base.Text.{Text}
use stellar_rwa_contracts.Base.Host.{
  Address, Result, ◌>>=◌, ◌>>◌, ok, panic_if, or_panic, or_trap, require_auth,
}

pub data ComplianceStatus : Type 0 where
  approved pending rejected suspended : ComplianceStatus

pub record AllowlistEntry : Type 0 where
  pub address : Address
  pub jurisdiction : Text
  pub expires_at : ℕ

pub record KycRecord : Type 0 where
  pub address : Address
  pub status : ComplianceStatus
  pub jurisdiction : Text
  pub verified_at : ℕ
  pub expires_at : ℕ

pub data Error : Type 0 where
  already_initialized not_initialized record_not_found invalid_expiry unauthorized : Error
  invalid_jurisdiction no_pending_admin not_suspended invalid_holding_period : Error

-- The published events, by topic.
pub data Event : Type 0 where
  init : Address → Event
  approved : Address → Text → ℕ → Text → ℕ → Bool → Event
  suspend reinstate removed : Address → Event
  expired : Address → ℕ → Event
  hldfail : Address → ℕ → ℕ → ℕ → Event
  blockjur unblkjur : Text → Event
  minhld acquired : Address → ℕ → Event
  proposed set_admin : Address → Address → Event
  cancelled : Address → Event

-- The storage under each `DataKey`, and the events, newest first.
pub record Compliance : Type 0 where
  pub admin : Option Address
  pub pending_admin : Option Address
  pub meta : Option (ℕ × ℕ)
  pub pages : ℕ → Option (List Address)
  pub page_of : Address → Option ℕ
  pub count : Option ℕ
  pub records : Address → Option KycRecord
  pub blocked : Text → Option Bool
  pub blocked_list : Option (List Text)
  pub min_holding : Address → Option ℕ
  pub first_acquired : Address → Option ℕ
  pub events : List Event

-- What a call sees of the host: who has authorized it, and the ledger sequence.
pub record Env : Type 0 where
  pub authorized : Address → Bool
  pub sequence : ℕ

abbrev pub allowlist_page_size : ℕ
allowlist_page_size = 200

abbrev pub max_allowlist_page_size : ℕ
max_allowlist_page_size = 200

abbrev pub Outcome : Type 0
Outcome = Result Error Compliance

abbrev pub publish : Event → Compliance → Compliance
publish e s = record s { events = e ∷ s.events }

abbrev pub set_record : Address → Option KycRecord → Compliance → Compliance
set_record a r s = record s { records = update a r s.records }

abbrev pub set_page : ℕ → List Address → Compliance → Compliance
set_page i page s = record s { pages = update i (some page) s.pages }

abbrev pub is_some {ℓ} : {A : Type ℓ} → Option A → Bool
is_some none = false
is_some (some _) = true

abbrev pub is_approved : ComplianceStatus → Bool
is_approved ComplianceStatus.approved = true
is_approved _ = false

abbrev pub is_suspended : ComplianceStatus → Bool
is_suspended ComplianceStatus.suspended = true
is_suspended _ = false

-- A value as a `u32`: an addition that leaves the range panics.
abbrev pub checked_u32 : ℕ → Option ℕ
checked_u32 n = if ltb n (2 ^ 32) then some n else none

unfoldable pub require_admin : Env → Address → Compliance → Result Error (Unit {0})
require_admin env admin s = do
  stored ← or_panic s.admin not_initialized
  require_auth env.authorized admin
  panic_if (not (stored == admin)) unauthorized

unfoldable pub load_record : Address → Compliance → Result Error KycRecord
load_record a s = or_panic (s.records a) record_not_found

unfoldable pub blocked_list : Compliance → List Text
blocked_list s = unwrap_or s.blocked_list []

abbrev pub allowlist_meta : Compliance → ℕ × ℕ
allowlist_meta s = unwrap_or s.meta (0, 0)

-- The entries of a page; an absent page has none.
abbrev pub page_entries : ℕ → Compliance → List Address
page_entries i s = unwrap_or (s.pages i) []

-- The page that the next address goes to, and how many it has.
unfoldable pub next_slot : ℕ × ℕ → Result Error (ℕ × ℕ)
next_slot (page_idx, page_len) =
    if leb allowlist_page_size page_len
    then (or_trap (checked_u32 (page_idx + 1)) >>= λ page_idx. ok (page_idx, 0))
    else ok (page_idx, page_len)

unfoldable pub append_to_allowlist : Address → Compliance → Outcome
unfolding next_slot
append_to_allowlist address s = do
  slot ← next_slot (allowlist_meta s)
  let s = record (set_page slot.0 (page_entries slot.0 s ++ address ∷ []) s) {
    page_of = update address (some slot.0) s.page_of;
    meta = some (slot.0, slot.1 + 1);
  }
  count ← or_trap (checked_u32 (unwrap_or s.count 0 + 1))
  ok (record s { count = some count })

-- The entries of a page that are not `address`.
unfoldable pub without : Address → List Address → List Address
without address [] = []
without address (a ∷ page) =
    let next = without address page in if not (a == address) then a ∷ next else next

unfoldable pub remove_from_allowlist : Address → Compliance → Compliance
unfolding without
remove_from_allowlist address s = elim (s.page_of address) [
  | none ↦ s
  | some page_idx ↦ record (set_page page_idx (without address (page_entries page_idx s)) s) {
    page_of = update address none s.page_of;
    count = some (unwrap_or s.count 0 - 1);
  }
]

-- Before `initialize`.
abbrev pub empty : Compliance
empty = record {
  admin = none;
  pending_admin = none;
  meta = none;
  pages = λ _. none;
  page_of = λ _. none;
  count = none;
  records = λ _. none;
  blocked = λ _. none;
  blocked_list = none;
  min_holding = λ _. none;
  first_acquired = λ _. none;
  events = [];
}
