-- ===== src/Fuzz/IsAllowedRuns.antt =====
-- fuzz/fuzz_targets/compliance_is_allowed.rs: whether its assertions hold.
use stellar_rwa_contracts.Base.{
  ℕ, ◌≡◌, ◌≢◌, refl, ap, ◌∙◌, Bool, true, false, Option, none, some, [], ◌∷◌, arith, inl, inr,
  Bool-cases, ltb, leb, ◌+◌, min, unwrap_or, if◌then◌else◌,
}
use stellar_rwa_contracts.Base.Text.{eq_text}
use stellar_rwa_contracts.Base.Tables.{update}
use stellar_rwa_contracts.Base.Host.{Address, Result-cases, Failure, ok, err}
use stellar_rwa_contracts.Compliance.State.{
  Compliance, ComplianceStatus, KycRecord, Event, Error, empty, publish, require_admin, load_record,
  append_to_allowlist, next_slot,
}
use stellar_rwa_contracts.Compliance.Jurisdictions.{
  normalize_jurisdiction, normalize_bytes, block_jurisdiction,
}
use stellar_rwa_contracts.Compliance.Records.{
  add_to_allowlist, approve_entry, suspend, set_min_holding_period, record_acquisition,
}
use stellar_rwa_contracts.Compliance.Admin.{initialize}
use stellar_rwa_contracts.Compliance.Calls.{execute, step}
use stellar_rwa_contracts.Fuzz.Harness.{same, mock, client}
use stellar_rwa_contracts.Fuzz.Oracle.{held, verdict, is_allowed-verdict}
use stellar_rwa_contracts.Fuzz.IsAllowed.{
  FuzzInput, creation_ledger, us, expires_at, acq_ledger, check_ledger, record_was_created,
  set_record, set_blocked, set_holding, expected, fuzz_one,
}

-- What `is_allowed` reads of a user, and of a stranger.
record Knows (admin user stranger : Address) (o : Option KycRecord) (b : Bool) (m f : Option ℕ)
    (s : Compliance) : Type 0 where
  admin_is : s.admin ≡ some admin
  record_is : s.records user ≡ o
  unknown : s.records stranger ≡ none
  blocked_is : unwrap_or (s.blocked us) false ≡ b
  min_holding_is : s.min_holding user ≡ m
  first_acquired_is : s.first_acquired user ≡ f

abbrev approved_record : FuzzInput → Address → KycRecord
approved_record i user = record {
  address = user;
  status = ComplianceStatus.approved;
  jurisdiction = us;
  verified_at = creation_ledger;
  expires_at = expires_at i;
}

-- The record of the user after the first part.
abbrev made : FuzzInput → Address → Option KycRecord
made i user =
    if record_was_created i
    then some (
        if i.suspended
        then record (approved_record i user) { status = ComplianceStatus.suspended }
        else approved_record i user)
    else none

-- The storage after `initialize`.
abbrev pub fresh : Address → Compliance
fresh admin = record empty { admin = some admin; events = Event.init admin ∷ [] }

module _ (i : FuzzInput) (admin user stranger : Address) (ne : stranger ≢ user) where
  set_record-Knows :
      Knows admin user stranger
        (made i user)
        false
        none
        none
        (set_record i admin user (fresh admin))
  unfolding set_record step execute add_to_allowlist approve_entry normalize_jurisdiction
      normalize_bytes append_to_allowlist next_slot require_admin suspend load_record
  set_record-Knows = ground arith

  block-Knows :
      (o : Option KycRecord) (s s' : Compliance)
      → block_jurisdiction (mock creation_ledger) admin us s ≡ ok s'
      → Knows admin user stranger o false none none s
      → Knows admin user stranger o true none none s'
  unfolding block_jurisdiction normalize_jurisdiction normalize_bytes require_admin eq_text
  block-Knows o s s' h v = record {
    admin_is = ground (arith, v.admin_is);
    record_is = ground (arith, v.record_is);
    unknown = ground (arith, v.unknown);
    blocked_is = ground arith;
    min_holding_is = ground (arith, v.min_holding_is);
    first_acquired_is = ground (arith, v.first_acquired_is);
  }

  blocks :
      (s : Compliance) (f : Failure Error)
      → s.admin ≡ some admin
      → block_jurisdiction (mock creation_ledger) admin us s ≡ err f
      → ⊥
  unfolding block_jurisdiction normalize_jurisdiction normalize_bytes require_admin
  blocks s f a h = ground (arith, a)

  set_blocked-Knows :
      (o : Option KycRecord) (s : Compliance)
      → Knows admin user stranger o false none none s
      → (s' : Compliance) × (set_blocked i admin s ≡ some s')
        × Knows admin user stranger o i.block_jurisdiction none none s'
  unfolding set_blocked client execute
  set_blocked-Knows o s v = elim (Bool-cases i.block_jurisdiction) [
    | inl q ↦ elim (Result-cases (block_jurisdiction (mock creation_ledger) admin us s)) [
      | inl (t, h) ↦ (t, rw q (rw h refl), rw q (block-Knows o s t h v))
      | inr (f, h) ↦ absurd (blocks s f v.admin_is h)
    ]
    | inr q ↦ (s, rw q refl, rw q v)
  ]

  -- The state after the calls that set the holding period.
  abbrev held_state : Compliance → Compliance
  held_state s =
      let n = min i.min_holding_period 2000000 in
      publish (Event.acquired user (acq_ledger i))
        (record (publish (Event.minhld user n)
          (record s { min_holding = update user (some n) s.min_holding })) {
            first_acquired = update user (some (acq_ledger i)) s.first_acquired;
          })

  set_holding-Knows :
      (o : Option KycRecord) (b : Bool) (s : Compliance)
      → Knows admin user stranger o b none none s
      → (s' : Compliance) × (set_holding i admin user s ≡ some s')
        × ((m : Option ℕ) × (f : Option ℕ) × Knows admin user stranger o b m f s'
            × (held (mock (check_ledger i)) m f ≡ (
                if ltb 0 i.min_holding_period
                then leb (acq_ledger i + min i.min_holding_period 2000000) (check_ledger i)
                else true)))
  unfolding set_holding client execute set_min_holding_period record_acquisition require_admin
  set_holding-Knows o b s v = elim (Bool-cases (ltb 0 i.min_holding_period)) [
    | inr q ↦ (s, rw q refl, (none, none, v, rw q refl))
    | inl q ↦ (
      held_state s,
      rw q (ground (arith, v.admin_is, v.first_acquired_is)),
      (
        some (min i.min_holding_period 2000000),
        some (acq_ledger i),
        ground (arith, v.admin_is, v.record_is, v.unknown, v.blocked_is),
        rw q (ground arith),
      ),
    )
  ]

pub us-normal : normalize_jurisdiction us ≡ ok us
unfolding normalize_jurisdiction normalize_bytes
us-normal = refl

made-jurisdiction :
    (i : FuzzInput) (user : Address) (r : KycRecord) → made i user ≡ some r → r.jurisdiction ≡ us
made-jurisdiction i user r h = ground arith

-- What the contract answers is what the target expects.
verdict-expected :
    (i : FuzzInput) (user : Address) (m f : Option ℕ)
    → held (mock (check_ledger i)) m f ≡ (
        if ltb 0 i.min_holding_period
        then leb (acq_ledger i + min i.min_holding_period 2000000) (check_ledger i)
        else true)
    → verdict (mock (check_ledger i)) (made i user) i.block_jurisdiction m f ≡ expected i
verdict-expected i user m f h = elim (Bool-cases (record_was_created i)) [
  | inr q ↦ rw q refl
  | inl q ↦ elim (Bool-cases i.suspended) [ inl p ↦ rw (q, p) refl | inr p ↦ rw (q, p) (rw h refl) ]
]

pub same_refl : (b c : Bool) → b ≡ c → same b c ≡ true
same_refl b c h = ground arith

-- For every input, where the stranger is another address than the user, no assertion of the target
-- fails and no call of its client panics: the answer of `is_allowed` is the expected one.
pub oracle-passes :
    (start : ℕ) (i : FuzzInput) (admin user stranger : Address)
    → stranger ≢ user
    → (s : Compliance) × (fuzz_one start i admin user stranger ≡ some s)
unfolding fuzz_one client execute initialize
oracle-passes start i admin user stranger ne =
    let s1 = set_record i admin user (fresh admin) in
    let (s2, e2, k2) =
      set_blocked-Knows i admin user stranger ne (made i user) s1
        (set_record-Knows i admin user stranger ne) in
    let (s3, e3, (m, f, k3, h)) =
      set_holding-Knows i admin user stranger ne (made i user) i.block_jurisdiction s2 k2 in
    let env = mock (check_ledger i) in
    let (s4, e4, w) =
      is_allowed-verdict env user s3 us (made i user) k3.record_is (made-jurisdiction i user)
        us-normal in
    let (s5, e5, z) =
      is_allowed-verdict env stranger s4 us none (ap (λ g. g stranger) w.records_are ∙ k3.unknown)
        (λ r q. absurd (ground arith)) us-normal in
    let shown =
      verdict env (made i user) (unwrap_or (s3.blocked us) false) (s3.min_holding user)
        (s3.first_acquired user) in
    let read : shown ≡ expected i =
      rw (k3.blocked_is)
        (rw (k3.min_holding_is) (rw (k3.first_acquired_is) (verdict-expected i user m f h))) in
    (s5, rw e2 (rw e3 (rw e4 (rw (same_refl shown (expected i) read) (rw e5 refl)))))
