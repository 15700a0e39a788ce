-- ===== src/Fuzz/ExpiryRuns.antt =====
-- fuzz/fuzz_targets/compliance_expiry.rs: whether its assertions hold.
use stellar_rwa_contracts.Base.{
  ℕ, ◌≡◌, refl, ap, ◌∙◌, Bool, true, false, not, none, some, List, [], ◌∷◌, arith, inl, inr,
  Bool-cases, ltb, leb, ◌==◌, ◌<◌, ◌≤◌, ◌⊎◌, unwrap_or,
}
use stellar_rwa_contracts.Base.Host.{Address, Result-cases, Failure, ok, err, succeeds}
use stellar_rwa_contracts.Compliance.State.{
  Compliance, ComplianceStatus, KycRecord, Error, require_admin, append_to_allowlist, next_slot,
}
use stellar_rwa_contracts.Compliance.Jurisdictions.{normalize_jurisdiction, normalize_bytes}
use stellar_rwa_contracts.Compliance.Records.{add_to_allowlist, approve_entry}
use stellar_rwa_contracts.Compliance.Checks.{has_lapsed}
use stellar_rwa_contracts.Compliance.Admin.{initialize}
use stellar_rwa_contracts.Compliance.Calls.{Call, execute}
use stellar_rwa_contracts.Fuzz.Harness.{mock, client, saturating_add}
use stellar_rwa_contracts.Fuzz.Oracle.{verdict, is_allowed-verdict}
use stellar_rwa_contracts.Fuzz.IsAllowed.{us}
use stellar_rwa_contracts.Fuzz.IsAllowedRuns.{fresh, us-normal, same_refl}
use stellar_rwa_contracts.Fuzz.Expiry.{
  FuzzInput, creation, check_at, check_forever, check_until, check_past, check_future, fuzz_one,
}

abbrev approved_until : ℕ → ℕ → Address → KycRecord
approved_until now expires_at user = record {
  address = user;
  status = ComplianceStatus.approved;
  jurisdiction = us;
  verified_at = now;
  expires_at = expires_at;
}

-- The user is approved at `now` until `expires_at`, and nothing else stands against it.
record Until (now expires_at : ℕ) (user : Address) (s : Compliance) : Type 0 where
  record_is : s.records user ≡ some (approved_until now expires_at user)
  open_jurisdiction : unwrap_or (s.blocked us) false ≡ false
  no_holding : s.min_holding user ≡ none

module _ (at expires_at : ℕ) (user : Address) where
  check_at-passes :
      (now : ℕ) (right : Bool) (s : Compliance)
      → right ≡ not (has_lapsed (mock now) (approved_until at expires_at user))
      → Until at expires_at user s
      → (s' : Compliance) × (check_at now right user s ≡ some s') × Until at expires_at user s'
  unfolding check_at
  check_at-passes now right s r v =
      let o = some (approved_until at expires_at user) in
      let (s', e, w) =
        is_allowed-verdict (mock now) user s us o v.record_is (λ k h. ground arith) us-normal in
      let shown =
        verdict (mock now) o (unwrap_or (s.blocked us) false) (s.min_holding user)
          (s.first_acquired user) in
      let read : shown ≡ right =
        rw (v.open_jurisdiction) (rw (v.no_holding) (rw r (ground arith))) in
      (
        s',
        rw e (rw (same_refl shown right read) refl),
        record {
          record_is = ap (λ g. g user) w.records_are ∙ v.record_is;
          open_jurisdiction = ap (λ g. unwrap_or (g us) false) w.blocked_is ∙ v.open_jurisdiction;
          no_holding = ap (λ g. g user) w.min_holding_is ∙ v.no_holding;
        },
      )

  check_until-passes :
      (creation : ℕ) (offsets : List ℕ) (s : Compliance)
      → 0 < expires_at
      → Until at expires_at user s
      → (s' : Compliance) × (check_until creation expires_at offsets user s ≡ some s')
  unfolding check_until
  check_until-passes creation [] s p v = (s, refl)
  check_until-passes creation (offset ∷ offsets) s p v =
      let now = saturating_add creation offset in
      let (t, e, w) = check_at-passes now (ltb now expires_at) s (ground arith) v in
      let (s', f) = check_until-passes creation offsets t p w in (s', rw e f)

check_forever-passes :
    (at : ℕ) (user : Address) (creation : ℕ) (offsets : List ℕ) (s : Compliance)
    → Until at 0 user s
    → (s' : Compliance) × (check_forever creation offsets user s ≡ some s')
unfolding check_forever
check_forever-passes at user creation [] s v = (s, refl)
check_forever-passes at user creation (offset ∷ offsets) s v =
    let (t, e, w) = check_at-passes at 0 user (saturating_add creation offset) true s refl v in
    let (s', f) = check_forever-passes at user creation offsets t w in (s', rw e f)

until :
    (now expires_at : ℕ) (admin user : Address) (s : Compliance)
    → add_to_allowlist (mock now) admin user us expires_at (fresh admin) ≡ ok s
    → Until now expires_at user s
unfolding add_to_allowlist approve_entry normalize_jurisdiction normalize_bytes append_to_allowlist
    next_slot require_admin
until now expires_at admin user s e = ground arith

accepts :
    (now expires_at : ℕ) (admin user : Address) (f : Failure Error)
    → (expires_at ≡ 0) ⊎ (now < expires_at)
    → add_to_allowlist (mock now) admin user us expires_at (fresh admin) ≡ err f
    → ⊥
unfolding add_to_allowlist approve_entry normalize_jurisdiction normalize_bytes append_to_allowlist
    next_slot require_admin
accepts now expires_at admin user f h e = ground arith

refuses :
    (now expires_at : ℕ) (admin user : Address) (s : Compliance)
    → 0 < expires_at
    → expires_at ≤ now
    → succeeds (add_to_allowlist (mock now) admin user us expires_at s) ≡ false
unfolding add_to_allowlist approve_entry
refuses now expires_at admin user s p q = ground arith

-- An approval by the admin of a new contract.
added :
    (now expires_at : ℕ) (admin user : Address)
    → (expires_at ≡ 0) ⊎ (now < expires_at)
    → (s : Compliance) × (client now (Call.add_to_allowlist admin user us expires_at) (fresh admin)
        ≡ some s)
      × Until now expires_at user s
unfolding client execute
added now expires_at admin user h =
    elim (Result-cases (add_to_allowlist (mock now) admin user us expires_at (fresh admin))) [
      | inl (s, e) ↦ (s, rw e refl, until now expires_at admin user s e)
      | inr (f, e) ↦ absurd (accepts now expires_at admin user f h e)
    ]

target-passes :
    (start : ℕ) (i : FuzzInput) (admin user : Address)
    → (s : Compliance) × (fuzz_one start i admin user ≡ some s)
unfolding fuzz_one check_past check_future client execute initialize
target-passes start i admin user = elim (Bool-cases (i.expires_offset == 0)) [
  | inl q ↦
      let (s, e, v) = added (creation i) 0 admin user (inl refl) in
      let (s', f) = check_forever-passes (creation i) user (creation i) i.check_offsets s v in
      (s', rw q (rw e f))
  | inr q ↦
      let x = saturating_add (creation i) i.expires_offset in
      let pos_x : 0 < x = ground arith in
      elim (Bool-cases (leb x (creation i))) [
        | inl p ↦ (
          fresh admin,
          rw q (
              rw p
                (rw (refuses (creation i) x admin user (fresh admin) pos_x (ground arith)) refl)),
        )
        | inr p ↦
            let (s, e, v) = added (creation i) x admin user (inr (ground arith)) in
            let (s', f) =
              check_until-passes (creation i) x user (creation i) i.check_offsets s pos_x v in
            (s', rw q (rw p (rw e f)))
      ]
]

-- Whatever the state, a call that asks for an expiry in the past passes the assertion.
check_past-passes :
    (now expires_at : ℕ) (admin user : Address) (s : Compliance)
    → 0 < expires_at
    → expires_at ≤ now
    → check_past now expires_at admin user s ≡ some s
unfolding check_past execute
check_past-passes now expires_at admin user s p q =
    rw (refuses now expires_at admin user s p q) refl

-- For every input: a record that never expires is allowed at each of the ledgers that are looked
-- at, one that expires is allowed exactly at those before its expiry, and no call of the target's
-- client panics. The expiry that an input asks for is 0 or later than the ledger, so the target
-- never takes the branch for an expiry in the past; but its assertion, that such an approval is
-- refused, holds in every state of the contract, at every ledger and for every expiry but 0 that is
-- not later.
pub expiry-passes :
    (start : ℕ) (i : FuzzInput) (admin user : Address) (now past : ℕ) (s : Compliance)
    → 0 < past
    → past ≤ now
    → ((s' : Compliance) × (fuzz_one start i admin user ≡ some s'))
      × ((i.expires_offset ≡ 0) ⊎ (creation i < saturating_add (creation i) i.expires_offset))
      × (check_past now past admin user s ≡ some s)
expiry-passes start i admin user now past s p q =
    (target-passes start i admin user, ground arith, check_past-passes now past admin user s p q)
