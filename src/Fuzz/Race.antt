-- ===== src/Fuzz/Race.antt =====
-- fuzz/fuzz_targets/compliance_jurisdiction_race.rs
use stellar_rwa_contracts.Base.{
  ℕ, ◌%◌, Bool, true, false, not, ◌&&◌, ◌||◌, Option, none, some, List, [], ◌∷◌, ◌==◌,
  if◌then◌else◌, length,
}
use stellar_rwa_contracts.Base.Tables.{update}
use stellar_rwa_contracts.Base.Text.{Text, eq_text}
use stellar_rwa_contracts.Base.Host.{Address}
use stellar_rwa_contracts.Compliance.State.{Compliance, empty, KycRecord}
use stellar_rwa_contracts.Compliance.Jurisdictions.{
  is_jurisdiction_blocked, get_blocked_jurisdictions,
}
use stellar_rwa_contracts.Compliance.Records.{get_record}
use stellar_rwa_contracts.Compliance.Checks.{is_allowed}
use stellar_rwa_contracts.Compliance.Listing.{get_allowlist, get_allowlist_count}
use stellar_rwa_contracts.Compliance.Calls.{Call, step}
use stellar_rwa_contracts.Fuzz.Harness.{
  ◌>>=◌, ◌>>◌, assert, same, mock, expect, client, saturating_add, nth,
}

pub data Op : Type 0 where
  approve : ℕ → ℕ → Op
  suspend reinstate block_jur unblock_jur advance_ledger : ℕ → Op
  check : Op

-- US, KE, DE, IR, KP and ZZ.
abbrev pub jurs : List Text
jurs =
    (85 ∷ 83 ∷ [])
    ∷ (75 ∷ 69 ∷ [])
    ∷ (68 ∷ 69 ∷ [])
    ∷ (73 ∷ 82 ∷ [])
    ∷ (75 ∷ 80 ∷ [])
    ∷ (90 ∷ 90 ∷ [])
    ∷ []

-- The variables of the loop: the contract's storage, the two arrays of flags and the ledger
-- sequence.
pub record Race : Type 0 where
  pub state : Compliance
  pub approved : ℕ → Bool
  pub suspended : ℕ → Bool
  pub now : ℕ

abbrev pub jur_at : ℕ → Text
unfolding nth
jur_at jur_idx = nth [] jurs (jur_idx % 6)

-- The `match` of the loop, with the admin and the pool of users. The result of a `try_` call is not
-- looked at.
unfoldable pub apply : Address → (ℕ → Address) → Op → Race → Race
unfolding step
apply admin users (Op.approve user_idx jur_idx) c =
    let u = user_idx % 4 in
    record c {
      state = step c.state (mock c.now, Call.add_to_allowlist admin (users u) (jur_at jur_idx) 0);
      approved = update u true c.approved;
      suspended = update u false c.suspended;
    }
apply admin users (Op.suspend user_idx) c =
    let u = user_idx % 4 in
    if c.approved u && not (c.suspended u)
    then record c {
      state = step c.state (mock c.now, Call.suspend admin (users u));
      suspended = update u true c.suspended;
    }
    else c
apply admin users (Op.reinstate user_idx) c =
    let u = user_idx % 4 in
    if c.suspended u
    then record c {
      state = step c.state (mock c.now, Call.reinstate admin (users u));
      suspended = update u false c.suspended;
    }
    else c
apply admin users (Op.block_jur jur_idx) c = record c {
  state = step c.state (mock c.now, Call.block_jurisdiction admin (jur_at jur_idx));
}
apply admin users (Op.unblock_jur jur_idx) c = record c {
  state = step c.state (mock c.now, Call.unblock_jurisdiction admin (jur_at jur_idx));
}
apply admin users (Op.advance_ledger delta) c = record c { now = saturating_add c.now delta }
apply admin users Op.check c = c

-- `blocked_list.iter().any(|j| j == jur)`
unfoldable pub any_eq : Text → List Text → Bool
any_eq jur [] = false
any_eq jur (j ∷ list) = eq_text j jur || any_eq jur list

-- The second check, for each jurisdiction.
unfoldable pub check_jurs : List Text → Compliance → Option (Unit {0})
unfolding is_jurisdiction_blocked get_blocked_jurisdictions any_eq
check_jurs [] s = some tt
check_jurs (jur ∷ rest) s = do
  is_blocked ← expect (is_jurisdiction_blocked jur s)
  assert (same is_blocked (any_eq jur (get_blocked_jurisdictions s)))
  check_jurs rest s

-- `is_allowed` must be false.
unfoldable pub check_refused : ℕ → Address → Compliance → Option Compliance
unfolding is_allowed
check_refused now user s = do
  answer ← expect (is_allowed (mock now) user s)
  assert (not answer.0)
  some answer.1

-- The third check, for a user that has a record.
unfoldable pub check_record : ℕ → Address → KycRecord → Compliance → Option Compliance
unfolding is_jurisdiction_blocked check_refused
check_record now user rec s = do
  blocked ← expect (is_jurisdiction_blocked rec.jurisdiction s)
  if blocked then check_refused now user s else some s

unfoldable pub check_user : ℕ → Address → Compliance → Option Compliance
unfolding get_record check_record
check_user now user s = elim (get_record user s) [
  | none ↦ some s
  | some rec ↦ check_record now user rec s
]

unfoldable pub check_users : ℕ → List Address → Compliance → Option Compliance
unfolding check_user
check_users now [] s = some s
check_users now (user ∷ users) s = check_user now user s >>= λ s'. check_users now users s'

unfoldable pub check_invariants : ℕ → (ℕ → Address) → Compliance → Option Compliance
unfolding get_allowlist_count get_allowlist check_jurs check_users
check_invariants now users s = do
  assert (get_allowlist_count s == length (get_allowlist s))
  check_jurs jurs s
  check_users now (users 0 ∷ users 1 ∷ users 2 ∷ users 3 ∷ []) s

-- The loop.
unfoldable pub run_ops : Address → (ℕ → Address) → List Op → Race → Option Race
unfolding apply check_invariants
run_ops admin users [] c = some c
run_ops admin users (op ∷ ops) c =
    let c' = apply admin users op c in
    check_invariants c'.now users c'.state >>= λ s.
    run_ops admin users ops (record c' { state = s })

-- `start` is the ledger sequence of a new test host.
unfoldable pub fuzz_one : ℕ → Address → (ℕ → Address) → List Op → Option Race
unfolding client run_ops
fuzz_one start admin users ops = do
  s ← client start (Call.initialize admin) empty
  run_ops admin users ops
      (record { state = s; approved = λ _. false; suspended = λ _. false; now = 100 })
